-- ===== src/Commands/Retention.antt =====
-- What the cleanup of the idempotency records keeps.
use euphoria_api.Base.{
  ℕ, zero, take, ◌≡◌, refl, Bool, true, false, not, ◌⊎◌, inl, inr, List, [], ◌∷◌, none, some, ok,
  arith, All-map, Bool-cases, nat_eq, suc,
}
use euphoria_api.Sql.{select, order_by, is_among, All-select, select-All_none}
use euphoria_api.Sql.Keys.{find, Distinct-select}
use euphoria_api.Validate.{Number, assert_positive_integer}
use euphoria_api.Commands.Schema.{Command, command_key, invalid_argument}
use euphoria_api.Commands.Cleanup.{
  is_expired, command_ids, lock_expired, is_overdue, list_nonterminal,
}
use euphoria_api.Commands.Settled.{Settled, Completed, OneEach}

OneEach-select : (p : Command → Bool) (rows : List Command) → OneEach rows → OneEach (select p rows)
unfolding select
OneEach-select p [] d = tt
OneEach-select p (r ∷ rows) (d, ds) = elim (Bool-cases (p r)) [
  | inl e ↦ rw e (All-select _ p rows d, OneEach-select p rows ds)
  | inr e ↦ rw e (OneEach-select p rows ds)
]

pub select-Settled :
    (p : Command → Bool) (rows : List Command) → Settled rows → Settled (select p rows)
select-Settled p rows v = record {
  ids_distinct = Distinct-select command_key p rows v.ids_distinct;
  keys_distinct = OneEach-select p rows v.keys_distinct;
  all_completed = All-select Completed p rows v.all_completed;
}

-- What a cleanup may do to the row `k`, which was `r`.
abbrev pub ReplayableOrExpired : (locked : ℕ → Bool) (t k : ℕ) → Command → List Command → Type 0
ReplayableOrExpired locked t k r rows' =
    (find command_key k rows' ≡ some r)
    ⊎ ((find command_key k rows' ≡ none) × (is_expired t r ≡ true) × (locked k ≡ false))

module _ (locked : ℕ → Bool) (t : ℕ) (batch_size : Number) (count : ℕ) (rows : List Command)
    (v : Settled rows)
    (sized : assert_positive_integer batch_size invalid_argument ≡ ok count) where
  abbrev expired_rows : List Command
  expired_rows = lock_expired locked t count rows

  abbrev kept : Command → Bool
  kept r = not (is_among (command_ids expired_rows) r.id)

take_none : (n : ℕ) → (λ (rows : List Command). take n rows) [] ≡ []
take_none zero = refl
take_none (suc n) = refl

Completed-is_overdue : (t older : ℕ) (r : Command) → Completed r → is_overdue t older r ≡ false
unfolding is_overdue
Completed-is_overdue t older r c = ground (arith, c.state_completed)

-- With valid arguments, the diagnostics find nothing to list on settled rows.
pub list_nonterminal-Settled :
    (t : ℕ) (older_than_seconds limit : Number) (older count : ℕ) (rows : List Command)
    → Settled rows
    → assert_positive_integer older_than_seconds invalid_argument ≡ ok older
    → assert_positive_integer limit invalid_argument ≡ ok count
    → list_nonterminal t older_than_seconds limit rows ≡ ok []
unfolding list_nonterminal
list_nonterminal-Settled t older_than_seconds limit older count rows v aged sized =
    let none_overdue =
      All-map (λ r (c : Completed r). Completed-is_overdue t older r c) rows v.all_completed in
    rw (aged, sized, select-All_none (is_overdue t older) rows none_overdue)
      (unfold order_by in rw (take_none count) refl)

-- ===== src/Commands/Settled.antt =====
-- What holds of the committed rows of command_idempotency.
use euphoria_api.Base.{
  ℕ, inl, inr, text_eqb_sym, ◌+◌, ◌<◌, ◌≡◌, refl, sym, ◌∙◌, Bool, true, false, List, [], ◌∷◌, some,
  ok, arith, All, All-append, Bool-cases, text_eq,
}
use euphoria_api.Sql.{seconds, select, insert}
use euphoria_api.Sql.Keys.{Distinct}
use euphoria_api.Commands.Schema.{
  Command, is_completed, CommandOutcome, result, result_reference, command_key,
}
use euphoria_api.Commands.Run.{stored_outcome, has_key, completed_row, is_claim}

-- A row that can be replayed until its retention ends.
pub record Completed (r : Command) : Type 0 where
  pub state_completed : is_completed r.state ≡ true
  pub stored : CommandOutcome
  pub readable : stored_outcome r ≡ ok stored
  pub finished : ℕ
  pub expires : ℕ
  pub has_finished : r.completed_at ≡ some finished
  pub has_expiry : r.retention_expires_at ≡ some expires
  pub retained : finished < expires

abbrev pub same_key : Command → Command → Bool
same_key r = has_key r.actor_user_id r.command_name r.idempotency_key

-- The unique index: no later row has the key of a row.
abbrev pub OneEach : List Command → Type 0
OneEach [] = Unit
OneEach (r ∷ rows) = All (λ q. same_key r q ≡ false) rows × OneEach rows

pub record Settled (rows : List Command) : Type 0 where
  pub ids_distinct : Distinct command_key rows
  pub keys_distinct : OneEach rows
  pub all_completed : All Completed rows

pub stored-completed :
    (t retention : ℕ) (o : CommandOutcome) (r : Command)
    → stored_outcome (completed_row t retention o r) ≡ ok o
unfolding stored_outcome completed_row
stored-completed t retention (result v value) r = refl
stored-completed t retention (result_reference v reference) r = refl

pub completed_row-Completed :
    (t retention : ℕ) (o : CommandOutcome) (r : Command)
    → 0 < retention
    → Completed (completed_row t retention o r)
unfolding completed_row
completed_row-Completed t retention o r h = record {
  state_completed = refl;
  stored = o;
  readable = stored-completed t retention o r;
  finished = t;
  expires = t + seconds retention;
  has_finished = refl;
  has_expiry = refl;
  retained = omega (arith, h);
}

-- A completed row is no claim.
pub Completed-is_claim : (id : ℕ) (r : Command) → Completed r → is_claim id r ≡ false
unfolding is_claim
Completed-is_claim id r c = ground (arith, c.state_completed)

has_key-sym : (r q : Command) → same_key r q ≡ same_key q r
unfolding has_key
has_key-sym r q = ground (
  arith,
  text_eqb_sym r.actor_user_id q.actor_user_id,
  text_eqb_sym r.command_name q.command_name,
  text_eqb_sym r.idempotency_key q.idempotency_key,
)

pub OneEach-insert :
    (r : Command) (rows : List Command)
    → select (same_key r) rows ≡ []
    → OneEach rows
    → OneEach (insert r rows)
unfolding select
OneEach-insert r [] h d = (tt, tt)
OneEach-insert r (q ∷ rows) h (d, ds) = elim (Bool-cases (same_key r q)) [
  | inl e ↦ absurd (cc (h, e))
  | inr e ↦ (
    All-append _ rows (r ∷ []) d (sym (has_key-sym r q) ∙ e, tt),
    OneEach-insert r rows (rw e at h) ds,
  )
]

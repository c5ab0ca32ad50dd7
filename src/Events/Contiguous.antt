-- ===== src/Events/Contiguous.antt =====
-- The events that are retained of a scope are those from its retention floor to its high-water
-- mark.
use euphoria_api.Base.{
  ℕ, ◌+◌, ◌≤◌, ◌<◌, ◌≡◌, refl, sym, subst, ◌∙◌, ap, true, false, inl, inr, List, [], ◌∷◌, Option,
  none, some, ok, >>=-eq-ok, ok_inj, guard, arith, All, All-append, All-map, Bool-cases,
  Option-cases, length, length-append, ltb, nat_eq,
}
use euphoria_api.Sql.{update, insert, is_among}
use euphoria_api.Sql.Keys.{Distinct, find, Distinct-insert}
use euphoria_api.Events.Schema.{
  Scope, ScopeRow, EventStore, out_of_range, same_scope, find_scope, sequences,
}
use euphoria_api.Events.Append.{max_int8, new_scope, raised, allocate, allocate_beside}
use euphoria_api.Events.Pigeonhole.{is_among-full}
use euphoria_api.Events.Scopes.{same_scope_iff, find_scope-update, find_scope-insert}

-- The sequences from the floor to the high-water mark, each once.
pub record Held (r : ScopeRow) (ns : List ℕ) : Type 0 where
  pub floor_positive : 0 < r.retention_floor
  pub counted : length ns + r.retention_floor ≡ r.high_water + 1
  pub distinct : Distinct (λ n. n) ns
  pub in_range : All (λ n. (r.retention_floor ≤ n) × (n ≤ r.high_water)) ns

pub record Contiguous (s : EventStore) : Type 0 where
  pub tracked :
      (c : Scope) (r : ScopeRow) → find_scope c s.scopes ≡ some r → Held r (sequences c s.events)
  pub untracked : (c : Scope) → find_scope c s.scopes ≡ none → sequences c s.events ≡ []

-- Every sequence of the range is retained.
pub Held-is_among :
    (r : ScopeRow) (ns : List ℕ) (n : ℕ)
    → Held r ns
    → r.retention_floor ≤ n
    → n ≤ r.high_water
    → is_among ns n ≡ true
Held-is_among r ns n h lo hi =
    is_among-full r.retention_floor (length ns) n ns h.distinct
      (All-map (λ k q. (q.0, omega (arith, q.1, h.counted))) ns h.in_range) refl lo
      (omega (arith, hi, h.counted))

pub fresh_Held : (started t : ℕ) (s : Scope) → Held (new_scope started t 0 s) []
fresh_Held started t s = record {
  floor_positive = omega arith;
  counted = refl;
  distinct = tt;
  in_range = tt;
}

absent_above : (k : ℕ) (ns : List ℕ) → All (λ n. n < k) ns → find (λ n. n) k ns ≡ none
unfolding find
absent_above k [] h = refl
absent_above k (n ∷ ns) (h, hs) = ground (arith, absent_above k ns hs)

-- One sequence more, at the raised high-water mark.
raised-Held :
    (t : ℕ) (r : ScopeRow) (ns : List ℕ)
    → Held r ns
    → Held (raised t r) (insert (r.high_water + 1) ns)
raised-Held t r ns h = record {
  floor_positive = h.floor_positive;
  counted = omega (arith, length-append ns ((r.high_water + 1) ∷ []), h.counted);
  distinct =
      Distinct-insert (λ n. n) (r.high_water + 1) ns
        (absent_above (r.high_water + 1) ns (All-map (λ n q. omega (arith, q.1)) ns h.in_range))
        h.distinct;
  in_range =
      All-append _ ns ((r.high_water + 1) ∷ [])
        (All-map (λ n q. (q.0, omega (arith, q.1))) ns h.in_range)
        ((omega (arith, h.counted), omega arith), tt);
}

first_Held : (started t : ℕ) (s : Scope) → Held (new_scope started t 1 s) (1 ∷ [])
first_Held started t s = record {
  floor_positive = omega arith;
  counted = refl;
  distinct = (tt, tt);
  in_range = ((omega arith, omega arith), tt);
}

-- The sequence that comes next in a scope.
abbrev pub next_sequence : Option ScopeRow → ℕ
next_sequence none = 1
next_sequence (some r) = r.high_water + 1

-- What allocating a sequence of the scope `c` does to the rows of the scopes.
pub record Allocated (c : Scope) (rows : List ScopeRow) (p : ℕ × List ScopeRow) : Type 0 where
  pub row : ScopeRow
  pub mark : row.high_water ≡ p.0
  pub next : p.0 ≡ next_sequence (find_scope c rows)
  pub found : find_scope c p.1 ≡ some row
  pub others : (d : Scope) → same_scope c d ≡ false → find_scope d p.1 ≡ find_scope d rows
  pub grows :
      (ns : List ℕ)
      → ((r : ScopeRow) → find_scope c rows ≡ some r → Held r ns)
      → (find_scope c rows ≡ none → ns ≡ [])
      → Held row (insert p.0 ns)

pub same_scope_self : (c : Scope) → same_scope c c ≡ true
same_scope_self c = (same_scope_iff c c).1 refl

same_scope-sym : (c d : Scope) → same_scope c d ≡ false → same_scope d c ≡ false
same_scope-sym c d h = elim (Bool-cases (same_scope d c)) [
  | inr e ↦ e
  | inl e ↦ absurd (cc (h, (same_scope_iff c d).1 (sym ((same_scope_iff d c).0 e))))
]

Allocated-new :
    (started t : ℕ) (c : Scope) (rows : List ScopeRow)
    → find_scope c rows ≡ none
    → Allocated c rows (1, insert (new_scope started t 1 c) rows)
Allocated-new started t c rows n = record {
  row = new_scope started t 1 c;
  mark = refl;
  next = sym (ap next_sequence n);
  found = find_scope-insert (new_scope started t 1 c) c rows n ∙ rw (same_scope_self c) refl;
  others = λ d o. find_scope-insert (new_scope started t 1 c) d rows n ∙ rw o refl;
  grows = λ ns held none_held.
      subst (λ l. Held (new_scope started t 1 c) (insert 1 l)) (sym (none_held n))
        (first_Held started t c);
}

Allocated-raised :
    (t : ℕ) (c : Scope) (rows : List ScopeRow) (r : ScopeRow)
    → find_scope c rows ≡ some r
    → Allocated c rows (r.high_water + 1, update (λ q. same_scope q.scope c) (raised t) rows)
Allocated-raised t c rows r h = record {
  row = raised t r;
  mark = refl;
  next = sym (ap next_sequence h);
  found =
      find_scope-update (λ d. same_scope d c) (raised t) c rows (λ q. refl)
      ∙ rw (same_scope_self c, h) refl;
  others = λ d o.
      find_scope-update (λ d. same_scope d c) (raised t) d rows (λ q. refl)
      ∙ rw (same_scope-sym c d o) refl;
  grows = λ ns held none_held. raised-Held t r ns (held r h);
}

pub allocate-Allocated :
    (started t : ℕ) (c : Scope) (rows : List ScopeRow) (p : ℕ × List ScopeRow)
    → allocate started t c rows ≡ ok p
    → Allocated c rows p
unfolding allocate
allocate-Allocated started t c rows p h = elim (Option-cases (find_scope c rows)) [
  | inl n ↦
      subst (Allocated c rows) (ok_inj (allocate started t c rows) (rw n refl) h)
        (Allocated-new started t c rows n)
  | inr (r, e) ↦
      let entered : allocate_beside started t c rows (some r) ≡ ok p =
        ap (allocate_beside started t c rows) (sym e) ∙ h in
      let (u, low, ends) = >>=-eq-ok (guard (ltb r.high_water max_int8) out_of_range) _ entered in
      subst (Allocated c rows) (ok_inj _ refl ends) (Allocated-raised t c rows r e)
]

-- ===== src/Events/Appending.antt =====
-- Appending numbers the events of a scope without gaps, and a checkpoint that is accepted misses
-- no event.
use euphoria_api.Base.{
  ℕ, ◌+◌, ◌-◌, ◌≤◌, ◌<◌, ◌≡◌, refl, sym, subst, ◌∙◌, ap, true, not, inl, inr, List, [], ◌∷◌, Option,
  some, ok, ◌>>◌, >>=-eq-ok, ok_inj, guard, arith, Bool-cases, Option-cases, some_inj, ltb, leb,
  any, ◌==◌, nat_eq, if◌then◌else◌, Text,
}
use euphoria_api.Sql.{insert, is_among}
use euphoria_api.Validate.{max_int4}
use euphoria_api.Events.Schema.{
  Scope, ScopeRow, Event, EventStore, EventInput, constraint_violation, out_of_range,
  invalid_argument, same_scope, find_scope, sequences, assert_scope, assert_event_input,
}
use euphoria_api.Events.Append.{
  new_scope, allocate, insert_guard, new_event, append_event, append_all, append_events, Checkpoint,
  accepted, validate_checkpoint, answer_of, event_later, assert_inputs, is_causal, ensured,
}
use euphoria_api.Events.Scopes.{same_scope_iff, find_scope-insert, sequences-insert}
use euphoria_api.Events.Contiguous.{
  Held, Contiguous, Held-is_among, fresh_Held, Allocated, allocate-Allocated, next_sequence,
  same_scope_self,
}

-- The tables after an event of a newly allocated sequence has been stored.
added-Contiguous :
    (c : Scope) (p : ℕ × List ScopeRow) (e : Event) (s : EventStore)
    → Contiguous s
    → Allocated c s.scopes p
    → e.scope ≡ c
    → e.sequence ≡ p.0
    → Contiguous (record { scopes = p.1; events = insert e s.events })
added-Contiguous c p e s v a at_c numbered = record {
  tracked = λ d r h. elim (Bool-cases (same_scope c d)) [
    | inr o ↦
        let kept : sequences d (insert e s.events) ≡ sequences d s.events =
          sequences-insert e d s.events
          ∙ ap
              (λ x.
                if same_scope x d
                then insert e.sequence (sequences d s.events)
                else sequences d s.events)
              at_c
          ∙ ap (λ b. if b then insert e.sequence (sequences d s.events) else sequences d s.events)
              o in
        subst (Held r) (sym kept) (v.tracked d r (sym (a.others d o) ∙ h))
    | inl q ↦
        let here : c ≡ d = (same_scope_iff c d).0 q in
        let row : a.row ≡ r = some_inj (sym a.found ∙ ap (λ x. find_scope x p.1) here ∙ h) in
        let grown : sequences d (insert e s.events) ≡ insert p.0 (sequences c s.events) =
          sequences-insert e d s.events
          ∙ ap
              (λ x.
                if same_scope x d
                then insert e.sequence (sequences d s.events)
                else sequences d s.events)
              at_c
          ∙ ap (λ b. if b then insert e.sequence (sequences d s.events) else sequences d s.events) q
          ∙ ap (λ n. insert n (sequences d s.events)) numbered
          ∙ ap (λ x. insert p.0 (sequences x s.events)) (sym here) in
        subst (λ x. Held x (sequences d (insert e s.events))) row
          (subst (Held a.row) (sym grown)
            (a.grows (sequences c s.events) (v.tracked c) (v.untracked c)))
  ];
  untracked = λ d h. elim (Bool-cases (same_scope c d)) [
    | inr o ↦
        sequences-insert e d s.events
        ∙ ap
            (λ x.
              if same_scope x d
              then insert e.sequence (sequences d s.events)
              else sequences d s.events)
            at_c
        ∙ ap (λ b. if b then insert e.sequence (sequences d s.events) else sequences d s.events) o
        ∙ v.untracked d (sym (a.others d o) ∙ h)
    | inl q ↦ absurd (cc (a.found, h, ap (λ x. find_scope x p.1) ((same_scope_iff c d).0 q)))
  ];
}

-- When the retained events have no gaps, an event that is appended takes the sequence after the high-water mark of its scope (1 in a new
-- scope), and the retained events of every scope stay those from its floor to its high-water mark.
pub append_event-Contiguous :
    (started id : ℕ) (clock : ℕ → ℕ) (causal_id : Option Text) (event : EventInput)
    (s s' : EventStore) (e : Event)
    → Contiguous s
    → append_event started id clock causal_id event s ≡ ok (e, s')
    → (e.sequence ≡ next_sequence (find_scope event.scope s.scopes)) × Contiguous s'
unfolding append_event
append_event-Contiguous started id clock causal_id event s s' e v h =
    let (x, checked, h1) = >>=-eq-ok (assert_event_input event) _ h in
    let (p, ran, h2) = >>=-eq-ok (allocate started (clock 0) event.scope s.scopes) _ h1 in
    let (_, passed, last) =
      >>=-eq-ok
        (insert_guard event.scope p.0 p.1
          >> guard (leb x.0 max_int4) out_of_range
          >> guard (not (any (λ e. e.id == id) s.events)) constraint_violation
          >> guard (not (is_among (sequences event.scope s.events) p.0)) constraint_violation)
        _ h2 in
    let a = allocate-Allocated started (clock 0) event.scope s.scopes p ran in
    let created = new_event id (clock 1) x.0 x.1 p.0 causal_id event in
    let after : EventStore = record { scopes = p.1; events = insert created s.events } in
    let same : (created, after) ≡ (e, s') = ok_inj _ refl last in
    (
      ap (λ (q : Event × EventStore). q.0.sequence) (sym same) ∙ a.next,
      subst (λ (q : Event × EventStore). Contiguous q.1) same
          (added-Contiguous event.scope p created s v a refl refl),
    )

append_all-Contiguous :
    (started : ℕ) (ids clock : ℕ → ℕ) (causal_id : Option Text) (events : List EventInput)
    (s : EventStore) (q : List Event × EventStore)
    → Contiguous s
    → append_all started ids clock causal_id events s ≡ ok q
    → Contiguous q.1
unfolding append_all
append_all-Contiguous started ids clock causal_id [] s q v h =
    subst (λ (x : List Event × EventStore). Contiguous x.1) (ok_inj _ refl h) v
append_all-Contiguous started ids clock causal_id (event ∷ rest) s q v h =
    let (x, ran, h1) = >>=-eq-ok (append_event started (ids 0) clock causal_id event s) _ h in
    let (y, rest_ran, h2) =
      >>=-eq-ok (append_all started (event_later ids 1) (event_later clock 2) causal_id rest x.1) _
        h1 in
    let first = append_event-Contiguous started (ids 0) clock causal_id event s x.1 x.0 v ran in
    subst (λ (x : List Event × EventStore). Contiguous x.1) (ok_inj _ refl h2)
      (append_all-Contiguous started (event_later ids 1) (event_later clock 2) causal_id rest x.1 y
        first.1 rest_ran)

-- A batch that is appended leaves the retained events of every scope without gaps.
pub append_events-Contiguous :
    (started : ℕ) (ids clock : ℕ → ℕ) (causal_id : Option Text) (events : List EventInput)
    (s s' : EventStore) (created : List Event)
    → Contiguous s
    → append_events started ids clock causal_id events s ≡ ok (created, s')
    → Contiguous s'
unfolding append_events
append_events-Contiguous started ids clock causal_id events s s' created v h =
    let (_, causal, h1) = >>=-eq-ok (guard (is_causal causal_id) invalid_argument) _ h in
    let (_, checked, ran) = >>=-eq-ok (assert_inputs events) _ h1 in
    append_all-Contiguous started ids clock causal_id events s (created, s') v ran

-- The row of the scope as ensureDurableEventScope leaves it, beside the other rows.
ensured-Contiguous :
    (started t : ℕ) (c : Scope) (s : EventStore)
    → Contiguous s
    → let q = ensured started t c s.scopes (find_scope c s.scopes) in
      Contiguous (record s { scopes = q.1 }) × (find_scope c q.1 ≡ some q.0)
ensured-Contiguous started t c s v = elim (Option-cases (find_scope c s.scopes)) [
  | inr (r, e) ↦
      subst
        (λ o.
          let q = ensured started t c s.scopes o in
          Contiguous (record s { scopes = q.1 }) × (find_scope c q.1 ≡ some q.0))
        (sym e) (v, e)
  | inl n ↦
      let row = new_scope started t 0 c in
      subst
        (λ o.
          let q = ensured started t c s.scopes o in
          Contiguous (record s { scopes = q.1 }) × (find_scope c q.1 ≡ some q.0))
        (sym n)
        (
          record {
            tracked = λ d r h. elim (Bool-cases (same_scope c d)) [
              | inr o ↦ v.tracked d r (sym (find_scope-insert row d s.scopes n ∙ rw o refl) ∙ h)
              | inl q ↦
                  let here : c ≡ d = (same_scope_iff c d).0 q in
                  let at : row ≡ r =
                    some_inj (sym (find_scope-insert row d s.scopes n ∙ rw q refl) ∙ h) in
                  let bare : sequences d s.events ≡ [] =
                    ap (λ x. sequences x s.events) (sym here) ∙ v.untracked c n in
                  subst (λ x. Held x (sequences d s.events)) at
                    (subst (Held row) (sym bare) (fresh_Held started t c))
            ];
            untracked = λ d h. elim (Bool-cases (same_scope c d)) [
              | inr o ↦ v.untracked d (sym (find_scope-insert row d s.scopes n ∙ rw o refl) ∙ h)
              | inl q ↦ absurd (
                  cc (
                    h,
                    find_scope-insert row d s.scopes n,
                    ap (λ b. if b then some row else find_scope d s.scopes) q,
                  ))
            ];
          },
          find_scope-insert row c s.scopes n ∙ rw (same_scope_self c) refl,
        )
]

pub validate_checkpoint_total :
    (started t after : ℕ) (c : Scope) (s : EventStore)
    → Contiguous s
    → assert_scope c ≡ ok tt
    → (r : ScopeRow) × (s' : EventStore) × (validate_checkpoint started t (some after) c s
        ≡ ok (answer_of after c r, s'))
      × (find_scope c s'.scopes ≡ some r)
      × Contiguous s'
unfolding validate_checkpoint
validate_checkpoint_total started t after c s v named =
    let q = ensured started t c s.scopes (find_scope c s.scopes) in
    let (kept, found) = ensured-Contiguous started t c s v in
    (q.0, record s { scopes = q.1 }, rw named refl, found, kept)

accepted_facts :
    (after floor top : ℕ) (c : Scope) (r : ScopeRow)
    → answer_of after c r ≡ accepted floor top
    → (r.retention_floor ≤ after + 1) × (r.high_water ≡ top)
accepted_facts after floor top c r h = elim (Bool-cases (ltb after (r.retention_floor - 1))) [
  | inl e ↦ absurd (cc (rw e at h))
  | inr e ↦ elim (Bool-cases (ltb r.high_water after)) [
    | inl q ↦ absurd (cc (rw (e, q) at h))
    | inr q ↦ (ground arith, cc (rw (e, q) at h))
  ]
]

-- When the retained events have no gaps and the scope has a valid name, a checkpoint that is
-- accepted misses no event: each sequence after it, up to the high-water mark
-- that is answered, is the sequence of a retained event.
pub validate_checkpoint_complete :
    (started t after floor top n : ℕ) (c : Scope) (s s' : EventStore)
    → Contiguous s
    → assert_scope c ≡ ok tt
    → validate_checkpoint started t (some after) c s ≡ ok (accepted floor top, s')
    → after < n
    → n ≤ top
    → is_among (sequences c s'.events) n ≡ true
validate_checkpoint_complete started t after floor top n c s s' v named h later below =
    let (r, s1, ran, found, kept) = validate_checkpoint_total started t after c s v named in
    let same : (answer_of after c r, s1) ≡ (accepted floor top, s') =
      ok_inj (validate_checkpoint started t (some after) c s) ran h in
    let (reached, mark) =
      accepted_facts after floor top c r (ap (λ (x : Checkpoint × EventStore). x.0) same) in
    subst (λ (x : Checkpoint × EventStore). is_among (sequences c x.1.events) n ≡ true) same
      (Held-is_among r (sequences c s1.events) n (kept.tracked c r found)
        (omega (arith, reached, later)) (omega (arith, below, mark)))

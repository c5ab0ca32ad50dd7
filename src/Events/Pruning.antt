-- ===== src/Events/Pruning.antt =====
-- Pruning keeps the retained events of every scope without gaps.
use mathlib.Core.Option
use euphoria_api.Base.{
  ℕ, ◌+◌, ◌≤◌, ◌≡◌, refl, sym, subst, ◌∙◌, ap, ◌≢◌, Bool, true, false, not, ◌&&◌, ◌||◌, inl, inr,
  List, [], ◌∷◌, none, some, ok, ◌>>=◌, >>=-eq-ok, ok_inj, arith, All, All-map, All-both,
  Bool-cases, Option-cases, map-eq-some, any, all, length, nat_eqb_iff, some_inj, and-true, take,
  if◌then◌else◌,
}
use euphoria_api.Sql.{select, delete, update, order_by, is_among}
use euphoria_api.Sql.Keys.{Distinct}
use euphoria_api.Validate.{Number, assert_positive_integer}
use euphoria_api.Events.Schema.{
  Scope, ScopeRow, Event, EventStore, invalid_argument, same_scope, find_scope, sequences,
}
use euphoria_api.Events.Prune.{
  is_expired_prefix, event_before, least, greatest, raised_floor, touches, is_contiguous,
  after_delete, event_ids, prune_events,
}
use euphoria_api.Events.Scopes.{find_scope-scope, find_scope-update}
use euphoria_api.Events.Contiguous.{Held, Contiguous}

module _ (c : Scope) (keep : Event → Bool) where
  All-sequences :
      (P : ℕ → Type 0) (events : List Event)
      → All P (sequences c events)
      → All P (sequences c (select keep events))
  unfolding sequences
  All-sequences P [] h = tt
  All-sequences P (e ∷ events) h = elim (Bool-cases (same_scope e.scope c)) [
    | inl q ↦
        let both : P e.sequence × All P (sequences c events) = rw q at h in
        elim (Bool-cases (keep e)) [
          | inl k ↦ rw (k, q) (both.0, All-sequences P events both.1)
          | inr k ↦ rw k (All-sequences P events both.1)
        ]
    | inr q ↦
        let rest : All P (sequences c events) = rw q at h in
        elim (Bool-cases (keep e)) [
          | inl k ↦ rw (k, q) (All-sequences P events rest)
          | inr k ↦ rw k (All-sequences P events rest)
        ]
  ]

  Distinct-sequences :
      (events : List Event)
      → Distinct (λ n. n) (sequences c events)
      → Distinct (λ n. n) (sequences c (select keep events))
  unfolding sequences
  Distinct-sequences [] h = tt
  Distinct-sequences (e ∷ events) h = elim (Bool-cases (same_scope e.scope c)) [
    | inl q ↦
        let both : All (λ n. n ≢ e.sequence) (sequences c events)
            × Distinct (λ n. n) (sequences c events) =
          rw q at h in
        elim (Bool-cases (keep e)) [
          | inl k ↦
              rw (k, q)
                (
                  All-sequences (λ n. n ≢ e.sequence) events both.0,
                  Distinct-sequences events both.1,
                )
          | inr k ↦ rw k (Distinct-sequences events both.1)
        ]
    | inr q ↦
        let rest : Distinct (λ n. n) (sequences c events) = rw q at h in
        elim (Bool-cases (keep e)) [
          | inl k ↦ rw (k, q) (Distinct-sequences events rest)
          | inr k ↦ rw k (Distinct-sequences events rest)
        ]
  ]

  sequences_none :
      (events : List Event) → sequences c events ≡ [] → sequences c (select keep events) ≡ []
  unfolding sequences
  sequences_none [] h = refl
  sequences_none (e ∷ events) h = elim (Bool-cases (same_scope e.scope c)) [
    | inl q ↦ absurd (cc (h, q))
    | inr q ↦
        let rest : sequences c events ≡ [] = rw q at h in
        elim (Bool-cases (keep e)) [
          | inl k ↦ rw (k, q) (sequences_none events rest)
          | inr k ↦ rw k (sequences_none events rest)
        ]
  ]

-- A scope of which nothing is deleted keeps its events.
sequences_untouched :
    (c : Scope) (gone : Event → Bool) (events : List Event)
    → any (λ e. same_scope e.scope c) (select gone events) ≡ false
    → sequences c (delete gone events) ≡ sequences c events
unfolding sequences delete
sequences_untouched c gone [] h = refl
sequences_untouched c gone (e ∷ events) h = elim (Bool-cases (gone e)) [
  | inl g ↦
      let both : (same_scope e.scope c || any (λ x. same_scope x.scope c) (select gone events))
          ≡ false =
        rw g at h in
      elim (Bool-cases (same_scope e.scope c)) [
        | inl q ↦ absurd (cc (rw q at both))
        | inr q ↦ rw (g, q) (sequences_untouched c gone events (rw q at both))
      ]
  | inr g ↦
      let rest : any (λ x. same_scope x.scope c) (select gone events) ≡ false = rw g at h in
      elim (Bool-cases (same_scope e.scope c)) [
        | inl q ↦ rw (g, q) (ap (λ ns. e.sequence ∷ ns) (sequences_untouched c gone events rest))
        | inr q ↦ rw (g, q) (sequences_untouched c gone events rest)
      ]
]

least-All : (top : ℕ) (ns : List ℕ) → All (λ n. least top ns ≤ n) ns
least-All top [] = tt
least-All top (n ∷ ns) =
    (ground arith, All-map (λ k (h : least top ns ≤ k). ground (arith, h)) ns (least-All top ns))

all-find_scope :
    (test : ScopeRow → Bool) (c : Scope) (rows : List ScopeRow) (r : ScopeRow)
    → all test rows ≡ true
    → find_scope c rows ≡ some r
    → test r ≡ true
unfolding find_scope
all-find_scope test c [] r h f = absurd (cc)
all-find_scope test c (q ∷ rows) r h f =
    let (this, rest) = and-true (test q) (all test rows) h in
    elim (Bool-cases (same_scope q.scope c)) [
      | inl e ↦ subst (λ (x : ScopeRow). test x ≡ true) (some_inj (rw e at f)) this
      | inr e ↦ all-find_scope test c rows r rest (rw e at f)
    ]

-- Some events of a scope go, and the trigger finds the rest contiguous.
pruned_Held :
    (u : ℕ) (gone : Event → Bool) (events : List Event) (r : ScopeRow)
    → Held r (sequences r.scope events)
    → is_contiguous (delete gone events) (raised_floor u (delete gone events) r) ≡ true
    → Held (raised_floor u (delete gone events) r) (sequences r.scope (delete gone events))
unfolding raised_floor delete
pruned_Held u gone events r h counted =
    let keep = λ (e : Event). not (gone e) in
    let ns = sequences r.scope (select keep events) in
    record {
      floor_positive = ground (arith, h.floor_positive);
      counted =
          (nat_eqb_iff (length ns + greatest r.retention_floor (least (r.high_water + 1) ns))
              (r.high_water + 1)).0
            counted;
      distinct = Distinct-sequences r.scope keep events h.distinct;
      in_range =
          All-map (λ n q. (ground (arith, q.0, q.1), q.1.1)) ns
            (All-both (λ n. least (r.high_water + 1) ns ≤ n)
              (λ n. (r.retention_floor ≤ n) × (n ≤ r.high_water)) ns
              (least-All (r.high_water + 1) ns)
              (All-sequences r.scope keep (λ n. (r.retention_floor ≤ n) × (n ≤ r.high_water)) events
                h.in_range));
    }

module _ (u : ℕ) (gone : Event → Bool) (s : EventStore) (v : Contiguous s) where
  abbrev deleted : List Event
  deleted = select gone s.events

  abbrev kept : List Event
  kept = delete gone s.events

  abbrev rows : List ScopeRow
  rows = update (touches deleted) (raised_floor u kept) s.scopes

  row_after :
      (c : Scope)
      → find_scope c rows ≡ (
          if any (λ e. same_scope e.scope c) deleted
          then Option.map (raised_floor u kept) (find_scope c s.scopes)
          else find_scope c s.scopes)
  row_after c =
      find_scope-update (λ x. any (λ e. same_scope e.scope x) deleted) (raised_floor u kept) c
        s.scopes (λ r. unfold raised_floor in refl)

  tracked_after :
      (c : Scope) (r : ScopeRow)
      → all (λ q. not (touches deleted q) || is_contiguous kept q) rows ≡ true
      → find_scope c rows ≡ some r
      → Held r (sequences c kept)
  tracked_after c r clean h = elim (Bool-cases (any (λ e. same_scope e.scope c) deleted)) [
    | inr o ↦
        let was : find_scope c s.scopes ≡ some r =
          sym (
            row_after c
            ∙ ap
                (λ b.
                  if b
                  then Option.map (raised_floor u kept) (find_scope c s.scopes)
                  else find_scope c s.scopes)
                o)
          ∙ h in
        subst (Held r) (sym (sequences_untouched c gone s.events o)) (v.tracked c r was)
    | inl o ↦
        let raised : Option.map (raised_floor u kept) (find_scope c s.scopes) ≡ some r =
          sym (
            row_after c
            ∙ ap
                (λ b.
                  if b
                  then Option.map (raised_floor u kept) (find_scope c s.scopes)
                  else find_scope c s.scopes)
                o)
          ∙ h in
        let (before, was, e) = map-eq-some (raised_floor u kept) (find_scope c s.scopes) raised in
        let at_c : before.scope ≡ c = find_scope-scope c s.scopes before was in
        let test =
          all-find_scope (λ q. not (touches deleted q) || is_contiguous kept q) c rows r clean h in
        let touched : touches deleted r ≡ true =
          ap (touches deleted) (sym e)
          ∙ unfold raised_floor in ap (λ x. any (λ e. same_scope e.scope x) deleted) at_c ∙ o in
        let contiguous : is_contiguous kept (raised_floor u kept before) ≡ true =
          ap (is_contiguous kept) e ∙ ground (arith, test, touched) in
        let held = v.tracked c before was in
        subst (λ q. Held q (sequences c kept)) e
          (subst (λ x. Held (raised_floor u kept before) (sequences x kept)) at_c
            (pruned_Held u gone s.events before
              (subst (λ x. Held before (sequences x s.events)) (sym at_c) held) contiguous))
  ]

  untracked_after : (c : Scope) → find_scope c rows ≡ none → sequences c kept ≡ []
  unfolding delete
  untracked_after c h = elim (Option-cases (find_scope c s.scopes)) [
    | inl n ↦ sequences_none c (λ e. not (gone e)) s.events (v.untracked c n)
    | inr (r, e) ↦
        let f = raised_floor u kept in
        let choose =
          λ (b : Bool). if b then Option.map f (find_scope c s.scopes) else find_scope c s.scopes in
        elim (Bool-cases (any (λ e. same_scope e.scope c) deleted)) [
          | inl o ↦
              let bad : Option.map f (find_scope c s.scopes) ≡ none =
                sym (row_after c ∙ ap choose o) ∙ h in
              absurd (cc (ap (Option.map f) (sym e) ∙ bad))
          | inr o ↦
              let bad : find_scope c s.scopes ≡ none = sym (row_after c ∙ ap choose o) ∙ h in
              absurd (cc (sym e ∙ bad))
        ]
  ]

  after_delete-Contiguous :
      (s' : EventStore)
      → after_delete u deleted (record s { events = kept }) ≡ ok s'
      → Contiguous s'
  unfolding after_delete
  after_delete-Contiguous s' h =
      elim (Bool-cases (all (λ q. not (touches deleted q) || is_contiguous kept q) rows)) [
        | inr n ↦ absurd (cc (rw n at h))
        | inl clean ↦
            subst Contiguous (ok_inj _ refl (rw clean at h))
              (record { tracked = λ c r f. tracked_after c r clean f; untracked = untracked_after })
      ]

  finished-Contiguous :
      (acquired : Bool) (q : List Event × EventStore)
      → (if not acquired
          then ok ([], s)
          else (after_delete u deleted (record s { events = kept }) >>= λ after.
              ok (deleted, after)))
        ≡ ok q
      → Contiguous q.1
  finished-Contiguous false q h =
      subst (λ (x : List Event × EventStore). Contiguous x.1) (ok_inj _ refl h) v
  finished-Contiguous true q h =
      let (after, ran, ends) =
        >>=-eq-ok (after_delete u deleted (record s { events = kept })) _ h in
      subst (λ (x : List Event × EventStore). Contiguous x.1) (ok_inj _ refl ends)
        (after_delete-Contiguous after ran)

-- When the retained events have no gaps, and whatever a pruning that comes through deletes, the
-- retained events of every scope are again
-- those from the floor, which may have risen, to the high-water mark.
pub prune_events-Contiguous :
    (acquired : Bool) (locked : ℕ → Bool) (t u : ℕ) (batch_size : Number) (s s' : EventStore)
    (removed : List Event)
    → Contiguous s
    → prune_events acquired locked t u batch_size s ≡ ok (removed, s')
    → Contiguous s'
unfolding prune_events
prune_events-Contiguous acquired locked t u batch_size s s' removed v h =
    let (count, sized, h1) = >>=-eq-ok (assert_positive_integer batch_size invalid_argument) _ h in
    let free = λ (e : Event). is_expired_prefix t s.events e && not (locked e.id) in
    let ids = event_ids (take count (order_by event_before (select free s.events))) in
    finished-Contiguous u (λ e. is_among ids e.id) s v acquired (removed, s') h1

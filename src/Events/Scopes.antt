-- ===== src/Events/Scopes.antt =====
-- Looking up scopes and their retained sequences after the statements.
use mathlib.Core.Option
use euphoria_api.Base.{
  ◌≡◌, refl, sym, ◌∙◌, ap, ◌↔◌, Bool, true, false, inl, inr, List, [], ◌∷◌, none, some, arith,
  Bool-cases, text_eqb_iff, text_eq, if◌then◌else◌,
}
use euphoria_api.Sql.{update, insert}
use euphoria_api.Events.Schema.{
  Scope, ScopeKind, chat_conversation, chat_profile, notification_user, ScopeRow, Event, same_scope,
  kind_eqb, find_scope, sequences,
}

kind_eqb_iff : (k l : ScopeKind) → (kind_eqb k l ≡ true) ↔ (k ≡ l)
kind_eqb_iff chat_conversation l = ground arith
kind_eqb_iff chat_profile l = ground arith
kind_eqb_iff notification_user l = ground arith

pub same_scope_iff : (s t : Scope) → (same_scope s t ≡ true) ↔ (s ≡ t)
unfolding same_scope
same_scope_iff s t = ground (arith, kind_eqb_iff s.kind t.kind, text_eqb_iff s.id t.id)

pub find_scope-scope :
    (c : Scope) (rows : List ScopeRow) (r : ScopeRow) → find_scope c rows ≡ some r → r.scope ≡ c
unfolding find_scope
find_scope-scope c [] r h = absurd (cc)
find_scope-scope c (q ∷ rows) r h = elim (Bool-cases (same_scope q.scope c)) [
  | inl e ↦ ground (arith, (same_scope_iff q.scope c).0 e)
  | inr e ↦ find_scope-scope c rows r (rw e at h)
]

pub find_scope-update :
    (P : Scope → Bool) (f : ScopeRow → ScopeRow) (c : Scope) (rows : List ScopeRow)
    → ((r : ScopeRow) → (f r).scope ≡ r.scope)
    → find_scope c (update (λ r. P r.scope) f rows)
      ≡ (if P c then Option.map f (find_scope c rows) else find_scope c rows)
unfolding find_scope update
find_scope-update P f c [] keeps = ground arith
find_scope-update P f c (q ∷ rows) keeps = elim (Bool-cases (P q.scope)) [
  | inl p ↦
      rw (p, ap (λ t. same_scope t c) (keeps q))
        (elim (Bool-cases (same_scope q.scope c)) [
          | inl e ↦
              let here : P c ≡ true = ap P (sym ((same_scope_iff q.scope c).0 e)) ∙ p in
              rw (e, here) refl
          | inr e ↦ rw e (find_scope-update P f c rows keeps)
        ])
  | inr p ↦ rw p (elim (Bool-cases (same_scope q.scope c)) [
    | inl e ↦
        let here : P c ≡ false = ap P (sym ((same_scope_iff q.scope c).0 e)) ∙ p in
        rw (e, here) refl
    | inr e ↦ rw e (find_scope-update P f c rows keeps)
  ])
]

pub find_scope-insert :
    (x : ScopeRow) (c : Scope) (rows : List ScopeRow)
    → find_scope x.scope rows ≡ none
    → find_scope c (insert x rows) ≡ (if same_scope x.scope c then some x else find_scope c rows)
unfolding find_scope
find_scope-insert x c [] h = refl
find_scope-insert x c (q ∷ rows) h = elim (Bool-cases (same_scope q.scope x.scope)) [
  | inl e ↦ absurd (cc (rw e at h))
  | inr n ↦ elim (Bool-cases (same_scope q.scope c)) [
    | inr e ↦ rw e (find_scope-insert x c rows (rw n at h))
    | inl e ↦
        let at_c : q.scope ≡ c = (same_scope_iff q.scope c).0 e in
        let other : same_scope x.scope c ≡ false = elim (Bool-cases (same_scope x.scope c)) [
          | inr o ↦ o
          | inl o ↦ absurd (
              cc (
                n,
                (same_scope_iff q.scope x.scope).1 (at_c ∙ sym ((same_scope_iff x.scope c).0 o)),
              ))
        ] in
        rw (e, other) refl
  ]
]

pub sequences-insert :
    (e : Event) (c : Scope) (events : List Event)
    → sequences c (insert e events) ≡ (
        if same_scope e.scope c then insert e.sequence (sequences c events) else sequences c events)
unfolding sequences
sequences-insert e c [] = ground arith
sequences-insert e c (x ∷ events) = elim (Bool-cases (same_scope x.scope c)) [
  | inr o ↦ rw o (sequences-insert e c events)
  | inl o ↦ elim (Bool-cases (same_scope e.scope c)) [
    | inl q ↦ rw (o, q) (ap (λ ns. x.sequence ∷ ns) (sequences-insert e c events ∙ rw q refl))
    | inr q ↦ rw (o, q) (ap (λ ns. x.sequence ∷ ns) (sequences-insert e c events ∙ rw q refl))
  ]
]

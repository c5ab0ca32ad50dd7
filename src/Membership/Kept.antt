-- ===== src/Membership/Kept.antt =====
-- What each operation on the memberships writes, and that the guards stay.
use euphoria_api.Base.{
  ◌≤◌, ◌≡◌, refl, sym, ◌∙◌, ap, subst, ◌⊎◌, inl, inr, Bool, true, false, not, ◌&&◌, List, [], ◌∷◌,
  some, Text, text_eq, ◌==◌, is_null, any, first, All-append, Result, ok, err, ◌>>=◌, ◌>>◌, guard,
  >>=-eq-ok, Option-cases, Bool-cases, arith, some_inj,
}
use euphoria_api.Sql.{select, insert}
use euphoria_api.Membership.Schema.{
  is_owner, ProfileRow, Membership, Tables, is_active, is_known, is_row,
}
use euphoria_api.Membership.Failures.{Thrown, failure_for_database_error}
use euphoria_api.Membership.Triggers.{
  before_insert, after_write, for_each, cardinality, member_count, owner_count,
}
use euphoria_api.Membership.Service.{
  Mutation, Answer, ActorMembership, caught, find_actor_membership, insert_member, commit_member,
  answer_first,
}
use euphoria_api.Membership.Guarded.{
  Guarded, row_of, is_sound, AgreesOff, with_members, after_write-checked, insert-AgreesOff,
  Guarded-after,
}

first-select :
    {A : Type 0} (q r : A → Bool) (xs : List A) (x : A)
    → first (select q xs) ≡ some x
    → r x ≡ true
    → any (λ y. q y && r y) xs ≡ true
unfolding select
first-select q r [] x h k = absurd (cc h)
first-select q r (y ∷ ys) x h k = elim (Bool-cases (q y)) [
  | inl e ↦ rw (e, ap r (some_inj (rw e at h)), k) refl
  | inr e ↦ rw e (first-select q r ys x (rw e at h) k)
]

-- The user owns the profile, which is not deleted.
pub record OwnerOf (p u : Text) (t : Tables) : Type 0 where
  pub active : is_active p t.profiles ≡ true
  pub owns : any (λ m. is_row p u m && is_owner m.role) t.members ≡ true

pub any-weaken :
    {A : Type 0} (q r : A → Bool) (xs : List A) → any (λ y. q y && r y) xs ≡ true → any q xs ≡ true
any-weaken q r [] h = absurd (cc h)
any-weaken q r (x ∷ xs) h = ground (arith, any-weaken q r xs)

pub find_actor-OwnerOf :
    (p actor : Text) (t : Tables) (a : ActorMembership)
    → find_actor_membership p actor t ≡ some a
    → is_owner a.1 ≡ true
    → OwnerOf p actor t
unfolding find_actor_membership is_active
find_actor-OwnerOf p actor t a h own =
    let rows = first (select (is_row p actor) t.members) in
    let live = first (select (λ r. r.id == p && is_null r.deleted_at) t.profiles) in
    elim (Option-cases rows) [
      | inl n ↦ absurd (cc (rw n at h))
      | inr (m, n) ↦ elim (Option-cases live) [
        | inl k ↦ absurd (cc (rw (n, k) at h))
        | inr (r, k) ↦
            let same : some (r.profile_type, m.role) ≡ some a = rw (n, k) at h in
            record {
              active =
                  any-weaken (λ (r : ProfileRow). r.id == p && is_null r.deleted_at) (λ r. true)
                    t.profiles
                    (first-select (λ r. r.id == p && is_null r.deleted_at) (λ r. true) t.profiles r
                      k refl);
              owns =
                  first-select (is_row p actor) (λ m. is_owner m.role) t.members m n
                    (ap (λ (b : ActorMembership). is_owner b.1) (some_inj same) ∙ own);
            }
      ]
    ]

-- Nothing is written, or one membership is, and the guards stay.
pub data Write (p u : Text) (t next : Tables) : Type 0 where
  nothing : next ≡ t → Write p u t next
  row :
      next ≡ with_members next.members t
      → AgreesOff p u t.members next.members
      → (Guarded t → Guarded next)
      → Write p u t next

pub caught-cases :
    {A : Type 0} (t : Tables) (body : Answer A) (out : Mutation A × Tables)
    → caught t body ≡ ok out
    → (body ≡ ok out) ⊎ (out.1 ≡ t)
unfolding caught
caught-cases t (ok answer) out h = inl h
caught-cases {A} t (err e) out h = elim (Option-cases (failure_for_database_error e)) [
  | inl n ↦ absurd (cc (rw n at h))
  | inr (code, n) ↦
      let same : ◌≡◌ {A = Answer A} (ok (err code, t)) (ok out) = rw n at h in
      inr (sym (ap (λ (r : Answer A). tables_of t r) same))
]
  where
    tables_of : Tables → Answer A → Tables
    tables_of d (ok answer) = answer.1
    tables_of d (err e) = d

through_guards :
    {A : Type 0} (step : Result Thrown (Unit {0})) (a b c : Bool) (e e' e'' : Thrown) (x : A)
    {end : A}
    → (step >>= λ _. guard a e >>= λ _. guard b e' >>= λ _. guard c e'' >>= λ _. ok x) ≡ ok end
    → (b ≡ true) × (x ≡ end)
through_guards (ok s) true true true e e' e'' x h = (refl, cc)
through_guards (ok s) true true false e e' e'' x h = absurd (cc h)
through_guards (ok s) true false c e e' e'' x h = absurd (cc h)
through_guards (ok s) false b c e e' e'' x h = absurd (cc h)
through_guards (err s) a b c e e' e'' x h = absurd (cc h)

insert_member_lem :
    (raise : Text → Thrown) (m : Membership) (t next : Tables)
    → insert_member raise m t ≡ ok next
    → (is_known m.profile_id t.profiles ≡ true) × (with_members (insert m t.members) t ≡ next)
unfolding insert_member
insert_member_lem raise m t next h =
    through_guards (before_insert raise m t) (not (any (is_row m.profile_id m.user_id) t.members))
      (is_known m.profile_id t.profiles) (any (λ u. u == m.user_id) t.users) _ _ _ _ h

pub commit_member-Write :
    {A : Type 0} (raise : Text → Thrown) (answer : A) (m : Membership) (t : Tables)
    (out : Mutation A × Tables)
    → commit_member raise answer m t ≡ ok out
    → Write m.profile_id m.user_id t out.1
unfolding commit_member
commit_member-Write {A} raise answer m t out h =
    let (next, inserted, rest) = >>=-eq-ok (insert_member raise m t) _ h in
    let (there, written) = insert_member_lem raise m t next inserted in
    let (_, checked, e) = >>=-eq-ok (after_write raise m next) _ rest in
    let ends : next ≡ out.1 = answer_inj e in
    let same = written ∙ ends in
    let (one, right) =
      after_write-checked raise m out.1 (subst (λ x. after_write raise m x ≡ ok _) ends checked) in
    row (subst (λ x. x ≡ with_members x.members t) same refl)
      (subst (λ x. AgreesOff m.profile_id m.user_id t.members x.members) same
        (insert-AgreesOff m t.members))
      (λ g. subst Guarded same (
        Guarded-after m.profile_id m.user_id t (insert m t.members) g (insert-AgreesOff m t.members)
          (subst (λ x. cardinality_in x) (sym same) one) (subst (λ x. sound_in x) (sym same) right)
          (All-append _ t.members (m ∷ []) g.known (there, tt))))
  where
    cardinality_in : Tables → Type 0
    cardinality_in x = cardinality m.user_id x ≤ 1

    sound_in : Tables → Type 0
    sound_in x =
        is_sound (member_count m.profile_id x) (owner_count m.profile_id x) (row_of m.profile_id x)
        ≡ true

    answer_inj : {a : Tables} → ◌≡◌ {A = Answer A} (ok (ok answer, a)) (ok out) → a ≡ out.1
    answer_inj q = cc

-- A statement on the rows of one membership, checked at the commit and answered by the first row.
pub answered :
    (check : Membership → Result Thrown (Unit {0})) (t next : Tables) (rows : List Membership)
    (out : Mutation Membership × Tables)
    → (for_each check rows >>= λ _. answer_first t next (first rows)) ≡ ok out
    → (out.1 ≡ t) ⊎ ((m : Membership) × (first rows ≡ some m) × (check m ≡ ok tt) × (next ≡ out.1))
answered check t next [] out h = inl (ap (λ (r : Answer Membership). tables_of r) (sym h))
  where
    tables_of : Answer Membership → Tables
    tables_of (ok answer) = answer.1
    tables_of (err e) = t
answered check t next (m ∷ rows) out h =
    let (_, checks, rest) =
      >>=-eq-ok (check m >> for_each check rows) (λ _. answer_first t next (some m)) h in
    let (_, checked, _) = >>=-eq-ok (check m) (λ _. for_each check rows) checks in
    inr (m, refl, checked, ap (λ (r : Answer Membership). tables_of r) rest)
  where
    tables_of : Answer Membership → Tables
    tables_of (ok answer) = answer.1
    tables_of (err e) = t

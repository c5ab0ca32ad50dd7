-- ===== src/Membership/Guarded.antt =====
-- What the triggers keep true of all rows, from what they check of the rows that a statement writes.
use euphoria_api.Base.{
  ℕ, ◌≤◌, ◌≡◌, refl, ◌∙◌, ap, subst, inl, inr, Bool, true, false, not, ◌&&◌, ◌||◌, List, [], ◌∷◌,
  Option, none, some, Text, text_eq, text_eqb, text_eqb_iff, ◌==◌, is_null, first, All, ok, ltb,
  nat_eq, Bool-cases, and-true, arith, nat_eqb,
}
use euphoria_api.Sql.{select, insert, update, delete}
use euphoria_api.Membership.Schema.{
  Role, is_owner, is_solo, ProfileRow, Membership, Tables, is_active, is_known, is_row,
}
use euphoria_api.Membership.Failures.{Thrown}
use euphoria_api.Membership.Triggers.{
  cardinality, member_count, owner_count, assert_user_cardinality, assert_counts, assert_profile,
  after_write,
}

-- The row of a profile.
unfoldable pub row_of : Text → Tables → Option ProfileRow
unfolding select text_eqb
row_of p t = first (select (λ r. r.id == p) t.profiles)

-- The numbers of members and owners that a profile may have.
abbrev pub is_sound : (members owners : ℕ) → Option ProfileRow → Bool
is_sound members owners none = true
is_sound members owners (some r) =
    not (is_null r.deleted_at)
    || (not (is_solo r.profile_type && ltb 1 members) && not (ltb 0 members && nat_eqb owners 0))

pub record Guarded (t : Tables) : Type 0 where
  pub single : (u : Text) → cardinality u t ≤ 1
  pub sound : (p : Text) → is_sound (member_count p t) (owner_count p t) (row_of p t) ≡ true
  pub known : All (λ m. is_known m.profile_id t.profiles ≡ true) t.members

assert_counts-is_sound :
    (raise : Text → Thrown) (members owners : ℕ) (o : Option ProfileRow) {end : Unit {0}}
    → assert_counts raise members owners o ≡ ok end
    → is_sound members owners o ≡ true
assert_counts-is_sound raise members owners none h = refl
assert_counts-is_sound raise members owners (some r) h = ground arith

pub after_write-checked :
    (raise : Text → Thrown) (m : Membership) (t : Tables) {end : Unit {0}}
    → after_write raise m t ≡ ok end
    → (cardinality m.user_id t ≤ 1)
      × (is_sound (member_count m.profile_id t) (owner_count m.profile_id t) (row_of m.profile_id t)
          ≡ true)
unfolding after_write assert_user_cardinality assert_profile row_of
after_write-checked raise m t h = elim (Bool-cases (ltb 1 (cardinality m.user_id t))) [
  | inl q ↦ absurd (cc (rw q at h))
  | inr q ↦ (
    ground arith,
    assert_counts-is_sound raise (member_count m.profile_id t) (owner_count m.profile_id t) _
        (rw q at h),
  )
]

-- The two lists have the same rows, but for the membership of one user in one profile.
abbrev pub AgreesOff : (p u : Text) → List Membership → List Membership → Type 0
AgreesOff p u xs ys =
    (q : Membership → Bool)
    → ((x : Membership) → is_row p u x ≡ true → q x ≡ false)
    → select q ys ≡ select q xs

pub is_row-keys :
    (p u : Text) (m : Membership) → is_row p u m ≡ true → (m.profile_id ≡ p) × (m.user_id ≡ u)
unfolding is_row
is_row-keys p u m h =
    let (a, b) = and-true (text_eqb m.profile_id p) (text_eqb m.user_id u) h in
    ((text_eqb_iff m.profile_id p).0 a, (text_eqb_iff m.user_id u).0 b)

pub is_row_self : (m : Membership) → is_row m.profile_id m.user_id m ≡ true
unfolding is_row
is_row_self m =
    rw ((text_eqb_iff m.profile_id m.profile_id).1 refl, (text_eqb_iff m.user_id m.user_id).1 refl)
      refl

pub insert-AgreesOff :
    (m : Membership) (xs : List Membership) → AgreesOff m.profile_id m.user_id xs (insert m xs)
unfolding select
insert-AgreesOff m xs q off = missed xs
  where
    missed : (xs : List Membership) → select q (insert m xs) ≡ select q xs
    missed [] = rw (off m (is_row_self m)) refl
    missed (x ∷ xs) = elim (Bool-cases (q x)) [
      | inl e ↦ rw e (ap (λ l. x ∷ l) (missed xs))
      | inr e ↦ rw e (missed xs)
    ]

pub delete-AgreesOff :
    (p u : Text) (xs : List Membership) → AgreesOff p u xs (delete (is_row p u) xs)
unfolding delete select
delete-AgreesOff p u [] q off = refl
delete-AgreesOff p u (x ∷ xs) q off = elim (Bool-cases (is_row p u x)) [
  | inl e ↦ rw (e, off x e) (delete-AgreesOff p u xs q off)
  | inr e ↦ rw e (elim (Bool-cases (q x)) [
    | inl k ↦ rw k (ap (λ l. x ∷ l) (delete-AgreesOff p u xs q off))
    | inr k ↦ rw k (delete-AgreesOff p u xs q off)
  ])
]

pub update-AgreesOff :
    (p u : Text) (role : Role) (xs : List Membership)
    → AgreesOff p u xs (update (is_row p u) (λ m. record m { role = role }) xs)
unfolding update select is_row
update-AgreesOff p u role [] q off = refl
update-AgreesOff p u role (x ∷ xs) q off = elim (Bool-cases (is_row p u x)) [
  | inl e ↦
      let same : q (record x { role = role }) ≡ false = off (record x { role = role }) e in
      rw (e, off x e, same) (update-AgreesOff p u role xs q off)
  | inr e ↦ rw e (elim (Bool-cases (q x)) [
    | inl k ↦ rw k (ap (λ l. x ∷ l) (update-AgreesOff p u role xs q off))
    | inr k ↦ rw k (update-AgreesOff p u role xs q off)
  ])
]

abbrev pub with_members : List Membership → Tables → Tables
with_members ys t = record t { members = ys }

-- A statement that writes one membership keeps the guards, where its user and its profile pass the
-- checks afterwards.
pub Guarded-after :
    (p u : Text) (t : Tables) (ys : List Membership)
    → Guarded t
    → AgreesOff p u t.members ys
    → cardinality u (with_members ys t) ≤ 1
    → is_sound
        (member_count p (with_members ys t))
        (owner_count p (with_members ys t))
        (row_of p (with_members ys t))
      ≡ true
    → All (λ m. is_known m.profile_id t.profiles ≡ true) ys
    → Guarded (with_members ys t)
unfolding cardinality member_count owner_count row_of
Guarded-after p u t ys g agrees one right known = record {
  single = λ v. elim (Bool-cases (text_eqb u v)) [
    | inl q ↦ subst (λ w. cardinality w (with_members ys t) ≤ 1) ((text_eqb_iff u v).0 q) one
    | inr q ↦
        rw
          (agrees (λ m. m.user_id == v && is_active m.profile_id t.profiles)
            (λ x h. rw (ap (λ w. text_eqb w v) (is_row-keys p u x h).1 ∙ q) refl))
          (g.single v)
  ];
  sound = λ r. elim (Bool-cases (text_eqb p r)) [
    | inl q ↦
        subst
          (λ w.
            is_sound (member_count w (with_members ys t)) (owner_count w (with_members ys t))
              (row_of w (with_members ys t))
            ≡ true)
          ((text_eqb_iff p r).0 q) right
    | inr q ↦
        let away : (x : Membership) → is_row p u x ≡ true → text_eqb x.profile_id r ≡ false =
          λ x h. ap (λ w. text_eqb w r) (is_row-keys p u x h).0 ∙ q in
        rw
          (
            agrees (λ m. m.profile_id == r) away,
            agrees (λ m. m.profile_id == r && is_owner m.role) (λ x h. rw (away x h) refl),
          )
          (g.sound r)
  ];
  known = known;
}

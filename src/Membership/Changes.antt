-- ===== src/Membership/Changes.antt =====
-- Each operation on the memberships of a profile: only an owner's call writes, and what it writes
-- is one membership of that profile.
use euphoria_api.Base.{
  ◌≤◌, ◌≡◌, refl, sym, ap, subst, ◌⊎◌, inl, inr, Bool, true, not, List, [], ◌∷◌, some, Text,
  text_eq, ◌==◌, any, first, All, ok, err, ◌>>=◌, >>=-eq-ok, Option-cases, Bool-cases, some_inj,
}
use euphoria_api.Sql.{select, update, updated, delete, All-select, All-update}
use euphoria_api.Membership.Schema.{Role, is_owner, is_solo, Membership, Tables, is_known, is_row}
use euphoria_api.Membership.Failures.{Thrown}
use euphoria_api.Membership.Triggers.{
  before_update, after_write, for_each, cardinality, member_count, owner_count,
}
use euphoria_api.Membership.Service.{
  Mutation, Answer, find_actor_membership, commit_member, add_by, add_member, answer_first,
  delete_member, update_role, if_owner, remove_member, set_member_role,
}
use euphoria_api.Membership.Guarded.{
  row_of, is_sound, AgreesOff, with_members, after_write-checked, delete-AgreesOff,
  update-AgreesOff, Guarded-after, is_row-keys,
}
use euphoria_api.Membership.Kept.{
  OwnerOf, find_actor-OwnerOf, Write, nothing, row, caught-cases, commit_member-Write, answered,
}

first_row :
    (q : Membership → Bool) (xs : List Membership) (m : Membership)
    → first (select q xs) ≡ some m
    → q m ≡ true
unfolding select
first_row q [] m h = absurd (cc h)
first_row q (x ∷ xs) m h = elim (Bool-cases (q x)) [
  | inl e ↦ subst (λ y. q y ≡ true) (some_inj (rw e at h)) e
  | inr e ↦ first_row q xs m (rw e at h)
]

-- One membership of the profile and user is written, and its row passed the checks.
checked-Write :
    (raise : Text → Thrown) (p u : Text) (t : Tables) (ys : List Membership) (m : Membership)
    → is_row p u m ≡ true
    → after_write raise m (with_members ys t) ≡ ok tt
    → AgreesOff p u t.members ys
    → (All (λ m. is_known m.profile_id t.profiles ≡ true) t.members
        → All (λ m. is_known m.profile_id t.profiles ≡ true) ys)
    → Write p u t (with_members ys t)
checked-Write raise p u t ys m is checked agrees known =
    let (at_p, at_u) = is_row-keys p u m is in
    let (one, right) = after_write-checked raise m (with_members ys t) checked in
    row refl agrees (λ g.
      Guarded-after p u t ys g agrees (subst (λ w. cardinality w (with_members ys t) ≤ 1) at_u one)
        (subst
          (λ w.
            is_sound (member_count w (with_members ys t)) (owner_count w (with_members ys t))
              (row_of w (with_members ys t))
            ≡ true)
          at_p right)
        (known g.known))

delete_member-Write :
    (raise : Text → Thrown) (p u : Text) (t : Tables) (out : Mutation Membership × Tables)
    → delete_member raise p u t ≡ ok out
    → Write p u t out.1
unfolding delete_member delete
delete_member-Write raise p u t out h =
    let rest = delete (is_row p u) t.members in
    elim (answered (λ m. after_write raise m (with_members rest t)) t (with_members rest t)
      (select (is_row p u) t.members) out h) [
        | inl same ↦ nothing same
        | inr (m, is_first, checked, ends) ↦ subst (Write p u t) ends (
            checked-Write raise p u t rest m (first_row (is_row p u) t.members m is_first) checked
              (delete-AgreesOff p u t.members) (All-select _ (λ m. not (is_row p u m)) t.members))
      ]

first-updated :
    (p u : Text) (role : Role) (xs : List Membership) (m : Membership)
    → first (updated (is_row p u) (λ m. record m { role = role }) xs) ≡ some m
    → is_row p u m ≡ true
unfolding updated select is_row
first-updated p u role [] m h = absurd (cc h)
first-updated p u role (x ∷ xs) m h = elim (Bool-cases (is_row p u x)) [
  | inl e ↦ subst (λ y. is_row p u y ≡ true) (some_inj (rw e at h)) e
  | inr e ↦ first-updated p u role xs m (rw e at h)
]

update_role-Write :
    (raise : Text → Thrown) (p : Text) (role : Role) (u : Text) (t : Tables)
    (out : Mutation Membership × Tables)
    → update_role raise p role u t ≡ ok out
    → Write p u t out.1
unfolding update_role
update_role-Write raise p role u t out h =
    let changed = λ (m : Membership). record m { role = role } in
    let ys = update (is_row p u) changed t.members in
    let rows = updated (is_row p u) changed t.members in
    let (_, _, rest) =
      >>=-eq-ok (for_each (λ m. before_update raise m t) rows)
        (λ _. for_each (λ m. after_write raise m (with_members ys t)) rows >>= λ _.
          answer_first t (with_members ys t) (first rows))
        h in
    elim (answered (λ m. after_write raise m (with_members ys t)) t (with_members ys t) rows out
      rest) [
        | inl same ↦ nothing same
        | inr (m, is_first, checked, ends) ↦ subst (Write p u t) ends (
            checked-Write raise p u t ys m (first-updated p u role t.members m is_first) checked
              (update-AgreesOff p u role t.members)
              (All-update _ (is_row p u) changed t.members (λ x k e. k)))
      ]

-- Nothing is written, or the actor owns the profile and one membership of it is written.
abbrev pub ByOwner : (actor p u : Text) → Tables → Tables → Type 0
ByOwner actor p u t next = (next ≡ t) ⊎ (OwnerOf p actor t × Write p u t next)

after_of : {A : Type 0} → Tables → Answer A → Tables
after_of t (ok out) = out.1
after_of t (err e) = t

if_owner-ByOwner :
    (actor p u : Text) (t : Tables) (change : Answer Membership)
    (out : Mutation Membership × Tables)
    → ((end : Mutation Membership × Tables) → change ≡ ok end → Write p u t end.1)
    → if_owner t change (find_actor_membership p actor t) ≡ ok out
    → ByOwner actor p u t out.1
unfolding after_of
if_owner-ByOwner actor p u t change out writes h =
    elim (Option-cases (find_actor_membership p actor t)) [
      | inl n ↦ inl (ap (after_of t) (sym (rw n at h)))
      | inr (a, n) ↦ elim (Bool-cases (is_owner a.1)) [
        | inl own ↦ inr (find_actor-OwnerOf p actor t a n own, writes out (rw (n, own) at h))
        | inr other ↦ inl (ap (after_of t) (sym (rw (n, other) at h)))
      ]
    ]

-- Removing a member writes only where an owner of the profile, which is not deleted, asks for it,
-- and then no membership but the one that is named, and no profile; where the guards held before,
-- they hold afterwards.
pub remove_member-ByOwner :
    (raise : Text → Thrown) (actor p u : Text) (t : Tables) (out : Mutation Membership × Tables)
    → remove_member raise actor p u t ≡ ok out
    → ByOwner actor p u t out.1
unfolding remove_member
remove_member-ByOwner raise actor p u t out h =
    elim (caught-cases t (if_owner t (delete_member raise p u t) (find_actor_membership p actor t))
      out h) [
        | inl ran ↦
            if_owner-ByOwner actor p u t (delete_member raise p u t) out
              (delete_member-Write raise p u t) ran
        | inr same ↦ inl same
      ]

-- Likewise setting the role of a member.
pub set_member_role-ByOwner :
    (raise : Text → Thrown) (actor p : Text) (role : Role) (u : Text) (t : Tables)
    (out : Mutation Membership × Tables)
    → set_member_role raise actor p role u t ≡ ok out
    → ByOwner actor p u t out.1
unfolding set_member_role
set_member_role-ByOwner raise actor p role u t out h =
    elim (caught-cases t
      (if_owner t (update_role raise p role u t) (find_actor_membership p actor t)) out h) [
        | inl ran ↦
            if_owner-ByOwner actor p u t (update_role raise p role u t) out
              (update_role-Write raise p role u t) ran
        | inr same ↦ inl same
      ]

add_by-ByOwner :
    (actor p u : Text) (t : Tables) (added : Answer Membership) (out : Mutation Membership × Tables)
    → (added ≡ ok out → Write p u t out.1)
    → add_by p u t added (find_actor_membership p actor t) ≡ ok out
    → ByOwner actor p u t out.1
unfolding after_of
add_by-ByOwner actor p u t added out writes h =
    elim (Option-cases (find_actor_membership p actor t)) [
      | inl n ↦ inl (ap (after_of t) (sym (rw n at h)))
      | inr (a, n) ↦ elim (Bool-cases (is_owner a.1)) [
        | inr other ↦ inl (ap (after_of t) (sym (rw (n, other) at h)))
        | inl own ↦ elim (Bool-cases (is_solo a.0)) [
          | inl s ↦ inl (ap (after_of t) (sym (rw (n, own, s) at h)))
          | inr s ↦ elim (Bool-cases (any (λ v. v == u) t.users)) [
            | inr v ↦ inl (ap (after_of t) (sym (rw (n, own, s, v) at h)))
            | inl v ↦ elim (Bool-cases (any (is_row p u) t.members)) [
              | inl x ↦ inl (ap (after_of t) (sym (rw (n, own, s, v, x) at h)))
              | inr x ↦
                  inr (find_actor-OwnerOf p actor t a n own, writes (rw (n, own, s, v, x) at h))
            ]
          ]
        ]
      ]
    ]

-- Likewise adding one.
pub add_member-ByOwner :
    (raise : Text → Thrown) (actor p : Text) (role : Role) (u : Text) (t : Tables)
    (out : Mutation Membership × Tables)
    → add_member raise actor p role u t ≡ ok out
    → ByOwner actor p u t out.1
unfolding add_member
add_member-ByOwner raise actor p role u t out h =
    let m : Membership = record { profile_id = p; user_id = u; role = role } in
    elim (caught-cases t
      (add_by p u t (commit_member raise m m t) (find_actor_membership p actor t)) out h) [
        | inl ran ↦
            add_by-ByOwner actor p u t (commit_member raise m m t) out
              (commit_member-Write raise m m t out) ran
        | inr same ↦ inl same
      ]

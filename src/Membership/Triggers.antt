-- ===== src/Membership/Triggers.antt =====
-- profile_membership_before_write and profile_membership_after_write. `raise` is the error that
-- reaches the service when the database names the constraint that failed.
use euphoria_api.Base.{
  ℕ, Bool, false, not, ◌&&◌, List, [], ◌∷◌, Option, none, some, Text, text_eq, text_eqb, ◌==◌,
  nat_eq, is_null, is_set, map, length, first, Result, ok, ◌>>◌, guard, ltb, if◌then◌else◌,
}
use euphoria_api.Sql.{select}
use euphoria_api.Membership.Schema.{
  is_owner, is_solo, ProfileRow, Membership, Tables, is_active, distinct_ids,
}
use euphoria_api.Membership.Failures.{
  Thrown, one_active_profile_check, solo_membership_check, active_owner_check, active_profile_check,
}

-- count(DISTINCT membership.profile_id) of the user's memberships in active profiles
unfoldable pub cardinality : Text → Tables → ℕ
unfolding distinct_ids is_active select text_eqb
cardinality user t = length (
    distinct_ids (
      map (λ m. m.profile_id)
        (select (λ m. m.user_id == user && is_active m.profile_id t.profiles) t.members)))

unfoldable pub member_count : Text → Tables → ℕ
unfolding select text_eqb
member_count profile_id t = length (select (λ m. m.profile_id == profile_id) t.members)

unfoldable pub owner_count : Text → Tables → ℕ
unfolding select text_eqb
owner_count profile_id t =
    length (select (λ m. m.profile_id == profile_id && is_owner m.role) t.members)

unfoldable pub assert_user_cardinality : (Text → Thrown) → Text → Tables → Result Thrown (Unit {0})
unfolding cardinality
assert_user_cardinality raise user t =
    guard (not (ltb 1 (cardinality user t))) (raise one_active_profile_check)

abbrev pub assert_counts :
    (Text → Thrown) → (members owners : ℕ) → Option ProfileRow → Result Thrown (Unit {0})
assert_counts raise members owners none = ok tt
assert_counts raise members owners (some r) =
    if not (is_null r.deleted_at)
    then ok tt
    else guard (not (is_solo r.profile_type && ltb 1 members)) (raise solo_membership_check)
      >> guard (not (ltb 0 members && owners == 0)) (raise active_owner_check)

unfoldable pub assert_profile : (Text → Thrown) → Text → Tables → Result Thrown (Unit {0})
unfolding member_count owner_count select text_eqb
assert_profile raise profile_id t =
    assert_counts raise (member_count profile_id t) (owner_count profile_id t)
      (first (select (λ r. r.id == profile_id) t.profiles))

abbrev pub is_deleted : Option ProfileRow → Bool
is_deleted none = false
is_deleted (some r) = is_set r.deleted_at

unfoldable pub before_insert : (Text → Thrown) → Membership → Tables → Result Thrown (Unit {0})
unfolding assert_user_cardinality assert_profile select text_eqb
before_insert raise m t =
    guard (not (is_deleted (first (select (λ r. r.id == m.profile_id) t.profiles))))
      (raise active_profile_check)
    >> assert_user_cardinality raise m.user_id t
    >> assert_profile raise m.profile_id t

unfoldable pub before_update : (Text → Thrown) → Membership → Tables → Result Thrown (Unit {0})
unfolding assert_user_cardinality assert_profile
before_update raise m t =
    assert_user_cardinality raise m.user_id t >> assert_profile raise m.profile_id t

-- The checks at the commit, for a row that was inserted or deleted, or whose role was changed.
unfoldable pub after_write : (Text → Thrown) → Membership → Tables → Result Thrown (Unit {0})
unfolding assert_user_cardinality assert_profile
after_write raise m t =
    assert_user_cardinality raise m.user_id t >> assert_profile raise m.profile_id t

-- FOR EACH ROW
abbrev pub for_each :
    (Membership → Result Thrown (Unit {0})) → List Membership → Result Thrown (Unit {0})
for_each check [] = ok tt
for_each check (m ∷ ms) = check m >> for_each check ms

-- ===== src/Membership/Service.antt =====
-- createProfileForUser, addProfileMember, removeProfileMember and setProfileMemberRole: each a
-- transaction, whose errors are turned into failures where their constraint has one.
use euphoria_api.Base.{
  not, ◌&&◌, Option, none, some, Text, text_eq, text_eqb, ◌==◌, any, first, Result, ok, err, ◌>>=◌,
  guard, if◌then◌else◌, is_null,
}
use euphoria_api.Sql.{select, insert, update, updated, delete}
use euphoria_api.Membership.Schema.{
  Role, owner, ProfileType, is_owner, is_solo, ProfileRow, Membership, Tables, is_active, is_known,
  is_row,
}
use euphoria_api.Membership.Failures.{
  FailureCode, Thrown, failure_for_database_error, active_profile_conflict, membership_exists,
  membership_forbidden, membership_not_found, profile_not_found, solo_profile_membership_forbidden,
  user_not_found, members_pkey, profiles_pkey, member_profile_fkey, member_user_fkey,
}
use euphoria_api.Membership.Triggers.{before_insert, before_update, after_write, for_each}

-- ProfileMutationResult
abbrev pub Mutation : Type 0 → Type 0
Mutation A = Result FailureCode A

-- What a transaction answers, with the tables after it; an error rolls it back.
abbrev pub Answer : Type 0 → Type 0
Answer A = Result Thrown (Mutation A × Tables)

abbrev pub fail : {A : Type 0} → FailureCode → Tables → Answer A
fail code t = ok (err code, t)

abbrev pub rethrow_unless : {A : Type 0} → Thrown → Tables → Option FailureCode → Answer A
rethrow_unless e t none = err e
rethrow_unless e t (some code) = ok (err code, t)

-- The `catch` of each operation, from the tables before the transaction.
unfoldable pub caught : {A : Type 0} → Tables → Answer A → Answer A
unfolding failure_for_database_error
caught t (ok answer) = ok answer
caught t (err e) = rethrow_unless e t (failure_for_database_error e)

abbrev pub ActorMembership : Type 0
ActorMembership = ProfileType × Role

abbrev pub joined_row : Option Membership → Option ProfileRow → Option ActorMembership
joined_row (some m) (some r) = some (r.profile_type, m.role)
joined_row (some m) none = none
joined_row none r = none

unfoldable pub find_actor_membership : (profile_id actor : Text) → Tables → Option ActorMembership
unfolding select is_row text_eqb
find_actor_membership profile_id actor t =
    joined_row (first (select (is_row profile_id actor) t.members))
      (first (select (λ r. r.id == profile_id && is_null r.deleted_at) t.profiles))

abbrev pub answer_first : Tables → Tables → Option Membership → Answer Membership
answer_first t next none = fail membership_not_found t
answer_first t next (some m) = ok (ok m, next)

abbrev pub if_owner : Tables → Answer Membership → Option ActorMembership → Answer Membership
if_owner t change none = fail profile_not_found t
if_owner t change (some actor) =
    if not (is_owner actor.1) then fail membership_forbidden t else change

-- The guards of addProfileMember, before the row is added.
abbrev pub add_by :
    (profile_id user_id : Text)
    → Tables
    → Answer Membership
    → Option ActorMembership
    → Answer Membership
add_by profile_id user_id t added none = fail profile_not_found t
add_by profile_id user_id t added (some actor) =
    if not (is_owner actor.1)
    then fail membership_forbidden t
    else if is_solo actor.0
    then fail solo_profile_membership_forbidden t
    else if not (any (λ u. u == user_id) t.users)
    then fail user_not_found t
    else if any (is_row profile_id user_id) t.members
    then fail membership_exists t
    else added

module _ (raise : Text → Thrown) where
  -- insert into profile_user: the trigger, the primary key and the two foreign keys
  unfoldable pub insert_member : Membership → Tables → Result Thrown Tables
  unfolding before_insert is_row is_known text_eqb
  insert_member m t = do
    _ ← before_insert raise m t
    _ ← guard (not (any (is_row m.profile_id m.user_id) t.members)) (raise members_pkey)
    _ ← guard (is_known m.profile_id t.profiles) (raise member_profile_fkey)
    _ ← guard (any (λ u. u == m.user_id) t.users) (raise member_user_fkey)
    ok (record t { members = insert m t.members })

  -- insert into profile: the primary key
  unfoldable pub insert_profile : ProfileRow → Tables → Result Thrown Tables
  unfolding is_known text_eqb
  insert_profile r t = do
    _ ← guard (not (is_known r.id t.profiles)) (raise profiles_pkey)
    ok (record t { profiles = insert r t.profiles })

  -- A row is inserted, and checked again at the commit.
  unfoldable pub commit_member : {A : Type 0} → A → Membership → Tables → Answer A
  unfolding insert_member after_write
  commit_member answer m t = do
    next ← insert_member m t
    _ ← after_write raise m next
    ok (ok answer, next)

  unfoldable pub create_profile : ProfileRow → (user_id : Text) → Tables → Answer ProfileRow
  unfolding caught commit_member insert_profile is_active text_eqb
  create_profile input user_id t =
      let created = do
        with_profile ← insert_profile input t
        commit_member input (record { profile_id = input.id; user_id = user_id; role = owner })
            with_profile
      in caught t (
        if any (λ m. m.user_id == user_id && is_active m.profile_id t.profiles) t.members
        then fail active_profile_conflict t
        else created)

  unfoldable pub add_member :
      (actor profile_id : Text) → Role → (user_id : Text) → Tables → Answer Membership
  unfolding caught find_actor_membership commit_member
  add_member actor profile_id role user_id t =
      let m : Membership = record { profile_id = profile_id; user_id = user_id; role = role } in
      caught t (
        add_by profile_id user_id t (commit_member m m t)
          (find_actor_membership profile_id actor t))

  -- delete from profile_user … returning, checked at the commit
  unfoldable pub delete_member : (profile_id user_id : Text) → Tables → Answer Membership
  unfolding select delete is_row after_write
  delete_member profile_id user_id t = do
    let removed = select (is_row profile_id user_id) t.members
    let next : Tables = record t { members = delete (is_row profile_id user_id) t.members }
    _ ← for_each (λ m. after_write raise m next) removed
    answer_first t next (first removed)

  -- update profile_user set role … returning, checked before each row and at the commit
  unfoldable pub update_role :
      (profile_id : Text) → Role → (user_id : Text) → Tables → Answer Membership
  unfolding update updated select is_row before_update after_write
  update_role profile_id role user_id t = do
    let rows = updated (is_row profile_id user_id) (λ m. record m { role = role }) t.members
    let next : Tables = record t {
      members = update (is_row profile_id user_id) (λ m. record m { role = role }) t.members;
    }
    _ ← for_each (λ m. before_update raise m t) rows
    _ ← for_each (λ m. after_write raise m next) rows
    answer_first t next (first rows)

  unfoldable pub remove_member : (actor profile_id user_id : Text) → Tables → Answer Membership
  unfolding caught find_actor_membership delete_member
  remove_member actor profile_id user_id t =
      caught t
        (if_owner t (delete_member profile_id user_id t) (find_actor_membership profile_id actor t))

  unfoldable pub set_member_role :
      (actor profile_id : Text) → Role → (user_id : Text) → Tables → Answer Membership
  unfolding caught find_actor_membership update_role
  set_member_role actor profile_id role user_id t = caught t (
      if_owner t (update_role profile_id role user_id t) (find_actor_membership profile_id actor t))

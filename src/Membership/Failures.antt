-- ===== src/Membership/Failures.antt =====
-- The failures that the service answers, and which database error stands for which.
use euphoria_api.Base.{
  ℕ, zero, suc, Option, none, some, Text, text, text_eqb, is_empty, if◌then◌else◌, text_eq, ◌==◌,
}

pub data FailureCode : Type 0 where
  active_profile_conflict : FailureCode
  final_owner_required : FailureCode
  membership_exists : FailureCode
  membership_forbidden : FailureCode
  membership_not_found : FailureCode
  profile_not_found : FailureCode
  solo_profile_membership_forbidden : FailureCode
  user_not_found : FailureCode

-- What a statement throws: an object with the constraint's name under one of two keys, and a cause;
-- or something that is no object.
pub data Thrown : Type 0 where
  primitive : Thrown
  object : (constraint constraint_name : Option Text) (cause : Thrown) → Thrown

abbrev coalesce : Option Text → Option Text → Option Text
coalesce none b = b
coalesce (some a) b = some a

-- `if (constraint) return constraint`
abbrev truthy_or : Option Text → Option Text → Option Text
truthy_or none rest = rest
truthy_or (some constraint) rest = if is_empty constraint then rest else some constraint

unfoldable pub constraint_within : ℕ → Thrown → Option Text
constraint_within zero e = none
constraint_within (suc depth) primitive = none
constraint_within (suc depth) (object constraint constraint_name cause) =
    truthy_or (coalesce constraint constraint_name) (constraint_within depth cause)

unfoldable pub get_constraint_name : Thrown → Option Text
unfolding constraint_within
get_constraint_name e = constraint_within 5 e

abbrev pub one_active_profile_check : Text
one_active_profile_check = text "profile_user_one_active_profile_check"

abbrev pub solo_membership_check : Text
solo_membership_check = text "profile_user_solo_membership_check"

abbrev pub active_owner_check : Text
active_owner_check = text "profile_user_active_owner_check"

abbrev pub active_profile_check : Text
active_profile_check = text "profile_user_active_profile_check"

abbrev pub members_pkey : Text
members_pkey = text "profile_user_pkey"

abbrev pub profiles_pkey : Text
profiles_pkey = text "profile_pkey"

abbrev pub member_profile_fkey : Text
member_profile_fkey = text "profile_user_profile_id_profile_id_fkey"

abbrev pub member_user_fkey : Text
member_user_fkey = text "profile_user_user_id_user_id_fkey"

abbrev pub failure_for : Option Text → Option FailureCode
failure_for none = none
failure_for (some constraint) =
    if constraint == one_active_profile_check
    then some active_profile_conflict
    else if constraint == solo_membership_check
    then some solo_profile_membership_forbidden
    else if constraint == active_owner_check
    then some final_owner_required
    else if constraint == members_pkey
    then some membership_exists
    else none

unfoldable pub failure_for_database_error : Thrown → Option FailureCode
unfolding get_constraint_name text_eqb
failure_for_database_error e = failure_for (get_constraint_name e)

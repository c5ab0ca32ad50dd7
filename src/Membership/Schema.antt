-- ===== src/Membership/Schema.antt =====
-- The rows of profile, profile_user and user, with the columns that the memberships depend on. The
-- ids are the stored values.
use euphoria_api.Base.{
  ℕ, Bool, true, false, ◌&&◌, List, [], ◌∷◌, Option, Text, text_eq, text_eqb, ◌==◌, is_null, any,
}
use euphoria_api.Sql.{delete}

pub data Role : Type 0 where
  owner member : Role

pub data ProfileType : Type 0 where
  solo couple group : ProfileType

abbrev pub is_owner : Role → Bool
is_owner owner = true
is_owner member = false

abbrev pub is_solo : ProfileType → Bool
is_solo solo = true
is_solo couple = false
is_solo group = false

pub record ProfileRow : Type 0 where
  pub id : Text
  pub profile_type : ProfileType
  pub deleted_at : Option ℕ

pub record Membership : Type 0 where
  pub profile_id : Text
  pub user_id : Text
  pub role : Role

pub record Tables : Type 0 where
  pub profiles : List ProfileRow
  pub members : List Membership
  pub users : List Text

-- Joined with a profile that is not deleted.
unfoldable pub is_active : Text → List ProfileRow → Bool
unfolding text_eqb
is_active id profiles = any (λ r. r.id == id && is_null r.deleted_at) profiles

unfoldable pub is_known : Text → List ProfileRow → Bool
unfolding text_eqb
is_known id profiles = any (λ r. r.id == id) profiles

-- eq(profileUser.profileId, profileId), eq(profileUser.userId, userId)
unfoldable pub is_row : (profile_id user_id : Text) → Membership → Bool
unfolding text_eqb
is_row profile_id user_id m = m.profile_id == profile_id && m.user_id == user_id

-- select distinct
unfoldable pub distinct_ids : List Text → List Text
unfolding delete text_eqb
distinct_ids [] = []
distinct_ids (x ∷ xs) = x ∷ delete (λ y. y == x) (distinct_ids xs)

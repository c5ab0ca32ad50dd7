-- ===== src/Events/Authorize.antt =====
-- authorizeDurableEventScopeInTransaction and getAuthorizedDurableEventScopeMetadata, over the
-- profile and conversation rows that they join. The stored ids are UUIDs in lower case.
use euphoria_api.Base.{
  ℕ, ◌+◌, Bool, ◌&&◌, ◌||◌, List, map, any, Option, none, some, is_null, Text, text_eq, text_eqb,
  ◌==◌, Result, ok, err, ◌>>=◌, leb, if◌then◌else◌,
}
use euphoria_api.Events.Schema.{
  Scope, ScopeKind, chat_conversation, chat_profile, notification_user, ScopeRow, EventStore,
  EventFault, assert_scope,
}
use euphoria_api.Events.Append.{ensure_scope}

pub record Profile : Type 0 where
  pub id : Text
  pub deleted_at : Option ℕ

pub record ProfileUser : Type 0 where
  pub profile_id : Text
  pub user_id : Text

pub record Conversation : Type 0 where
  pub id : Text
  pub profile_one_id : Text
  pub profile_two_id : Text

pub record Directory : Type 0 where
  pub profiles : List Profile
  pub members : List ProfileUser
  pub conversations : List Conversation

pub data Authorization : Type 0 where
  granted : Authorization
  scope_forbidden : Authorization
  scope_invalid : Authorization

-- A UUID column compares values, whatever the case of the digits.
unfoldable pub lower_case : Text → Text
lower_case = map (λ c. if leb b'A' c && leb c b'Z' then c + 32 else c)

-- The join with the profile that is not deleted.
unfoldable pub is_live : Text → List Profile → Bool
unfolding text_eqb
is_live id profiles = any (λ p. p.id == id && is_null p.deleted_at) profiles

unfoldable pub is_profile_member : (user profile_id : Text) → Directory → Bool
unfolding text_eqb is_live
is_profile_member user profile_id d =
    any (λ m. m.profile_id == profile_id && (m.user_id == user && is_live m.profile_id d.profiles))
      d.members

unfoldable pub is_conversation_member : (user conversation_id : Text) → Directory → Bool
unfolding text_eqb is_live
is_conversation_member user conversation_id d =
    any
      (λ c.
        c.id == conversation_id
        && any
            (λ m.
              (m.profile_id == c.profile_one_id || m.profile_id == c.profile_two_id)
              && (m.user_id == user && is_live m.profile_id d.profiles))
            d.members)
      d.conversations

abbrev may_access : Text → ScopeKind → Text → Directory → Bool
may_access user notification_user id d = id == user
may_access user chat_profile id d = is_profile_member user (lower_case id) d
may_access user chat_conversation id d = is_conversation_member user (lower_case id) d

abbrev authorized : Result EventFault (Unit {0}) → Bool → Authorization
authorized (err e) allowed = scope_invalid
authorized (ok u) allowed = if allowed then granted else scope_forbidden

unfoldable pub authorize : Text → Scope → Directory → Authorization
unfolding assert_scope text_eqb lower_case is_profile_member is_conversation_member
authorize user scope d = authorized (assert_scope scope) (may_access user scope.kind scope.id d)

abbrev metadata_when :
    (started t : ℕ)
    → Scope
    → EventStore
    → Authorization
    → Result EventFault (Authorization × Option ScopeRow × EventStore)
metadata_when started t scope s granted = ensure_scope started t scope s.scopes >>= λ (row, rows).
    ok (granted, some row, record s { scopes = rows })
metadata_when started t scope s refusal = ok (refusal, none, s)

unfoldable pub authorized_metadata :
    (started t : ℕ)
    → Text
    → Scope
    → Directory
    → EventStore
    → Result EventFault (Authorization × Option ScopeRow × EventStore)
unfolding authorize ensure_scope
authorized_metadata started t user scope d s =
    metadata_when started t scope s (authorize user scope d)

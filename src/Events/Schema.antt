-- ===== src/Events/Schema.antt =====
-- The types of src/services/durable-event-service.ts and the two event tables of
-- src/db/durable-schema.ts.
use euphoria_api.Base.{
  ℕ, Bool, true, false, not, ◌&&◌, ◌||◌, List, [], ◌∷◌, map, Option, none, some, Text, Result, ok,
  ◌>>=◌, ◌>>◌, guard, ◌==◌, text_eq, text_eqb, is_empty, trim, ltb, length, if◌then◌else◌,
}
use euphoria_api.Sql.{select}
use euphoria_api.Validate.{Number, assert_positive_integer, is_uuid}

pub data ScopeKind : Type 0 where
  chat_conversation chat_profile notification_user : ScopeKind

pub record Scope : Type 0 where
  pub kind : ScopeKind
  pub id : Text

abbrev pub kind_eqb : ScopeKind → ScopeKind → Bool
kind_eqb chat_conversation chat_conversation = true
kind_eqb chat_profile chat_profile = true
kind_eqb notification_user notification_user = true
kind_eqb _ _ = false

abbrev pub is_notification_user : ScopeKind → Bool
is_notification_user notification_user = true
is_notification_user _ = false

-- A row of durable_event_scope.
pub record ScopeRow : Type 0 where
  pub scope : Scope
  pub high_water : ℕ
  pub retention_floor : ℕ
  pub created_at : ℕ
  pub updated_at : ℕ

-- A row of durable_event.
pub record Event : Type 0 where
  pub id : ℕ
  pub scope : Scope
  pub sequence : ℕ
  pub event_type : Text
  pub event_version : ℕ
  pub payload : Text
  pub causal_id : Option Text
  pub occurred_at : ℕ
  pub committed_at : ℕ
  pub retention_expires_at : ℕ

pub record EventStore : Type 0 where
  pub scopes : List ScopeRow
  pub events : List Event

-- What is thrown.
pub data EventFault : Type 0 where
  invalid_argument no_metadata out_of_range constraint_violation : EventFault

pub record EventInput : Type 0 where
  pub scope : Scope
  pub event_type : Text
  pub event_version : Number
  pub payload : Text
  pub retention_seconds : Number

-- The primary key of durable_event_scope.
unfoldable pub same_scope : Scope → Scope → Bool
unfolding text_eqb
same_scope s t = kind_eqb s.kind t.kind && s.id == t.id

unfoldable pub find_scope : Scope → List ScopeRow → Option ScopeRow
unfolding same_scope
find_scope s [] = none
find_scope s (r ∷ rows) = if same_scope r.scope s then some r else find_scope s rows

-- The sequences of the events that are retained of a scope.
unfoldable pub sequences : Scope → List Event → List ℕ
unfolding select same_scope
sequences s events = map (λ e. e.sequence) (select (λ e. same_scope e.scope s) events)

unfoldable pub assert_scope : Scope → Result EventFault (Unit {0})
unfolding trim is_uuid
assert_scope s = do
  guard (not (is_empty (trim s.id))) invalid_argument
  guard (is_notification_user s.kind || is_uuid b'5' s.id) invalid_argument

-- The version and the retention, once all checks have passed.
unfoldable pub assert_event_input : EventInput → Result EventFault (ℕ × ℕ)
unfolding assert_scope assert_positive_integer trim
assert_event_input event = do
  assert_scope event.scope
  guard (not (is_empty (trim event.event_type) || ltb 160 (length event.event_type)))
      invalid_argument
  version ← assert_positive_integer event.event_version invalid_argument
  retention ← assert_positive_integer event.retention_seconds invalid_argument
  ok (version, retention)

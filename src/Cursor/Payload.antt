-- ===== src/Cursor/Payload.antt =====
-- What a cursor holds: its sort tuple and payload, the text that they are signed as, and the checks on
-- a payload that was read. A parsed number stands by its text.
use euphoria_api.Base.{
  ℕ, Bool, false, not, ◌&&◌, ◌||◌, List, [], ◌∷◌, ◌++◌, Option, none, some, Text, text, text_eq,
  text_eqb, ◌==◌, is_empty, Result, ok, err, ◌>>=◌, ◌>>◌, guard, or_throw, leb, nat_eqb, nat_eq,
  all, if◌then◌else◌,
}
use euphoria_api.Validate.{is_uuid}
use euphoria_api.Commands.Json.{
  Json, null, boolean, string, number, negative_zero, not_finite, not_json, exotic, cyclic, array,
  object, Entries, no_entries, entry, Fields, no_fields, field, quote, join_commas, print_fields,
}
use euphoria_api.Cursor.Base64.{is_base64_unit, from_base64}

pub data Resource : Type 0 where
  chat_conversations chat_messages notifications profile_feed : Resource

pub data Direction : Type 0 where
  next previous : Direction

abbrev pub resource_text : Resource → Text
resource_text chat_conversations = text "chat-conversations"
resource_text chat_messages = text "chat-messages"
resource_text notifications = text "notifications"
resource_text profile_feed = text "profile-feed"

abbrev pub direction_text : Direction → Text
direction_text next = text "next"
direction_text previous = text "previous"

pub data SortTuple : Type 0 where
  feed_sort : (distance_meters : Json) (profile_id : Text) → SortTuple
  conversation_sort : (sort_at_micros conversation_id : Text) → SortTuple
  message_sort : (created_at_micros message_id : Text) → SortTuple
  notification_sort : (created_at_micros notification_id : Text) → SortTuple

pub data Reason : Type 0 where
  context_mismatch direction_mismatch malformed resource_mismatch tampered unsupported_version :
      Reason

-- A CursorError, or another error.
pub data CursorFault : Type 0 where
  cursor_error : Reason → CursorFault
  other_error : CursorFault

abbrev pub refuse : {A : Type 0} → Reason → Result CursorFault A
refuse reason = err (cursor_error reason)

-- decodeBase64Url
unfoldable pub decode_base64url : Text → Result CursorFault (List ℕ)
unfolding is_base64_unit from_base64
decode_base64url value =
    guard (not (is_empty value) && all is_base64_unit value) (cursor_error malformed)
    >> ok (from_base64 value)

abbrev pub both : {A : Type 0} → Option A → Option (List A) → Option (List A)
both none rest = none
both (some x) none = none
both (some x) (some xs) = some (x ∷ xs)

abbrev pub keyed : Text → Option Text → Option (Text × Text)
keyed key none = none
keyed key (some value) = some (key, value)

abbrev pub print_array : Option (List Text) → Option Text
print_array none = none
print_array (some texts) = some (text "[" ++ join_commas texts ++ text "]")

abbrev pub print_object : Option (List (Text × Text)) → Option Text
print_object none = none
print_object (some fields) = some (print_fields fields)

-- canonicalize; `none` is the error on a number that is not finite. The fields are printed before
-- they are sorted by their keys.
unfoldable mutual
  pub canonical : Json → Option Text
  canonical null = some (text "null")
  canonical (boolean b) = some (if b then text "true" else text "false")
  canonical (string s) = some (quote s)
  canonical (number digits) = some digits
  canonical negative_zero = some (text "0")
  canonical not_finite = none
  canonical not_json = none
  canonical exotic = none
  canonical cyclic = none
  canonical (array entries) = print_array (canonical_entries entries)
  canonical (object fields) = print_object (canonical_fields fields)

  pub canonical_entries : Entries → Option (List Text)
  canonical_entries no_entries = some []
  canonical_entries (entry v rest) = both (canonical v) (canonical_entries rest)

  pub canonical_fields : Fields → Option (List (Text × Text))
  canonical_fields no_fields = some []
  canonical_fields (field key v rest) = both (keyed key (canonical v)) (canonical_fields rest)

-- JSON.stringify of a payload, whose fields stand in the order given.
abbrev pub stringify_pair : Text → Text → Text
stringify_pair key value = quote key ++ text ":" ++ value

abbrev pub stringify_pairs : List Text → Text
stringify_pairs pairs = text "{" ++ join_commas pairs ++ text "}"

-- A distance is a finite number; minus zero is printed as zero.
abbrev pub stringify_number : Json → Text
stringify_number (number digits) = digits
stringify_number negative_zero = text "0"
stringify_number other = text "null"

abbrev pub stringify_sort : SortTuple → Text
stringify_sort (feed_sort distance id) = stringify_pairs (
    stringify_pair (text "distanceMeters") (stringify_number distance)
    ∷ stringify_pair (text "profileId") (quote id)
    ∷ [])
stringify_sort (conversation_sort micros id) = stringify_pairs (
    stringify_pair (text "sortAtMicros") (quote micros)
    ∷ stringify_pair (text "conversationId") (quote id)
    ∷ [])
stringify_sort (message_sort micros id) = stringify_pairs (
    stringify_pair (text "createdAtMicros") (quote micros)
    ∷ stringify_pair (text "messageId") (quote id)
    ∷ [])
stringify_sort (notification_sort micros id) = stringify_pairs (
    stringify_pair (text "createdAtMicros") (quote micros)
    ∷ stringify_pair (text "notificationId") (quote id)
    ∷ [])

-- The object that a sort tuple is.
abbrev pub two_fields : Text → Json → Text → Json → Json
two_fields k v l w = object (field k v (field l w no_fields))

abbrev pub sort_json : SortTuple → Json
sort_json (feed_sort distance id) =
    two_fields (text "distanceMeters") distance (text "profileId") (string id)
sort_json (conversation_sort micros id) =
    two_fields (text "sortAtMicros") (string micros) (text "conversationId") (string id)
sort_json (message_sort micros id) =
    two_fields (text "createdAtMicros") (string micros) (text "messageId") (string id)
sort_json (notification_sort micros id) =
    two_fields (text "createdAtMicros") (string micros) (text "notificationId") (string id)

unfoldable pub lookup : Text → Fields → Option Json
unfolding text_eqb
lookup key no_fields = none
lookup key (field k v rest) = let later = lookup key rest in if k == key then some v else later

-- isRecord
abbrev pub fields_of : Json → Option Fields
fields_of (object fields) = some fields
fields_of other = none

abbrev pub string_of : Option Json → Option Text
string_of (some (string s)) = some s
string_of other = none

-- typeof value === "number", by its text
abbrev pub number_of : Option Json → Option Text
number_of (some (number digits)) = some digits
number_of (some negative_zero) = some (text "-0")
number_of (some not_finite) = some (text "Infinity")
number_of other = none

abbrev is_digit : ℕ → Bool
is_digit c = leb b'0' c && leb c b'9'

-- /^-?[0-9]+$/
abbrev some_digits : Text → Bool
some_digits s = not (is_empty s) && all is_digit s

abbrev pub is_timestamp_micros : Text → Bool
is_timestamp_micros [] = false
is_timestamp_micros (c ∷ s) = if nat_eqb c b'-' then some_digits s else some_digits (c ∷ s)

abbrev is_negative : Text → Bool
is_negative [] = false
is_negative (c ∷ s) = nat_eqb c b'-'

abbrev pub distance_of : Option Json → Option Json
distance_of (some (number digits)) = if is_negative digits then none else some (number digits)
distance_of (some negative_zero) = some negative_zero
distance_of other = none

abbrev pub micros_of : Option Json → Option Text
micros_of (some (string s)) = if is_timestamp_micros s then some s else none
micros_of other = none

unfoldable pub uuid_of : Option Json → Option Text
unfolding is_uuid
uuid_of (some (string s)) = if is_uuid b'8' s then some s else none
uuid_of other = none

abbrev pub positioned :
    (Text → Text → SortTuple) → Option Text → Option Text → Result CursorFault SortTuple
positioned make micros id = do
  m ← or_throw micros (cursor_error malformed)
  i ← or_throw id (cursor_error malformed)
  ok (make m i)

unfoldable pub sort_of_fields : Resource → Fields → Result CursorFault SortTuple
unfolding lookup uuid_of
sort_of_fields profile_feed fields = do
  d ← or_throw (distance_of (lookup (text "distanceMeters") fields)) (cursor_error malformed)
  i ← or_throw (uuid_of (lookup (text "profileId") fields)) (cursor_error malformed)
  ok (feed_sort d i)
sort_of_fields chat_conversations fields =
    positioned conversation_sort (micros_of (lookup (text "sortAtMicros") fields))
      (uuid_of (lookup (text "conversationId") fields))
sort_of_fields chat_messages fields =
    positioned message_sort (micros_of (lookup (text "createdAtMicros") fields))
      (uuid_of (lookup (text "messageId") fields))
sort_of_fields notifications fields =
    positioned notification_sort (micros_of (lookup (text "createdAtMicros") fields))
      (uuid_of (lookup (text "notificationId") fields))

unfoldable pub parse_sort_tuple : Resource → Json → Result CursorFault SortTuple
unfolding sort_of_fields
parse_sort_tuple resource value = do
  fields ← or_throw (fields_of value) (cursor_error malformed)
  sort_of_fields resource fields

pub record Payload : Type 0 where
  pub resource : Text
  pub direction : Text
  pub sort : Json
  pub fingerprint : Text

abbrev is_resource : Text → Bool
is_resource s =
    s == text "chat-conversations"
    || s == text "chat-messages"
    || s == text "notifications"
    || s == text "profile-feed"

abbrev is_direction : Text → Bool
is_direction s = s == text "next" || s == text "previous"

-- The checks of parsePayload on the parsed value.
unfoldable pub payload_of : Option Json → Result CursorFault Payload
unfolding lookup text_eqb
payload_of parsed = do
  value ← or_throw parsed (cursor_error malformed)
  fields ← or_throw (fields_of value) (cursor_error malformed)
  version ← or_throw (number_of (lookup (text "version") fields)) (cursor_error malformed)
  resource ← or_throw (string_of (lookup (text "resource") fields)) (cursor_error malformed)
  direction ← or_throw (string_of (lookup (text "direction") fields)) (cursor_error malformed)
  fingerprint ← or_throw (string_of (lookup (text "fingerprint") fields)) (cursor_error malformed)
  sort ← or_throw (lookup (text "sort") fields) (cursor_error malformed)
  _ ← guard (version == text "1") (cursor_error unsupported_version)
  _ ← guard (is_resource resource && is_direction direction) (cursor_error malformed)
  ok (record { resource = resource; direction = direction; sort = sort; fingerprint = fingerprint })

-- ===== src/Cursor/Reading.antt =====
-- What the parts of a cursor that was encoded are read as.
use euphoria_api.Base.{
  ℕ, ◌≡◌, refl, inl, inr, Bool, true, false, not, List, [], ◌∷◌, ◌++◌, Option, none, some, Text,
  text, text_eq, text_eqb, is_empty, ok, err, ◌>>=◌, or_throw, nat_eqb, nat_eq, all, Bool-cases,
  and-true, arith, Option-cases,
}
use euphoria_api.Commands.Json.{
  Json, null, boolean, string, number, negative_zero, not_finite, not_json, exotic, cyclic, array,
  object, no_fields, field,
}
use euphoria_api.Cursor.Base64.{
  is_base64_unit, to_base64, Bytes, from_base64-to_base64, to_base64_alphabet,
}
use euphoria_api.Cursor.Payload.{
  Resource, chat_conversations, chat_messages, notifications, profile_feed, Direction, next,
  previous, resource_text, direction_text, SortTuple, cursor_error, malformed, decode_base64url,
  sort_json, parse_sort_tuple, Payload, payload_of, positioned, micros_of, uuid_of, distance_of,
  sort_of_fields, lookup, is_timestamp_micros, feed_sort, conversation_sort, message_sort,
  notification_sort,
}
use euphoria_api.Validate.{is_uuid}
use euphoria_api.Cursor.Codec.{version_prefix, three_parts, split}

abbrev has_no : ℕ → Text → Bool
has_no c = all (λ x. not (nat_eqb x c))

pub split_once : (c : ℕ) (a b : Text) → has_no c a ≡ true → split c (a ++ c ∷ b) ≡ a ∷ split c b
unfolding split
split_once c [] b h = let self : nat_eqb c c ≡ true = ground arith in rw self refl
split_once c (x ∷ a) b h =
    let (other, rest) = and-true (not (nat_eqb x c)) (has_no c a) h in
    let off : nat_eqb x c ≡ false = ground arith in rw (off, split_once c a b rest) refl

pub split_none : (c : ℕ) (a : Text) → has_no c a ≡ true → split c a ≡ a ∷ []
unfolding split
split_none c [] h = refl
split_none c (x ∷ a) h =
    let (other, rest) = and-true (not (nat_eqb x c)) (has_no c a) h in
    let off : nat_eqb x c ≡ false = ground arith in rw (off, split_none c a rest) refl

no_dot : (s : Text) → all is_base64_unit s ≡ true → has_no b'.' s ≡ true
unfolding is_base64_unit
no_dot [] h = refl
no_dot (c ∷ s) h =
    let (here, rest) = and-true (is_base64_unit c) (all is_base64_unit s) h in
    rw (no_dot s rest) (ground arith)

-- A signed cursor has three parts, since the base64url alphabet has no dot.
pub three_parts-split :
    (payload signature : Text)
    → all is_base64_unit payload ≡ true
    → all is_base64_unit signature ≡ true
    → three_parts (split b'.' (version_prefix ++ b'.' ∷ payload ++ b'.' ∷ signature))
      ≡ some (version_prefix, payload, signature)
three_parts-split payload signature h k =
    rw
      (
        split_once b'.' version_prefix (payload ++ b'.' ∷ signature) refl,
        split_once b'.' payload signature (no_dot payload h),
        split_none b'.' signature (no_dot signature k),
      )
      refl

to_base64_filled : (bytes : List ℕ) → is_empty bytes ≡ false → is_empty (to_base64 bytes) ≡ false
unfolding to_base64
to_base64_filled [] h = cc h
to_base64_filled (a ∷ []) h = refl
to_base64_filled (a ∷ b ∷ []) h = refl
to_base64_filled (a ∷ b ∷ c ∷ bytes) h = refl

pub decode_base64url-to_base64 :
    (bytes : List ℕ)
    → Bytes bytes
    → is_empty bytes ≡ false
    → decode_base64url (to_base64 bytes) ≡ ok bytes
unfolding decode_base64url
decode_base64url-to_base64 bytes h filled =
    rw (to_base64_filled bytes filled, to_base64_alphabet bytes h, from_base64-to_base64 bytes h)
      refl

-- The value that a payload's text stands for.
abbrev pub payload_json : Direction → Resource → SortTuple → (print : Text) → Json
payload_json direction resource sort print = object (
    field (text "version") (number (text "1")) (
      field (text "resource") (string (resource_text resource)) (
        field (text "direction") (string (direction_text direction)) (
          field (text "sort") (sort_json sort)
            (field (text "fingerprint") (string print) no_fields)))))

abbrev pub payload_record : Direction → Resource → SortTuple → (print : Text) → Payload
payload_record direction resource sort print = record {
  resource = resource_text resource;
  direction = direction_text direction;
  sort = sort_json sort;
  fingerprint = print;
}

pub payload_of-payload_json :
    (direction : Direction) (resource : Resource) (sort : SortTuple) (print : Text)
    → payload_of (some (payload_json direction resource sort print))
      ≡ ok (payload_record direction resource sort print)
unfolding payload_of text_eqb
payload_of-payload_json next chat_conversations sort print = refl
payload_of-payload_json next chat_messages sort print = refl
payload_of-payload_json next notifications sort print = refl
payload_of-payload_json next profile_feed sort print = refl
payload_of-payload_json previous chat_conversations sort print = refl
payload_of-payload_json previous chat_messages sort print = refl
payload_of-payload_json previous notifications sort print = refl
payload_of-payload_json previous profile_feed sort print = refl

positioned-eq :
    (make : Text → Text → SortTuple) (micros id : Text) (s : SortTuple)
    → positioned make (micros_of (some (string micros))) (uuid_of (some (string id))) ≡ ok s
    → make micros id ≡ s
unfolding uuid_of
positioned-eq make micros id s h = elim (Bool-cases (is_timestamp_micros micros)) [
  | inl p ↦ elim (Bool-cases (is_uuid b'8' id)) [
    | inl q ↦ cc (rw (p, q) at h)
    | inr q ↦ absurd (cc (rw (p, q) at h))
  ]
  | inr p ↦ absurd (cc (rw p at h))
]

distance-eq :
    (d : Json) (i : Text) (s : SortTuple)
    → (do
      found ← or_throw (distance_of (some d)) (cursor_error malformed)
      id ← or_throw (uuid_of (some (string i))) (cursor_error malformed)
      ok (feed_sort found id))
      ≡ ok s
    → feed_sort d i ≡ s
unfolding uuid_of
distance-eq d i s h = elim (Bool-cases (is_uuid b'8' i)) [
  | inl q ↦ distance_kept d (rw q at h)
  | inr q ↦ refused d (rw q at h)
]
  where
    distance_kept :
        (d : Json)
        → (or_throw (distance_of (some d)) (cursor_error malformed) >>= λ found.
            ok (feed_sort found i))
          ≡ ok s
        → feed_sort d i ≡ s
    distance_kept (number []) h = cc h
    distance_kept (number (c ∷ digits)) h = elim (Bool-cases (nat_eqb c b'-')) [
      | inl q ↦ absurd (cc (rw q at h))
      | inr q ↦ cc (rw q at h)
    ]
    distance_kept negative_zero h = cc h
    distance_kept null h = absurd (cc h)
    distance_kept (boolean b) h = absurd (cc h)
    distance_kept (string t) h = absurd (cc h)
    distance_kept not_finite h = absurd (cc h)
    distance_kept not_json h = absurd (cc h)
    distance_kept exotic h = absurd (cc h)
    distance_kept cyclic h = absurd (cc h)
    distance_kept (array _) h = absurd (cc h)
    distance_kept (object _) h = absurd (cc h)

    refused :
        (d : Json)
        → (or_throw (distance_of (some d)) (cursor_error malformed) >>= λ found.
            err (cursor_error malformed))
          ≡ ok s
        → feed_sort d i ≡ s
    refused d h = elim (Option-cases (distance_of (some d))) [
      | inl q ↦ absurd (cc (rw q at h))
      | inr (found, q) ↦ absurd (cc (rw q at h))
    ]

no_id :
    (make : Text → Text → SortTuple) {s sort : SortTuple} (micros : Option Text)
    → positioned make micros (uuid_of none) ≡ ok s
    → sort ≡ s
unfolding uuid_of
no_id make none h = absurd (cc h)
no_id make (some m) h = absurd (cc h)

-- What parsing makes of a sort tuple is the tuple.
pub parse_sort_tuple-sort_json :
    (resource : Resource) (sort s : SortTuple)
    → parse_sort_tuple resource (sort_json sort) ≡ ok s
    → sort ≡ s
unfolding parse_sort_tuple sort_of_fields lookup text_eqb
parse_sort_tuple-sort_json profile_feed (feed_sort d i) s h = distance-eq d i s h
parse_sort_tuple-sort_json profile_feed (conversation_sort m i) s h = absurd (cc h)
parse_sort_tuple-sort_json profile_feed (message_sort m i) s h = absurd (cc h)
parse_sort_tuple-sort_json profile_feed (notification_sort m i) s h = absurd (cc h)
parse_sort_tuple-sort_json chat_conversations (feed_sort d i) s h = absurd (cc h)
parse_sort_tuple-sort_json chat_conversations (conversation_sort m i) s h =
    positioned-eq conversation_sort m i s h
parse_sort_tuple-sort_json chat_conversations (message_sort m i) s h = absurd (cc h)
parse_sort_tuple-sort_json chat_conversations (notification_sort m i) s h = absurd (cc h)
parse_sort_tuple-sort_json chat_messages (feed_sort d i) s h = absurd (cc h)
parse_sort_tuple-sort_json chat_messages (conversation_sort m i) s h = absurd (cc h)
parse_sort_tuple-sort_json chat_messages (message_sort m i) s h = positioned-eq message_sort m i s h
parse_sort_tuple-sort_json chat_messages (notification_sort m i) s h =
    no_id message_sort (micros_of (some (string m))) h
parse_sort_tuple-sort_json notifications (feed_sort d i) s h = absurd (cc h)
parse_sort_tuple-sort_json notifications (conversation_sort m i) s h = absurd (cc h)
parse_sort_tuple-sort_json notifications (message_sort m i) s h =
    no_id notification_sort (micros_of (some (string m))) h
parse_sort_tuple-sort_json notifications (notification_sort m i) s h =
    positioned-eq notification_sort m i s h

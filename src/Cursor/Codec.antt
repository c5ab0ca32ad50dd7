-- ===== src/Cursor/Codec.antt =====
-- createCursorCodec: the signing secrets, encode and decode. `hmac` is HMAC-SHA-256 of a message under
-- a secret, `utf8` the bytes of a string, and `parse_json` what JSON.parse makes of the string that
-- bytes encode.
use euphoria_api.Base.{
  ℕ, Bool, false, not, ◌&&◌, List, [], ◌∷◌, ◌++◌, map, Option, none, some, Text, text, text_eq,
  text_eqb, ◌==◌, is_empty, trim, Result, ok, err, ◌>>=◌, guard, or_throw, leb, nat_eqb, nat_eq,
  all, first, length, if◌then◌else◌,
}
use euphoria_api.Sql.{select, delete}
use euphoria_api.Commands.Json.{Json, string, object, no_fields, field, quote}
use euphoria_api.Cursor.Base64.{to_base64}
use euphoria_api.Cursor.Payload.{
  Resource, Direction, resource_text, direction_text, SortTuple, context_mismatch,
  direction_mismatch, malformed, resource_mismatch, tampered, unsupported_version, CursorFault,
  cursor_error, other_error, decode_base64url, canonical, stringify_pair, stringify_pairs,
  stringify_sort, sort_json, parse_sort_tuple, Payload, payload_of,
}

-- `new Set` keeps the first of equal strings.
unfoldable pub first_of_each : List Text → List Text
unfolding delete text_eqb
first_of_each [] = []
first_of_each (x ∷ xs) = x ∷ delete (λ y. y == x) (first_of_each xs)

abbrev pub some_secret : List Text → Result CursorFault (List Text)
some_secret [] = err other_error
some_secret (k ∷ ks) = ok (k ∷ ks)

unfoldable pub normalize_signing_secrets : List Text → Result CursorFault (List Text)
unfolding first_of_each select trim
normalize_signing_secrets secrets =
    some_secret (first_of_each (select (λ s. not (is_empty s)) (map trim secrets)))

-- s.split(c)
abbrev pub onto_first : ℕ → List Text → List Text
onto_first x [] = (x ∷ []) ∷ []
onto_first x (part ∷ parts) = (x ∷ part) ∷ parts

unfoldable pub split : ℕ → Text → List Text
split c [] = [] ∷ []
split c (x ∷ s) = let rest = split c s in if nat_eqb x c then [] ∷ rest else onto_first x rest

-- `a?.trim() || b?.trim()`, and `?? ""` for a primary secret that is missing
abbrev pub or_else : Option Text → Option Text → Text
or_else none none = []
or_else none (some b) = trim b
or_else (some a) none = trim a
or_else (some a) (some b) = if is_empty (trim a) then trim b else trim a

abbrev pub listed : Option Text → List Text
listed none = []
listed (some secrets) = select (λ s. not (is_empty s)) (map trim (split b',' secrets))

unfoldable pub load_default_signing_secrets :
    (cursor_secret auth_secret previous_secrets : Option Text) → Result CursorFault (List Text)
unfolding normalize_signing_secrets split select trim
load_default_signing_secrets cursor_secret auth_secret previous_secrets =
    normalize_signing_secrets (or_else cursor_secret auth_secret ∷ listed previous_secrets)

abbrev pub signature_domain : Text
signature_domain = text "euphoria-cursor-signature-v1"

abbrev pub context_fingerprint_domain : Text
context_fingerprint_domain = text "euphoria-cursor-fingerprint-v1"

abbrev pub version_prefix : Text
version_prefix = text "c1"

-- the parts of a cursor, where there are three
abbrev pub three_parts : List Text → Option (Text × Text × Text)
three_parts (a ∷ b ∷ c ∷ []) = some (a, b, c)
three_parts other = none

-- /^c[0-9]+$/
abbrev pub is_version : Text → Bool
is_version [] = false
is_version (c ∷ s) = nat_eqb c b'c' && (not (is_empty s) && all (λ d. leb b'0' d && leb d b'9') s)

-- JSON.stringify(payload)
unfoldable pub payload_text : Direction → Resource → SortTuple → (fingerprint : Text) → Text
payload_text direction resource sort print = stringify_pairs (
    stringify_pair (text "version") (text "1")
    ∷ stringify_pair (text "resource") (quote (resource_text resource))
    ∷ stringify_pair (text "direction") (quote (direction_text direction))
    ∷ stringify_pair (text "sort") (stringify_sort sort)
    ∷ stringify_pair (text "fingerprint") (quote print)
    ∷ [])

module _ (parse_json : List ℕ → Option Json) where
  unfoldable pub parse_payload : Text → Result CursorFault Payload
  unfolding decode_base64url payload_of
  parse_payload encoded = do decoded ← decode_base64url encoded; payload_of (parse_json decoded)

module _ (hmac : (secret message : Text) → List ℕ) where
  unfoldable pub sign : (payload secret : Text) → List ℕ
  sign payload secret = hmac secret (signature_domain ++ 0 ∷ payload)

  abbrev pub fingerprint_of : Text → Option Text → Result CursorFault Text
  fingerprint_of secret none = err other_error
  fingerprint_of secret (some canonicalized) =
      ok (to_base64 (hmac secret (context_fingerprint_domain ++ 0 ∷ canonicalized)))

  unfoldable pub context_fingerprint :
      (context : Json) → Direction → Resource → Text → Result CursorFault Text
  unfolding canonical to_base64
  context_fingerprint context direction resource secret = fingerprint_of secret (
      canonical (
        object (
          field (text "context") context (
            field (text "direction") (string (direction_text direction))
              (field (text "resource") (string (resource_text resource)) no_fields)))))

  -- `${wireVersionPrefix}.${encodedPayload}.${encodedSignature}`
  unfoldable pub signed_cursor : (payload secret : Text) → Text
  unfolding sign to_base64
  signed_cursor payload secret =
      version_prefix ++ b'.' ∷ payload ++ b'.' ∷ to_base64 (sign payload secret)

  -- keys.find(…): the first secret under which the payload has the provided signature
  unfoldable pub find_secret : (provided : List ℕ) (payload : Text) → List Text → Option Text
  unfolding sign text_eqb
  find_secret provided payload [] = none
  find_secret provided payload (k ∷ ks) =
      let later = find_secret provided payload ks in
      if text_eqb provided (sign payload k) then some k else later

  -- The checks on a payload whose signature is right.
  unfoldable pub check_payload :
      (context : Json) → Direction → Resource → Text → Payload → Result CursorFault SortTuple
  unfolding context_fingerprint parse_sort_tuple text_eqb
  check_payload context direction resource secret payload = do
    _ ← guard (payload.resource == resource_text resource) (cursor_error resource_mismatch)
    _ ← guard (payload.direction == direction_text direction) (cursor_error direction_mismatch)
    expected ← context_fingerprint context direction resource secret
    _ ← guard (payload.fingerprint == expected) (cursor_error context_mismatch)
    parse_sort_tuple resource payload.sort

  module _ (utf8 : Text → List ℕ) where
    unfoldable pub encode :
        (keys : List Text) (context : Json)
        → Direction
        → Resource
        → SortTuple
        → Result CursorFault Text
    unfolding parse_sort_tuple context_fingerprint payload_text signed_cursor to_base64
    encode keys context direction resource sort = do
      _ ← parse_sort_tuple resource (sort_json sort)
      secret ← or_throw (first keys) other_error
      print ← context_fingerprint context direction resource secret
      ok (signed_cursor (to_base64 (utf8 (payload_text direction resource sort print))) secret)

  module _ (parse_json : List ℕ → Option Json) where
    -- decode, from the three parts of the cursor
    unfoldable pub decode_parts :
        (keys : List Text) (context : Json)
        → Direction
        → Resource
        → Text × Text × Text
        → Result CursorFault SortTuple
    unfolding decode_base64url find_secret parse_payload check_payload text_eqb
    decode_parts keys context direction resource parts = do
      _ ←
          guard (parts.0 == version_prefix)
            (cursor_error (if is_version parts.0 then unsupported_version else malformed))
      provided ← decode_base64url parts.2
      secret ← or_throw (find_secret provided parts.1 keys) (cursor_error tampered)
      payload ← parse_payload parse_json parts.1
      check_payload context direction resource secret payload

    unfoldable pub decode :
        (keys : List Text) (context : Json)
        → Direction
        → Resource
        → (cursor : Text) → Result CursorFault SortTuple
    unfolding split decode_parts
    decode keys context direction resource cursor = do
      _ ← guard (not (is_empty cursor) && leb (length cursor) 8192) (cursor_error malformed)
      parts ← or_throw (three_parts (split b'.' cursor)) (cursor_error malformed)
      decode_parts keys context direction resource parts

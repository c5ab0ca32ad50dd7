-- ===== src/Cursor/Examples.antt =====
-- A cursor of the chat messages that was signed before the secret was rotated. The digest is a
-- stand-in that copies its secret.
use euphoria_api.Base.{
  ℕ, ◌≤◌, ◌≡◌, refl, ap, sym, ◌∙◌, true, false, List, [], ◌∷◌, ◌++◌, Option, none, some, Text, text,
  text_eq, text_eqb, text_eqb_iff, ok, map, length, arith,
}
use Prim.Native.Nat.{◌%◌}
use mathlib.Core.List.{Memᴰ}
use mathlib.Core.List.Memᴰ.{head, tail}
use euphoria_api.Commands.Json.{Json, string, number, quote, object, no_fields, field}
use euphoria_api.Cursor.Base64.{to_base64, Bytes}
use euphoria_api.Cursor.Payload.{
  chat_messages, next, previous, SortTuple, message_sort, refuse, direction_mismatch, tampered,
  unsupported_version, canonical,
}
use euphoria_api.Cursor.Codec.{
  sign, context_fingerprint, payload_text, encode, decode, load_default_signing_secrets,
}
use euphoria_api.Cursor.Complete.{decode-encode_printed}
use euphoria_api.Cursor.Parse.{
  parse, read_units, read_key, has_field, number_run, is_number_text, after_word,
}
use euphoria_api.Cursor.Refusals.{Genuine, decode-Genuine}

abbrev bytes_of : Text → List ℕ
bytes_of s = map (λ c. c % 256) s

abbrev hmac : (secret message : Text) → List ℕ
hmac secret message = 7 ∷ bytes_of secret

abbrev secret : Text
secret = text "old"

abbrev keys : List Text
keys = text "new" ∷ text "old" ∷ []

abbrev sort : SortTuple
sort = message_sort (text "17") (text "0190a0b0-0000-7000-8000-00000000000a")

abbrev context : Json
context = object (field (text "viewer") (string (text "u1")) no_fields)

abbrev print : Text
print = text "B29sZA"

abbrev parse_json : List ℕ → Option Json
parse_json bytes = parse number bytes

bytes_of-Bytes : (s : Text) → Bytes (bytes_of s)
bytes_of-Bytes [] = tt
bytes_of-Bytes (c ∷ s) = (omega arith, bytes_of-Bytes s)

digest-Bytes : (s m : Text) → Bytes (hmac s m)
digest-Bytes s m = (omega arith, bytes_of-Bytes s)

printed : context_fingerprint hmac context next chat_messages secret ≡ ok print
unfolding context_fingerprint canonical to_base64
printed = refl

abbrev payload : Text
payload = to_base64 (bytes_of (payload_text next chat_messages sort print))

abbrev cursor : Text
cursor = text "c1." ++ payload ++ text ".B29sZA"

encoded : encode hmac bytes_of (secret ∷ []) context next chat_messages sort ≡ ok cursor
unfolding encode canonical to_base64 quote payload_text
encoded = refl

short : length cursor ≤ 8192
unfolding payload_text to_base64 quote
short = omega arith

alone : (k : Text) → Memᴰ k keys → sign hmac payload k ≡ sign hmac payload secret → k ≡ secret
unfolding sign text_eqb
alone k (head e) same =
    let differ : false ≡ true =
      ap (λ l. text_eqb (hmac l []) (hmac secret [])) (sym e) ∙ (text_eqb_iff _ _).1 same in
    absurd (cc differ)
alone k (tail (head e)) same = e
alone k (tail (tail m)) same = elim m [ ]

payload_back :
    bytes_of (payload_text next chat_messages sort print)
    ≡ payload_text next chat_messages sort print
unfolding payload_text quote
payload_back = refl

decode-encode_printed_example :
    decode hmac parse_json keys context next chat_messages cursor ≡ ok sort
decode-encode_printed_example =
    decode-encode_printed hmac number bytes_of (λ bytes. bytes) digest-Bytes (λ s m. refl)
      bytes_of-Bytes (λ c s. refl) refl secret [] keys context next chat_messages sort print cursor
      encoded printed payload_back tt short (tail (head refl)) alone

decoded : decode hmac parse_json keys context next chat_messages cursor ≡ ok sort
decoded =
    decode-encode_printed hmac number bytes_of (λ bytes. bytes) digest-Bytes (λ s m. refl)
      bytes_of-Bytes (λ c s. refl) refl secret [] keys context next chat_messages sort print cursor
      encoded printed payload_back tt short (tail (head refl)) alone

decode-Genuine_example : Genuine hmac parse_json keys context next chat_messages cursor
decode-Genuine_example =
    decode-Genuine hmac parse_json keys context next chat_messages cursor sort decoded

-- Another direction is refused, another version too, and a signature under a secret that is unknown.
refusals :
    (decode hmac parse_json keys context previous chat_messages cursor ≡ refuse direction_mismatch)
    × (decode hmac parse_json keys context next chat_messages (text "c2.AA.BB")
        ≡ refuse unsupported_version)
    × (decode hmac parse_json (text "new" ∷ []) context next chat_messages cursor ≡ refuse tampered)
unfolding decode canonical to_base64 text_eqb payload_text quote parse read_units read_key has_field
    number_run is_number_text after_word
refusals = (refl, refl, refl)

secrets_loaded :
    load_default_signing_secrets none (some (text " new ")) (some (text "old,,new"))
    ≡ ok (text "new" ∷ text "old" ∷ [])
unfolding load_default_signing_secrets text_eqb
secrets_loaded = refl

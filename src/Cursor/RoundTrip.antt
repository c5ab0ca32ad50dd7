-- ===== src/Cursor/RoundTrip.antt =====
-- A cursor that was encoded is decoded to its sort tuple, also when the signing secret has become one
-- of the previous ones.
use euphoria_api.Base.{
  ℕ, ◌≤◌, ◌≡◌, refl, sym, ◌∙◌, ap, subst, inl, inr, true, false, List, [], ◌∷◌, ◌++◌, Option, some,
  Text, text_eq, text_eqb, text_eqb_iff, is_empty, Result, ok, ◌>>=◌, guard, or_throw, ok_inj,
  >>=-eq-ok, leb, nat_eq, all, length, Bool-cases, arith,
}
use mathlib.Core.List.{Memᴰ}
use mathlib.Core.List.Memᴰ.{head, tail}
use euphoria_api.Commands.Json.{Json}
use euphoria_api.Cursor.Base64.{is_base64_unit, to_base64, Bytes, to_base64_alphabet}
use euphoria_api.Cursor.Payload.{
  Resource, Direction, resource_text, direction_text, SortTuple, cursor_error, malformed, tampered,
  decode_base64url, sort_json, parse_sort_tuple, Payload,
}
use euphoria_api.Cursor.Codec.{
  version_prefix, signature_domain, three_parts, split, sign, context_fingerprint, payload_text,
  signed_cursor, encode, find_secret, parse_payload, check_payload, decode_parts, decode,
}
use euphoria_api.Cursor.Reading.{
  three_parts-split, decode_base64url-to_base64, payload_json, payload_record,
  payload_of-payload_json, parse_sort_tuple-sort_json,
}

-- A step of a chain that came through.
step_ok {ℓ} :
    {E A B : Type ℓ} (step : Result E A) (rest : A → Result E B) {x : A}
    → step ≡ ok x
    → (step >>= rest) ≡ rest x
step_ok step rest h = rw h refl

module _ (hmac : (secret message : Text) → List ℕ) where
  -- Decoding three parts, once the signature is found to be right and the payload is parsed.
  pub decode_parts_lem :
      (parse_json : List ℕ → Option Json) (keys : List Text) (context : Json)
      (direction : Direction) (resource : Resource) (encoded signature secret : Text)
      (provided : List ℕ) (payload : Payload)
      → decode_base64url signature ≡ ok provided
      → find_secret hmac provided encoded keys ≡ some secret
      → parse_payload parse_json encoded ≡ ok payload
      → decode_parts hmac parse_json keys context direction resource
          (version_prefix, encoded, signature)
        ≡ check_payload hmac context direction resource secret payload
  unfolding decode_parts
  decode_parts_lem parse_json keys context direction resource encoded signature secret provided
        payload h k l =
      step_ok (decode_base64url signature) _ h
      ∙ step_ok (or_throw (find_secret hmac provided encoded keys) (cursor_error tampered)) _
          (ap (λ o. or_throw o (cursor_error tampered)) k)
      ∙ step_ok (parse_payload parse_json encoded) _ l

  -- Decoding a signed cursor that is short enough.
  pub decode-signed_cursor :
      (parse_json : List ℕ → Option Json) (keys : List Text) (context : Json)
      (direction : Direction) (resource : Resource) (payload secret : Text)
      → length (signed_cursor hmac payload secret) ≤ 8192
      → all is_base64_unit payload ≡ true
      → all is_base64_unit (to_base64 (sign hmac payload secret)) ≡ true
      → decode hmac parse_json keys context direction resource (signed_cursor hmac payload secret)
        ≡ decode_parts hmac parse_json keys context direction resource
            (version_prefix, payload, to_base64 (sign hmac payload secret))
  unfolding decode signed_cursor
  decode-signed_cursor parse_json keys context direction resource payload secret short h k =
      let fits : leb (length (signed_cursor hmac payload secret)) 8192 ≡ true = ground arith in
      step_ok
        (guard (leb (length (signed_cursor hmac payload secret)) 8192) (cursor_error malformed)) _
        (ap (λ b. guard b (cursor_error malformed)) fits)
      ∙ step_ok
          (or_throw (three_parts (split b'.' (signed_cursor hmac payload secret)))
            (cursor_error malformed))
          _
          (ap (λ o. or_throw o (cursor_error malformed))
            (three_parts-split payload (to_base64 (sign hmac payload secret)) h k))

  -- No other secret signs the payload in the same way.
  pub find_secret_lem :
      (payload secret : Text) (keys : List Text)
      → Memᴰ secret keys
      → ((k : Text) → Memᴰ k keys → sign hmac payload k ≡ sign hmac payload secret → k ≡ secret)
      → find_secret hmac (sign hmac payload secret) payload keys ≡ some secret
  unfolding find_secret
  find_secret_lem payload secret [] m only = elim m [ ]
  find_secret_lem payload secret (k ∷ ks) (head e) only =
      rw (← e, (text_eqb_iff (sign hmac payload secret) (sign hmac payload secret)).1 refl) refl
  find_secret_lem payload secret (k ∷ ks) (tail m) only =
      elim (Bool-cases (text_eqb (sign hmac payload secret) (sign hmac payload k))) [
        | inl q ↦ rw q (
            ap some (
              only k (head refl)
                (sym ((text_eqb_iff (sign hmac payload secret) (sign hmac payload k)).0 q))))
        | inr q ↦ rw q (find_secret_lem payload secret ks m (λ l n. only l (tail n)))
      ]

  -- What encoding does, where it comes through.
  pub record Encoded (utf8 : Text → List ℕ) (context : Json) (direction : Direction)
      (resource : Resource) (sort : SortTuple) (secret cursor : Text) : Type 0 where
    pub parsed : (s : SortTuple) × (parse_sort_tuple resource (sort_json sort) ≡ ok s)
    pub print : Text
    pub printed : context_fingerprint hmac context direction resource secret ≡ ok print
    pub signed :
        signed_cursor hmac (to_base64 (utf8 (payload_text direction resource sort print))) secret
        ≡ cursor

  pub encode_lem :
      (utf8 : Text → List ℕ) (secret : Text) (older : List Text) (context : Json)
      (direction : Direction) (resource : Resource) (sort : SortTuple) (cursor : Text)
      → encode hmac utf8 (secret ∷ older) context direction resource sort ≡ ok cursor
      → Encoded utf8 context direction resource sort secret cursor
  unfolding encode
  encode_lem utf8 secret older context direction resource sort cursor h =
      let (s, parsed, rest) = >>=-eq-ok (parse_sort_tuple resource (sort_json sort)) _ h in
      let (print, printed, ends) =
        >>=-eq-ok (context_fingerprint hmac context direction resource secret) _ rest in
      record { parsed = (s, parsed); print = print; printed = printed; signed = cc ends }

  module _ (parse_json : List ℕ → Option Json) (utf8 : Text → List ℕ)
      (digest-Bytes : (s m : Text) → Bytes (hmac s m))
      (digest_filled : (s m : Text) → is_empty (hmac s m) ≡ false)
      (utf8-Bytes : (s : Text) → Bytes (utf8 s))
      (utf8_filled : (c : ℕ) (s : Text) → is_empty (utf8 (c ∷ s)) ≡ false) where
    sent_payload : Direction → Resource → SortTuple → Text → Text
    sent_payload direction resource sort print =
        to_base64 (utf8 (payload_text direction resource sort print))

    signature_decoded :
        (payload secret : Text)
        → decode_base64url (to_base64 (sign hmac payload secret)) ≡ ok (sign hmac payload secret)
    unfolding sign
    signature_decoded payload secret =
        decode_base64url-to_base64 (hmac secret (signature_domain ++ 0 ∷ payload))
          (digest-Bytes _ _) (digest_filled _ _)

    signature_alphabet :
        (payload secret : Text) → all is_base64_unit (to_base64 (sign hmac payload secret)) ≡ true
    unfolding sign
    signature_alphabet payload secret = to_base64_alphabet _ (digest-Bytes _ _)

    payload_parsed :
        (direction : Direction) (resource : Resource) (sort : SortTuple) (print : Text)
        → parse_json (utf8 (payload_text direction resource sort print))
          ≡ some (payload_json direction resource sort print)
        → parse_payload parse_json (sent_payload direction resource sort print)
          ≡ ok (payload_record direction resource sort print)
    unfolding parse_payload sent_payload payload_text
    payload_parsed direction resource sort print h =
        let sent = payload_text direction resource sort print in
        rw (decode_base64url-to_base64 (utf8 sent) (utf8-Bytes sent) (utf8_filled _ _), h)
          (payload_of-payload_json direction resource sort print)

    -- What a codec makes of a cursor whose payload it reads back, anywhere.
    pub decode-sent :
        (secret : Text) (keys : List Text) (context : Json) (direction direction' : Direction)
        (resource resource' : Resource) (sort : SortTuple) (print : Text)
        → parse_json (utf8 (payload_text direction resource sort print))
          ≡ some (payload_json direction resource sort print)
        → length (
            signed_cursor hmac
              (to_base64 (utf8 (payload_text direction resource sort print)))
              secret)
          ≤ 8192
        → Memᴰ secret keys
        → ((k : Text)
            → Memᴰ k keys
            → sign hmac (to_base64 (utf8 (payload_text direction resource sort print))) k
              ≡ sign hmac (to_base64 (utf8 (payload_text direction resource sort print))) secret
            → k ≡ secret)
        → decode hmac parse_json keys context direction' resource' (
            signed_cursor hmac
              (to_base64 (utf8 (payload_text direction resource sort print)))
              secret)
          ≡ check_payload hmac context direction' resource' secret
              (payload_record direction resource sort print)
    unfolding sent_payload
    decode-sent secret keys context direction direction' resource resource' sort print reads short
          among alone =
        let payload = sent_payload direction resource sort print in
        decode-signed_cursor parse_json keys context direction' resource' payload secret short
          (to_base64_alphabet (utf8 (payload_text direction resource sort print)) (utf8-Bytes _))
          (signature_alphabet payload secret)
        ∙ decode_parts_lem parse_json keys context direction' resource' payload
            (to_base64 (sign hmac payload secret)) secret (sign hmac payload secret)
            (payload_record direction resource sort print) (signature_decoded payload secret)
            (find_secret_lem payload secret keys among alone)
            (payload_parsed direction resource sort print reads)

    -- A cursor of at most 8192 units that a codec has encoded, for a payload that JSON.parse reads
    -- back, is decoded to its sort tuple for the same context, direction and resource by every codec
    -- that has the signing secret among its secrets, and no other that signs the payload in the same
    -- way. HMAC digests and encoded strings are bytes, and not empty.
    pub decode-encode :
        (secret : Text) (older keys : List Text) (context : Json) (direction : Direction)
        (resource : Resource) (sort : SortTuple) (print cursor : Text)
        → encode hmac utf8 (secret ∷ older) context direction resource sort ≡ ok cursor
        → context_fingerprint hmac context direction resource secret ≡ ok print
        → parse_json (utf8 (payload_text direction resource sort print))
          ≡ some (payload_json direction resource sort print)
        → length cursor ≤ 8192
        → Memᴰ secret keys
        → ((k : Text)
            → Memᴰ k keys
            → sign hmac (to_base64 (utf8 (payload_text direction resource sort print))) k
              ≡ sign hmac (to_base64 (utf8 (payload_text direction resource sort print))) secret
            → k ≡ secret)
        → decode hmac parse_json keys context direction resource cursor ≡ ok sort
    unfolding check_payload
    decode-encode secret older keys context direction resource sort print cursor encoded printed
          reads short among alone =
        let e = encode_lem utf8 secret older context direction resource sort cursor encoded in
        let same : e.print ≡ print = ok_inj _ e.printed printed in
        let made : signed_cursor hmac
              (to_base64 (utf8 (payload_text direction resource sort print))) secret
            ≡ cursor =
          subst
            (λ w.
              signed_cursor hmac (to_base64 (utf8 (payload_text direction resource sort w))) secret
              ≡ cursor)
            same e.signed in
        let (s, parsed) = e.parsed in
        ap (decode hmac parse_json keys context direction resource) (sym made)
        ∙ decode-sent secret keys context direction direction resource resource sort print reads
            (rw made short) among alone
        ∙ rw
            (
              printed,
              (text_eqb_iff (resource_text resource) (resource_text resource)).1 refl,
              (text_eqb_iff (direction_text direction) (direction_text direction)).1 refl,
              (text_eqb_iff print print).1 refl,
            )
            (parsed ∙ ap ok (sym (parse_sort_tuple-sort_json resource sort s parsed)))

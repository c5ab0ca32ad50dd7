-- ===== src/Cursor/Refusals.antt =====
-- Which cursors are accepted, and how a genuine one is refused elsewhere.
use euphoria_api.Base.{
  ℕ, ◌≡◌, refl, sym, ◌∙◌, ap, inl, inr, Bool, true, false, not, ◌&&◌, List, [], ◌∷◌, Option, none,
  some, Text, text_eq, text_eqb, text_eqb_iff, ◌==◌, is_empty, Result, ok, ◌>>=◌, guard, or_throw,
  >>=-eq-ok, leb, length, Bool-cases, arith, some_inj,
}
use mathlib.Core.List.{Memᴰ}
use mathlib.Core.List.Memᴰ.{head, tail}
use euphoria_api.Commands.Json.{Json}
use euphoria_api.Cursor.Payload.{
  Resource, Direction, resource_text, direction_text, SortTuple, CursorFault, context_mismatch,
  direction_mismatch, resource_mismatch, refuse, decode_base64url, Payload,
}
use euphoria_api.Cursor.Codec.{
  version_prefix, three_parts, split, sign, context_fingerprint, find_secret, parse_payload,
  check_payload, decode_parts, decode,
}

guard_lem :
    {A : Type 0} (b : Bool) (e : CursorFault) (rest : Unit {0} → Result CursorFault A) {end : A}
    → (guard b e >>= rest) ≡ ok end
    → (b ≡ true) × (rest tt ≡ ok end)
guard_lem true e rest h = (refl, h)
guard_lem false e rest h = absurd (cc h)

or_throw-some :
    {A B : Type 0} (o : Option A) (e : CursorFault) (rest : A → Result CursorFault B) {end : B}
    → (or_throw o e >>= rest) ≡ ok end
    → (a : A) × (o ≡ some a) × (rest a ≡ ok end)
or_throw-some none e rest h = absurd (cc h)
or_throw-some (some a) e rest h = (a, refl, h)

module _ (hmac : (secret message : Text) → List ℕ) where
  -- A cursor of the form that decoding accepts: of the current version, signed under a secret of the
  -- codec, with a payload for the resource, the direction and the context.
  pub record Genuine (parse_json : List ℕ → Option Json) (keys : List Text) (context : Json)
      (direction : Direction) (resource : Resource) (cursor : Text) : Type 0 where
    pub payload : Text
    pub signature : Text
    pub secret : Text
    pub contents : Payload
    pub parts : three_parts (split b'.' cursor) ≡ some (version_prefix, payload, signature)
    pub short : leb (length cursor) 8192 ≡ true
    pub among : Memᴰ secret keys
    pub signed : decode_base64url signature ≡ ok (sign hmac payload secret)
    pub parsed : parse_payload parse_json payload ≡ ok contents
    pub for_resource : contents.resource ≡ resource_text resource
    pub for_direction : contents.direction ≡ direction_text direction
    pub for_context :
        context_fingerprint hmac context direction resource secret ≡ ok contents.fingerprint

  find_secret-Mem :
      (provided : List ℕ) (payload : Text) (keys : List Text) (secret : Text)
      → find_secret hmac provided payload keys ≡ some secret
      → Memᴰ secret keys × (provided ≡ sign hmac payload secret)
  unfolding find_secret
  find_secret-Mem provided payload [] secret h = absurd (cc h)
  find_secret-Mem provided payload (k ∷ ks) secret h =
      elim (Bool-cases (text_eqb provided (sign hmac payload k))) [
        | inl q ↦
            let same : k ≡ secret = some_inj (rw q at h) in
            (
              head (sym same),
              (text_eqb_iff provided (sign hmac payload k)).0 q ∙ ap (sign hmac payload) same,
            )
        | inr q ↦ let (m, e) = find_secret-Mem provided payload ks secret (rw q at h) in (tail m, e)
      ]

  check_payload_ok :
      (context : Json) (direction : Direction) (resource : Resource) (secret : Text)
      (contents : Payload) (sort : SortTuple)
      → check_payload hmac context direction resource secret contents ≡ ok sort
      → (contents.resource ≡ resource_text resource)
        × (contents.direction ≡ direction_text direction)
        × (context_fingerprint hmac context direction resource secret ≡ ok contents.fingerprint)
  unfolding check_payload
  check_payload_ok context direction resource secret contents sort h =
      let (a, h1) = guard_lem (contents.resource == resource_text resource) _ _ h in
      let (b, h2) = guard_lem (contents.direction == direction_text direction) _ _ h1 in
      let (expected, c, h3) =
        >>=-eq-ok (context_fingerprint hmac context direction resource secret) _ h2 in
      let (d, h4) = guard_lem (contents.fingerprint == expected) _ _ h3 in
      (
        (text_eqb_iff contents.resource (resource_text resource)).0 a,
        (text_eqb_iff contents.direction (direction_text direction)).0 b,
        c ∙ ap ok (sym ((text_eqb_iff contents.fingerprint expected).0 d)),
      )

  -- Whatever cursor a codec decodes is short enough, of the current version and signed under one of
  -- its secrets, and its payload is for the resource, the direction and the context that were asked.
  pub decode-Genuine :
      (parse_json : List ℕ → Option Json) (keys : List Text) (context : Json)
      (direction : Direction) (resource : Resource) (cursor : Text) (sort : SortTuple)
      → decode hmac parse_json keys context direction resource cursor ≡ ok sort
      → Genuine parse_json keys context direction resource cursor
  unfolding decode decode_parts
  decode-Genuine parse_json keys context direction resource cursor sort h =
      let (sized, h1) = guard_lem (not (is_empty cursor) && leb (length cursor) 8192) _ _ h in
      let (parts, split_up, h2) = or_throw-some (three_parts (split b'.' cursor)) _ _ h1 in
      let (version, h3) = guard_lem (parts.0 == version_prefix) _ _ h2 in
      let (provided, decoded, h4) = >>=-eq-ok (decode_base64url parts.2) _ h3 in
      let (secret, found, h5) = or_throw-some (find_secret hmac provided parts.1 keys) _ _ h4 in
      let (contents, parsed, h6) = >>=-eq-ok (parse_payload parse_json parts.1) _ h5 in
      let (a, b, c) = check_payload_ok context direction resource secret contents sort h6 in
      let (among, same) = find_secret-Mem provided parts.1 keys secret found in
      record {
        payload = parts.1;
        signature = parts.2;
        secret = secret;
        contents = contents;
        parts =
            split_up
            ∙ ap (λ v. some (v, parts.1, parts.2))
                ((text_eqb_iff parts.0 version_prefix).0 version);
        short = ground arith;
        among = among;
        signed = decoded ∙ ap ok same;
        parsed = parsed;
        for_resource = a;
        for_direction = b;
        for_context = c;
      }

  -- The answer to a genuine cursor, by where it is used.
  abbrev pub answer_elsewhere :
      (same_resource same_direction same_context : Bool) → SortTuple → Result CursorFault SortTuple
  answer_elsewhere false d c sort = refuse resource_mismatch
  answer_elsewhere true false c sort = refuse direction_mismatch
  answer_elsewhere true true false sort = refuse context_mismatch
  answer_elsewhere true true true sort = ok sort

-- ===== src/Cursor/Complete.antt =====
-- The round trip of a cursor through JSON.stringify and JSON.parse.
use euphoria_api.Base.{
  ℕ, suc, ◌≤◌, ◌≡◌, refl, sym, ◌∙◌, ap, subst, inl, inr, true, false, not, List, [], ◌∷◌, ◌++◌,
  Option, none, some, Text, text, text_eqb, all, and-true, Bool-cases, Option-cases, arith,
  is_empty, length, ok, ok_inj, ◌>>=◌, or_throw, nat_eqb,
}
use mathlib.Core.List.{Memᴰ, append_assoc}
use euphoria_api.Validate.{is_uuid, is_uuid_plain}
use euphoria_api.Commands.Json.{Json, string, number, quote_plain}
use euphoria_api.Cursor.Base64.{is_base64_unit, to_base64, Bytes, to_base64_alphabet}
use euphoria_api.Cursor.Payload.{
  Resource, chat_conversations, chat_messages, notifications, profile_feed, Direction, SortTuple,
  feed_sort, conversation_sort, message_sort, notification_sort, stringify_sort, cursor_error,
  malformed, parse_sort_tuple, sort_json, positioned, micros_of, uuid_of, is_timestamp_micros,
  distance_of,
}
use euphoria_api.Cursor.Codec.{
  payload_text, encode, decode, sign, context_fingerprint, fingerprint_of,
  context_fingerprint_domain,
}
use euphoria_api.Cursor.Reading.{payload_json}
use euphoria_api.Cursor.Parse.{is_digit, is_number_unit, is_number_text, parse, read_value}
use euphoria_api.Cursor.Printed.{
  Plain, payload_text-Plain, two_shown-Plain, quoted_sort, feed_value, payload_read,
}
use euphoria_api.Cursor.RoundTrip.{encode_lem, decode-encode}

-- A number that is printed as a JSON number without a sign and denoted by what is printed.
pub record Readable (to_number : Text → Json) (d : Json) : Type 0 where
  pub c : ℕ
  pub s : Text
  pub shape : d ≡ number (c ∷ s)
  pub digit : is_digit c ≡ true
  pub units : all is_number_unit s ≡ true
  pub valid : is_number_text (c ∷ s) ≡ true
  pub denoted : to_number (c ∷ s) ≡ number (c ∷ s)

abbrev pub ReadableSort : (Text → Json) → SortTuple → Type 0
ReadableSort to_number (feed_sort d i) = Readable to_number d
ReadableSort to_number other = Unit

abbrev PlainSort : SortTuple → Type 0
PlainSort (feed_sort d i) = Plain i
PlainSort (conversation_sort m i) = Plain m × Plain i
PlainSort (message_sort m i) = Plain m × Plain i
PlainSort (notification_sort m i) = Plain m × Plain i

digits-Plain : (s : Text) → all is_digit s ≡ true → Plain s
digits-Plain [] h = refl
digits-Plain (c ∷ s) h =
    let (here, rest) = and-true (is_digit c) (all is_digit s) h in
    rw (digits-Plain s rest) (ground arith)

micros-Plain : (m : Text) → is_timestamp_micros m ≡ true → Plain m
micros-Plain [] h = refl
micros-Plain (c ∷ s) h = elim (Bool-cases (nat_eqb c b'-')) [
  | inl q ↦
      let (_, rest) = and-true (not (is_empty s)) (all is_digit s) (rw q at h) in
      rw (digits-Plain s rest) (ground arith)
  | inr q ↦
      let (here, rest) = and-true (is_digit c) (all is_digit s) (rw q at h) in
      rw (digits-Plain s rest) (ground arith)
]

positioned-Plain :
    (make : Text → Text → SortTuple) (m i : Text) (s : SortTuple)
    → positioned make (micros_of (some (string m))) (uuid_of (some (string i))) ≡ ok s
    → Plain m × Plain i
unfolding uuid_of
positioned-Plain make m i s h = elim (Bool-cases (is_timestamp_micros m)) [
  | inl p ↦ elim (Bool-cases (is_uuid b'8' i)) [
    | inl q ↦ (micros-Plain m p, is_uuid_plain i q)
    | inr q ↦ absurd (cc (rw (p, q) at h))
  ]
  | inr p ↦ absurd (cc (rw p at h))
]

feed-Plain :
    (d : Json) (i : Text) (s : SortTuple)
    → (or_throw (distance_of (some d)) (cursor_error malformed) >>= λ found.
        or_throw (uuid_of (some (string i))) (cursor_error malformed) >>= λ id.
        ok (feed_sort found id))
      ≡ ok s
    → Plain i
unfolding uuid_of
feed-Plain d i s h = elim (Bool-cases (is_uuid b'8' i)) [
  | inl q ↦ is_uuid_plain i q
  | inr q ↦ elim (Option-cases (distance_of (some d))) [
    | inl n ↦ absurd (cc (rw (q, n) at h))
    | inr (e, n) ↦ absurd (cc (rw (q, n) at h))
  ]
]

no_id :
    {A : Type 0} (make : Text → Text → SortTuple) (micros : Option Text) {s : SortTuple}
    → positioned make micros (uuid_of none) ≡ ok s
    → A
unfolding uuid_of
no_id make none h = absurd (cc h)
no_id make (some m) h = absurd (cc h)

parsed-PlainSort :
    (resource : Resource) (sort s : SortTuple)
    → parse_sort_tuple resource (sort_json sort) ≡ ok s
    → PlainSort sort
unfolding parse_sort_tuple text_eqb
parsed-PlainSort profile_feed (feed_sort d i) s h = feed-Plain d i s h
parsed-PlainSort profile_feed (conversation_sort m i) s h = absurd (cc h)
parsed-PlainSort profile_feed (message_sort m i) s h = absurd (cc h)
parsed-PlainSort profile_feed (notification_sort m i) s h = absurd (cc h)
parsed-PlainSort chat_conversations (feed_sort d i) s h = absurd (cc h)
parsed-PlainSort chat_conversations (conversation_sort m i) s h =
    positioned-Plain conversation_sort m i s h
parsed-PlainSort chat_conversations (message_sort m i) s h = absurd (cc h)
parsed-PlainSort chat_conversations (notification_sort m i) s h = absurd (cc h)
parsed-PlainSort chat_messages (feed_sort d i) s h = absurd (cc h)
parsed-PlainSort chat_messages (conversation_sort m i) s h = absurd (cc h)
parsed-PlainSort chat_messages (message_sort m i) s h = positioned-Plain message_sort m i s h
parsed-PlainSort chat_messages (notification_sort m i) s h =
    no_id message_sort (micros_of (some (string m))) h
parsed-PlainSort notifications (feed_sort d i) s h = absurd (cc h)
parsed-PlainSort notifications (conversation_sort m i) s h = absurd (cc h)
parsed-PlainSort notifications (message_sort m i) s h =
    no_id notification_sort (micros_of (some (string m))) h
parsed-PlainSort notifications (notification_sort m i) s h =
    positioned-Plain notification_sort m i s h

alphabet-Plain : (s : Text) → all is_base64_unit s ≡ true → Plain s
unfolding is_base64_unit
alphabet-Plain [] h = refl
alphabet-Plain (c ∷ s) h =
    let (here, rest) = and-true (is_base64_unit c) (all is_base64_unit s) h in
    rw (alphabet-Plain s rest) (ground arith)

module _ (to_number : Text → Json) where
  -- What is read of a printed sort tuple.
  sort_read :
      (sort : SortTuple)
      → PlainSort sort
      → ReadableSort to_number sort
      → (n : ℕ) (rest : Text)
      → read_value to_number (suc (suc (suc (suc n)))) (stringify_sort sort ++ b',' ∷ rest)
        ≡ some (sort_json sort, b',' ∷ rest)
  unfolding text_eqb
  sort_read (feed_sort d i) h r n rest =
      let shown = λ (e : Json). stringify_sort (feed_sort e i) ++ b',' ∷ rest in
      ap (λ e. read_value to_number (suc (suc (suc (suc n)))) (shown e)) r.shape
      ∙ ap (read_value to_number (suc (suc (suc (suc n))))) (
          rw
            (
              quote_plain (text "distanceMeters") refl,
              quote_plain (text "profileId") refl,
              quote_plain i h,
            )
            (simp append_assoc))
      ∙ feed_value to_number n r.c r.s i (b',' ∷ rest) r.digit r.units r.valid h
      ∙ ap (λ e. some (sort_json (feed_sort e i), b',' ∷ rest)) (r.denoted ∙ sym r.shape)
  sort_read (conversation_sort m i) (hm, hi) r n rest =
      ap (λ t. read_value to_number (suc (suc (suc (suc n)))) (t ++ b',' ∷ rest))
        (two_shown-Plain (text "sortAtMicros") m (text "conversationId") i refl hm refl hi)
      ∙ quoted_sort to_number n (text "sortAtMicros") m (text "conversationId") i (b',' ∷ rest) refl
          hm refl hi refl
  sort_read (message_sort m i) (hm, hi) r n rest =
      ap (λ t. read_value to_number (suc (suc (suc (suc n)))) (t ++ b',' ∷ rest))
        (two_shown-Plain (text "createdAtMicros") m (text "messageId") i refl hm refl hi)
      ∙ quoted_sort to_number n (text "createdAtMicros") m (text "messageId") i (b',' ∷ rest) refl
          hm refl hi refl
  sort_read (notification_sort m i) (hm, hi) r n rest =
      ap (λ t. read_value to_number (suc (suc (suc (suc n)))) (t ++ b',' ∷ rest))
        (two_shown-Plain (text "createdAtMicros") m (text "notificationId") i refl hm refl hi)
      ∙ quoted_sort to_number n (text "createdAtMicros") m (text "notificationId") i (b',' ∷ rest)
          refl hm refl hi refl

  -- JSON.parse reads a payload back that JSON.stringify printed.
  pub parse-payload_text :
      (one : to_number (text "1") ≡ number (text "1")) (direction : Direction) (resource : Resource)
      (sort s : SortTuple) (print : Text)
      → parse_sort_tuple resource (sort_json sort) ≡ ok s
      → ReadableSort to_number sort
      → all is_base64_unit print ≡ true
      → parse to_number (payload_text direction resource sort print)
        ≡ some (payload_json direction resource sort print)
  parse-payload_text one direction resource sort s print parsed readable h =
      ap (parse to_number)
        (payload_text-Plain direction resource sort print (alphabet-Plain print h))
      ∙ payload_read to_number one direction resource (stringify_sort sort) print (sort_json sort)
          (sort_read sort (parsed-PlainSort resource sort s parsed) readable)
          (alphabet-Plain print h)

module _ (hmac : (secret message : Text) → List ℕ) (to_number : Text → Json) (utf8 : Text → List ℕ)
    (from_utf8 : List ℕ → Text) (digest-Bytes : (s m : Text) → Bytes (hmac s m))
    (digest_filled : (s m : Text) → is_empty (hmac s m) ≡ false)
    (utf8-Bytes : (s : Text) → Bytes (utf8 s))
    (utf8_filled : (c : ℕ) (s : Text) → is_empty (utf8 (c ∷ s)) ≡ false)
    (one : to_number (text "1") ≡ number (text "1")) where
  fingerprint_of_alphabet :
      (secret print : Text) (canonicalized : Option Text)
      → fingerprint_of hmac secret canonicalized ≡ ok print
      → all is_base64_unit print ≡ true
  fingerprint_of_alphabet secret print none h = absurd (cc h)
  fingerprint_of_alphabet secret print (some c) h =
      let printed = to_base64 (hmac secret (context_fingerprint_domain ++ 0 ∷ c)) in
      let same : printed ≡ print = ok_inj (fingerprint_of hmac secret (some c)) refl h in
      subst (λ s. all is_base64_unit s ≡ true) same (to_base64_alphabet _ (digest-Bytes _ _))

  -- A cursor of at most 8192 units that a codec has encoded is decoded to its sort tuple, for the same
  -- context, direction and resource, by every codec that has the signing secret among its secrets and
  -- no other that signs the payload in the same way. HMAC digests and encoded strings are bytes and not
  -- empty; decoding the payload's bytes gives its text again; 1 denotes one, and the distance of a
  -- feed's tuple is printed as a number without a sign that denotes it.
  pub decode-encode_printed :
      (secret : Text) (older keys : List Text) (context : Json) (direction : Direction)
      (resource : Resource) (sort : SortTuple) (print cursor : Text)
      → encode hmac utf8 (secret ∷ older) context direction resource sort ≡ ok cursor
      → context_fingerprint hmac context direction resource secret ≡ ok print
      → from_utf8 (utf8 (payload_text direction resource sort print))
        ≡ payload_text direction resource sort print
      → ReadableSort to_number sort
      → length cursor ≤ 8192
      → Memᴰ secret keys
      → ((k : Text)
          → Memᴰ k keys
          → sign hmac (to_base64 (utf8 (payload_text direction resource sort print))) k
            ≡ sign hmac (to_base64 (utf8 (payload_text direction resource sort print))) secret
          → k ≡ secret)
      → decode hmac
          (λ bytes. parse to_number (from_utf8 bytes))
          keys
          context
          direction
          resource
          cursor
        ≡ ok sort
  unfolding context_fingerprint
  decode-encode_printed secret older keys context direction resource sort print cursor encoded
        printed back readable short among alone =
      let e = encode_lem hmac utf8 secret older context direction resource sort cursor encoded in
      let (s, parsed) = e.parsed in
      decode-encode hmac (λ bytes. parse to_number (from_utf8 bytes)) utf8 digest-Bytes
        digest_filled utf8-Bytes utf8_filled secret older keys context direction resource sort print
        cursor encoded printed
        (ap (parse to_number) back
          ∙ parse-payload_text to_number one direction resource sort s print parsed readable
              (fingerprint_of_alphabet secret print _ printed))
        short among alone

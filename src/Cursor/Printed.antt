-- ===== src/Cursor/Printed.antt =====
-- JSON.parse reads back the payload that JSON.stringify printed.
use euphoria_api.Base.{
  ℕ, suc, ◌≡◌, refl, ◌∙◌, ap, true, false, [], ◌∷◌, ◌++◌, some, Text, text, text_eqb, all,
  is_plain_unit, and-true, ltb, nat_eqb, arith,
}
use mathlib.Core.List.{append_assoc}
use euphoria_api.Commands.Json.{
  Json, Fields, string, number, object, no_fields, field, quote, quote_plain,
}
use euphoria_api.Cursor.Payload.{
  Resource, chat_conversations, chat_messages, notifications, profile_feed, Direction, next,
  previous, resource_text, direction_text, SortTuple, stringify_pair, stringify_pairs,
  stringify_sort,
}
use euphoria_api.Cursor.Codec.{payload_text}
use euphoria_api.Cursor.Parse.{
  call_bound, whole, is_json_space, is_digit, read_key, read_value, read_members, has_field, plain,
  read_units, number_run, is_number_unit, is_number_text, parse,
}

abbrev pub Plain : Text → Type 0
Plain s = all is_plain_unit s ≡ true

resource-Plain : (r : Resource) → Plain (resource_text r)
resource-Plain chat_conversations = refl
resource-Plain chat_messages = refl
resource-Plain notifications = refl
resource-Plain profile_feed = refl

direction-Plain : (d : Direction) → Plain (direction_text d)
direction-Plain next = refl
direction-Plain previous = refl

-- A plain string is read up to its closing quote.
read_units-Plain : (s rest : Text) → Plain s → read_units plain (s ++ b'"' ∷ rest) ≡ some (s, rest)
unfolding read_units
read_units-Plain [] rest h = refl
read_units-Plain (c ∷ s) rest h =
    let (here, others) = and-true (is_plain_unit c) (all is_plain_unit s) h in
    let no_quote : nat_eqb c b'"' ≡ false = ground arith in
    let no_backslash : nat_eqb c b'\\' ≡ false = ground arith in
    let visible : ltb c 0x20 ≡ false = ground arith in
    rw (no_quote, no_backslash, visible, read_units-Plain s rest others) refl

-- The payload around a sort tuple that is printed as `shown`.
abbrev pub around : Direction → Resource → (shown print : Text) → Text
around direction resource shown print =
    text "{\"version\":1,\"resource\":\""
    ++ (resource_text resource
        ++ (text "\",\"direction\":\""
            ++ (direction_text direction
                ++ (text "\",\"sort\":"
                    ++ (shown ++ (text ",\"fingerprint\":\"" ++ (print ++ text "\"}")))))))

pub payload_text-Plain :
    (direction : Direction) (resource : Resource) (sort : SortTuple) (print : Text)
    → Plain print
    → payload_text direction resource sort print
      ≡ around direction resource (stringify_sort sort) print
unfolding payload_text
payload_text-Plain direction resource sort print h =
    rw
      (
        quote_plain (text "version") refl,
        quote_plain (text "resource") refl,
        quote_plain (text "direction") refl,
        quote_plain (text "sort") refl,
        quote_plain (text "fingerprint") refl,
        quote_plain (resource_text resource) (resource-Plain resource),
        quote_plain (direction_text direction) (direction-Plain direction),
        quote_plain print h,
      )
      (simp append_assoc)

-- Two quoted fields.
abbrev pub two_shown : (key value other shown : Text) → Text
two_shown key value other shown =
    text "{\""
    ++ (key
        ++ (text "\":\""
            ++ (value ++ (text "\",\"" ++ (other ++ (text "\":\"" ++ (shown ++ text "\"}")))))))

pub two_shown-Plain :
    (key value other shown : Text)
    → Plain key
    → Plain value
    → Plain other
    → Plain shown
    → stringify_pairs (stringify_pair key (quote value) ∷ stringify_pair other (quote shown) ∷ [])
      ≡ two_shown key value other shown
two_shown-Plain key value other shown h h' k k' =
    rw (quote_plain key h, quote_plain value h', quote_plain other k, quote_plain shown k')
      (simp append_assoc)

two_shown-append :
    (key value other shown rest : Text)
    → two_shown key value other shown ++ rest
      ≡ text "{\""
        ++ (key
            ++ (text "\":\""
                ++ (value
                    ++ (text "\",\""
                        ++ (other ++ (text "\":\"" ++ (shown ++ (text "\"}" ++ rest))))))))
two_shown-append key value other shown rest = simp append_assoc

abbrev pub payload_with : Direction → Resource → (sort : Json) (print : Text) → Json
payload_with direction resource sort print = object (
    field (text "version") (number (text "1")) (
      field (text "resource") (string (resource_text resource)) (
        field (text "direction") (string (direction_text direction))
          (field (text "sort") sort (field (text "fingerprint") (string print) no_fields)))))

read_key-Plain :
    (s rest : Text) → Plain s → read_key (b'"' ∷ s ++ b'"' ∷ b':' ∷ rest) ≡ some (s, rest)
unfolding read_key
read_key-Plain s rest h = rw (read_units-Plain s (b':' ∷ rest) h) refl

module _ (to_number : Text → Json) where
  string_value :
      (n : ℕ) (s rest : Text)
      → Plain s
      → read_value to_number (suc n) (b'"' ∷ s ++ b'"' ∷ rest) ≡ some (string s, rest)
  unfolding read_value
  string_value n s rest h = rw (read_units-Plain s rest h) refl

  object_value :
      (n : ℕ) (r after : Text) (fs : Fields)
      → read_members to_number n (b'"' ∷ r) ≡ some (fs, after)
      → read_value to_number (suc n) (b'{' ∷ b'"' ∷ r) ≡ some (object fs, after)
  unfolding read_value
  object_value n r after fs h = rw h refl

  member_more :
      (n : ℕ) (s k s1 s2 s3 : Text) (v : Json) (fs : Fields)
      → read_key s ≡ some (k, s1)
      → read_value to_number n s1 ≡ some (v, b',' ∷ s2)
      → read_members to_number n s2 ≡ some (fs, s3)
      → has_field k fs ≡ false
      → read_members to_number (suc n) s ≡ some (field k v fs, s3)
  unfolding read_members
  member_more n s k s1 s2 s3 v fs h h' h'' apart = rw (read_members, h, h', h'', apart) refl

  member_last :
      (n : ℕ) (s k s1 s2 : Text) (v : Json)
      → read_key s ≡ some (k, s1)
      → read_value to_number n s1 ≡ some (v, b'}' ∷ s2)
      → read_members to_number (suc n) s ≡ some (field k v no_fields, s2)
  unfolding read_members
  member_last n s k s1 s2 v h h' = rw (read_members, h, h') refl

  pub quoted_sort :
      (n : ℕ) (key value other shown rest : Text)
      → Plain key
      → Plain value
      → Plain other
      → Plain shown
      → text_eqb other key ≡ false
      → read_value to_number (suc (suc (suc (suc n)))) (two_shown key value other shown ++ rest)
        ≡ some (object (field key (string value) (field other (string shown) no_fields)), rest)
  unfolding has_field
  quoted_sort n key value other shown rest hk hv ho hs apart =
      ap (read_value to_number (suc (suc (suc (suc n)))))
        (two_shown-append key value other shown rest)
      ∙ object_value (suc (suc (suc n))) _ rest _ (
          member_more (suc (suc n)) _ key _ _ rest (string value) _ (read_key-Plain key _ hk)
            (string_value (suc n) value _ hv)
            (member_last (suc n) _ other _ rest (string shown) (read_key-Plain other _ ho)
              (string_value n shown _ hs))
            (rw apart refl))

  number_run-all :
      (s rest : Text)
      → all is_number_unit s ≡ true
      → number_run (s ++ b',' ∷ rest) ≡ (s, b',' ∷ rest)
  unfolding number_run
  number_run-all [] rest h = refl
  number_run-all (c ∷ s) rest h =
      let (here, others) = and-true (is_number_unit c) (all is_number_unit s) h in
      rw (here, number_run-all s rest others) refl

  number_value :
      (n c : ℕ) (s rest : Text)
      → is_digit c ≡ true
      → all is_number_unit s ≡ true
      → is_number_text (c ∷ s) ≡ true
      → read_value to_number (suc n) (c ∷ s ++ b',' ∷ rest) ≡ some (to_number (c ∷ s), b',' ∷ rest)
  unfolding read_value
  number_value n c s rest h hs valid =
      let no_space : is_json_space c ≡ false = ground arith in
      let a : nat_eqb c b'{' ≡ false = ground arith in
      let b : nat_eqb c b'[' ≡ false = ground arith in
      let d : nat_eqb c b'"' ≡ false = ground arith in
      let e : nat_eqb c b't' ≡ false = ground arith in
      let f : nat_eqb c b'f' ≡ false = ground arith in
      let g : nat_eqb c b'n' ≡ false = ground arith in
      let run : number_run (c ∷ s ++ b',' ∷ rest) ≡ (c ∷ s, b',' ∷ rest) =
        number_run-all (c ∷ s) rest (rw hs (ground arith)) in
      rw (read_value, no_space, a, b, d, e, f, g, run, valid) refl

  pub feed_value :
      (n c : ℕ) (s i rest : Text)
      → is_digit c ≡ true
      → all is_number_unit s ≡ true
      → is_number_text (c ∷ s) ≡ true
      → Plain i
      → read_value to_number (suc (suc (suc (suc n)))) (
          text "{\"distanceMeters\":"
          ++ (c ∷ s ++ (b',' ∷ (text "\"profileId\":\"" ++ (i ++ (text "\"}" ++ rest))))))
        ≡ some (
          object (
              field
                (text "distanceMeters")
                (to_number (c ∷ s))
                (field (text "profileId") (string i) no_fields)),
          rest,
        )
  unfolding has_field text_eqb
  feed_value n c s i rest h hs valid hi = object_value (suc (suc (suc n))) _ rest _ (
      member_more (suc (suc n)) _ (text "distanceMeters") _ _ rest (to_number (c ∷ s)) _
        (read_key-Plain (text "distanceMeters") _ refl) (number_value (suc n) c s _ h hs valid)
        (member_last (suc n) _ (text "profileId") _ rest (string i)
          (read_key-Plain (text "profileId") _ refl) (string_value n i _ hi))
        refl)

  -- The members of a payload are read back where its sort tuple is.
  members_read :
      (one : to_number (text "1") ≡ number (text "1")) (n : ℕ) (direction : Direction)
      (resource : Resource) (shown print : Text) (sort : Json)
      → ((n : ℕ) (rest : Text)
          → read_value to_number (suc (suc (suc (suc n)))) (shown ++ b',' ∷ rest)
            ≡ some (sort, b',' ∷ rest))
      → Plain print
      → read_value to_number
          (suc (suc (suc (suc (suc (suc (suc (suc (suc n)))))))))
          (around direction resource shown print)
        ≡ some (payload_with direction resource sort print, [])
  unfolding has_field text_eqb is_number_text
  members_read one n direction resource shown print sort read hp =
      let k4 = suc (suc (suc n)) in
      let k3 = suc k4 in
      let k2 = suc k3 in
      let k1 = suc k2 in
      let k0 = suc k1 in
      let t_print = text "\"fingerprint\":\"" ++ (print ++ text "\"}") in
      let t_sort = text "\"sort\":" ++ (shown ++ b',' ∷ t_print) in
      let t_direction =
        text "\"direction\":\"" ++ (direction_text direction ++ (b'"' ∷ b',' ∷ t_sort)) in
      let t_resource =
        text "\"resource\":\"" ++ (resource_text resource ++ (b'"' ∷ b',' ∷ t_direction)) in
      let f_print = field (text "fingerprint") (string print) no_fields in
      let f_sort = field (text "sort") sort f_print in
      let f_direction = field (text "direction") (string (direction_text direction)) f_sort in
      let f_resource = field (text "resource") (string (resource_text resource)) f_direction in
      let r_print : read_members to_number k3 t_print ≡ some (f_print, []) =
        member_last k4 t_print (text "fingerprint") (b'"' ∷ print ++ text "\"}") [] (string print)
          (read_key-Plain (text "fingerprint") (b'"' ∷ print ++ text "\"}") refl)
          (string_value (suc (suc n)) print (text "}") hp) in
      let r_sort : read_members to_number k2 t_sort ≡ some (f_sort, []) =
        member_more k3 t_sort (text "sort") (shown ++ b',' ∷ t_print) t_print [] sort f_print
          (read_key-Plain (text "sort") (shown ++ b',' ∷ t_print) refl) (read n t_print) r_print
          refl in
      let r_direction : read_members to_number k1 t_direction ≡ some (f_direction, []) =
        member_more k2 t_direction (text "direction")
          (b'"' ∷ direction_text direction ++ (b'"' ∷ b',' ∷ t_sort)) t_sort []
          (string (direction_text direction)) f_sort
          (read_key-Plain (text "direction")
            (b'"' ∷ direction_text direction ++ (b'"' ∷ b',' ∷ t_sort)) refl)
          (string_value k3 (direction_text direction) (b',' ∷ t_sort) (direction-Plain direction))
          r_sort refl in
      let r_resource : read_members to_number k0 t_resource ≡ some (f_resource, []) =
        member_more k1 t_resource (text "resource")
          (b'"' ∷ resource_text resource ++ (b'"' ∷ b',' ∷ t_direction)) t_direction []
          (string (resource_text resource)) f_direction
          (read_key-Plain (text "resource")
            (b'"' ∷ resource_text resource ++ (b'"' ∷ b',' ∷ t_direction)) refl)
          (string_value k2 (resource_text resource) (b',' ∷ t_direction) (resource-Plain resource))
          r_direction refl in
      object_value (suc k0) (text "version\":1," ++ t_resource) []
        (field (text "version") (number (text "1")) f_resource)
        (member_more k0 (text "\"version\":1," ++ t_resource) (text "version")
          (text "1," ++ t_resource) t_resource [] (number (text "1")) f_resource
          (read_key-Plain (text "version") (text "1," ++ t_resource) refl)
          (number_value k1 b'1' [] t_resource refl refl refl
            ∙ ap (λ v. some (v, b',' ∷ t_resource)) one)
          r_resource refl)

  -- The bound on the calls is large enough for the calls that a payload needs.
  enough :
      (direction : Direction) (resource : Resource) (shown print : Text)
      → (n : ℕ) × (call_bound (around direction resource shown print)
          ≡ suc (suc (suc (suc (suc (suc (suc (suc (suc n)))))))))
  unfolding call_bound
  enough direction resource shown print = (_, refl)

  pub payload_read :
      (one : to_number (text "1") ≡ number (text "1")) (direction : Direction) (resource : Resource)
      (shown print : Text) (sort : Json)
      → ((n : ℕ) (rest : Text)
          → read_value to_number (suc (suc (suc (suc n)))) (shown ++ b',' ∷ rest)
            ≡ some (sort, b',' ∷ rest))
      → Plain print
      → parse to_number (around direction resource shown print)
        ≡ some (payload_with direction resource sort print)
  unfolding parse
  payload_read one direction resource shown print sort read hp =
      let (n, bound) = enough direction resource shown print in
      ap (λ b. whole (read_value to_number b (around direction resource shown print))) bound
      ∙ ap (whole) (members_read one n direction resource shown print sort read hp)

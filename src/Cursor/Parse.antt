-- ===== src/Cursor/Parse.antt =====
-- JSON.parse, on the units of a string. `to_number` is the value that a number literal denotes.
use euphoria_api.Base.{
  ℕ, zero, suc, ◌+◌, ◌-◌, ◌*◌, Bool, true, false, ◌&&◌, ◌||◌, [], ◌∷◌, Option, none, some, Text,
  text, text_eq, text_eqb, is_empty, leb, ltb, nat_eqb, if◌then◌else◌,
}
use euphoria_api.Commands.Json.{
  Json, null, boolean, string, array, object, Entries, no_entries, entry, Fields, no_fields, field,
}

abbrev pub is_json_space : ℕ → Bool
is_json_space c = nat_eqb c 0x20 || nat_eqb c 9 || nat_eqb c 10 || nat_eqb c 13

unfoldable pub skip_space : Text → Text
skip_space [] = []
skip_space (c ∷ s) = let rest = skip_space s in if is_json_space c then rest else c ∷ s

-- Inside a string: after plain units, after a backslash, and after some digits of \uXXXX.
pub data Mode : Type 0 where
  plain escape : Mode
  hex : (digits value : ℕ) → Mode

abbrev pub hex_value : ℕ → Option ℕ
hex_value c =
    if leb b'0' c && leb c b'9'
    then some (c - b'0')
    else if leb b'a' c && leb c b'f'
    then some (c - b'a' + 10)
    else if leb b'A' c && leb c b'F'
    then some (c - b'A' + 10)
    else none

abbrev pub escaped : ℕ → Option ℕ
escaped c =
    if nat_eqb c b'"' || nat_eqb c b'\\' || nat_eqb c b'/'
    then some c
    else if nat_eqb c b'b'
    then some 8
    else if nat_eqb c b'f'
    then some 12
    else if nat_eqb c b'n'
    then some 10
    else if nat_eqb c b'r'
    then some 13
    else if nat_eqb c b't'
    then some 9
    else none

abbrev pub cons_unit : Option ℕ → Option (Text × Text) → Option (Text × Text)
cons_unit none rest = none
cons_unit (some c) none = none
cons_unit (some c) (some r) = some (c ∷ r.0, r.1)

abbrev pub hex_next : Option ℕ → (ℕ → Option (Text × Text)) → Option (Text × Text)
hex_next none next = none
hex_next (some d) next = next d

-- The units of a string up to its closing quote, and the text after it.
unfoldable pub read_units : Mode → Text → Option (Text × Text)
read_units mode [] = none
read_units plain (c ∷ s) =
    let more = read_units plain s in
    let after_backslash = read_units escape s in
    if nat_eqb c b'"'
    then some ([], s)
    else if nat_eqb c b'\\'
    then after_backslash
    else if ltb c 0x20
    then none
    else cons_unit (some c) more
read_units escape (c ∷ s) =
    let more = read_units plain s in
    let digits = read_units (hex 0 0) s in
    if nat_eqb c b'u' then digits else cons_unit (escaped c) more
read_units (hex n v) (c ∷ s) = hex_next (hex_value c) (λ d.
    let more = read_units plain s in
    let digits = read_units (hex (n + 1) (v * 16 + d)) s in
    if nat_eqb n 3 then cons_unit (some (v * 16 + d)) more else digits)

-- A number literal: its units, and whether they are one.
abbrev pub is_number_unit : ℕ → Bool
is_number_unit c =
    (leb b'0' c && leb c b'9')
    || nat_eqb c b'-'
    || nat_eqb c b'+'
    || nat_eqb c b'.'
    || nat_eqb c b'e'
    || nat_eqb c b'E'

unfoldable pub number_run : Text → Text × Text
number_run [] = ([], [])
number_run (c ∷ s) =
    let more = number_run s in if is_number_unit c then (c ∷ more.0, more.1) else ([], c ∷ s)

pub data NumberState : Type 0 where
  at_start after_minus after_zero in_integer after_dot in_fraction after_e after_sign in_exponent :
      NumberState

abbrev pub is_digit : ℕ → Bool
is_digit c = leb b'0' c && leb c b'9'

abbrev pub starts_exponent : ℕ → Option NumberState
starts_exponent c = if nat_eqb c b'e' || nat_eqb c b'E' then some after_e else none

abbrev pub integer_from : ℕ → Option NumberState
integer_from c =
    if nat_eqb c b'0' then some after_zero else if is_digit c then some in_integer else none

abbrev pub number_step : NumberState → ℕ → Option NumberState
number_step at_start c = if nat_eqb c b'-' then some after_minus else integer_from c
number_step after_minus c = integer_from c
number_step after_zero c = if nat_eqb c b'.' then some after_dot else starts_exponent c
number_step in_integer c =
    if is_digit c
    then some in_integer
    else if nat_eqb c b'.'
    then some after_dot
    else starts_exponent c
number_step after_dot c = if is_digit c then some in_fraction else none
number_step in_fraction c = if is_digit c then some in_fraction else starts_exponent c
number_step after_e c =
    if nat_eqb c b'+' || nat_eqb c b'-'
    then some after_sign
    else if is_digit c
    then some in_exponent
    else none
number_step after_sign c = if is_digit c then some in_exponent else none
number_step in_exponent c = if is_digit c then some in_exponent else none

abbrev pub is_final : NumberState → Bool
is_final after_zero = true
is_final in_integer = true
is_final in_fraction = true
is_final in_exponent = true
is_final other = false

unfoldable pub is_number_from : Option NumberState → Text → Bool
is_number_from none s = false
is_number_from (some q) [] = is_final q
is_number_from (some q) (c ∷ s) = is_number_from (number_step q c) s

unfoldable pub is_number_text : Text → Bool
unfolding is_number_from
is_number_text s = is_number_from (some at_start) s

-- What stands at the start of a value, and the text after it.
pub data Token : Type 0 where
  opens_object opens_array opens_string : Text → Token
  constant : Json → Text → Token
  digits : (literal : Text) (rest : Text) → Token
  no_value : Token

-- The text after a word.
unfoldable pub after_word : Text → Text → Option Text
after_word [] s = some s
after_word (c ∷ w) [] = none
after_word (c ∷ w) (d ∷ s) = let rest = after_word w s in if nat_eqb c d then rest else none

abbrev pub or_none : Json → Option Text → Token
or_none v none = no_value
or_none v (some rest) = constant v rest

unfoldable pub token_at : Text → Token
token_at [] = no_value
token_at (c ∷ s) =
    let run = number_run (c ∷ s) in
    if nat_eqb c b'{'
    then opens_object s
    else if nat_eqb c b'['
    then opens_array s
    else if nat_eqb c b'"'
    then opens_string s
    else if nat_eqb c b't'
    then or_none (boolean true) (after_word (text "rue") s)
    else if nat_eqb c b'f'
    then or_none (boolean false) (after_word (text "alse") s)
    else if nat_eqb c b'n'
    then or_none null (after_word (text "ull") s)
    else digits run.0 run.1

-- Between members: the closing bracket, a comma, or neither.
pub data Separator : Type 0 where
  ends more : Text → Separator
  wrong : Separator

abbrev pub separator_at : ℕ → Text → Separator
separator_at close [] = wrong
separator_at close (c ∷ s) =
    if nat_eqb c close then ends s else if nat_eqb c b',' then more s else wrong

abbrev pub closes_at : ℕ → Text → Option Text
closes_at close [] = none
closes_at close (c ∷ s) = if nat_eqb c close then some s else none

abbrev pub after_colon : Option (Text × Text) → Option (Text × Text)
after_colon none = none
after_colon (some (key, s)) = elim (closes_at b':' (skip_space s)) [
  | none ↦ none
  | some rest ↦ some (key, rest)
]

abbrev pub key_after : Option Text → Option (Text × Text)
key_after none = none
key_after (some s) = after_colon (read_units plain s)

-- a quoted key and the colon
unfoldable pub read_key : Text → Option (Text × Text)
unfolding skip_space
read_key s = key_after (closes_at b'"' (skip_space s))

unfoldable pub has_field : Text → Fields → Bool
unfolding text_eqb
has_field k no_fields = false
has_field k (field l v rest) = text_eqb l k || has_field k rest

-- A later member of the same name takes the place of an earlier one.
abbrev pub set_field : Text → Json → Fields → Fields
set_field k v rest = if has_field k rest then rest else field k v rest

abbrev pub string_from : Option (Text × Text) → Option (Json × Text)
string_from none = none
string_from (some (s, rest)) = some (string s, rest)

-- Two calls may be made for each unit.
unfoldable pub call_bound : Text → ℕ
call_bound [] = 2
call_bound (c ∷ s) = suc (suc (call_bound s))

abbrev pub whole : Option (Json × Text) → Option Json
whole none = none
whole (some (v, rest)) = if is_empty (skip_space rest) then some v else none

module _ (to_number : Text → Json) where
  abbrev pub number_from : Text → Text → Option (Json × Text)
  number_from literal rest = if is_number_text literal then some (to_number literal, rest) else none

  -- The first argument bounds the depth of the calls.
  unfoldable mutual
    unfolding skip_space token_at

    pub read_value : ℕ → Text → Option (Json × Text)
    read_value zero s = none
    read_value (suc n) s = elim (token_at (skip_space s)) [
      | opens_object rest ↦ elim (closes_at b'}' (skip_space rest)) [
        | some after ↦ some (object no_fields, after)
        | none ↦ elim (read_members n rest) [
          | none ↦ none
          | some (fields, after) ↦ some (object fields, after)
        ]
      ]
      | opens_array rest ↦ elim (closes_at b']' (skip_space rest)) [
        | some after ↦ some (array no_entries, after)
        | none ↦ elim (read_entries n rest) [
          | none ↦ none
          | some (entries, after) ↦ some (array entries, after)
        ]
      ]
      | opens_string rest ↦ string_from (read_units plain rest)
      | constant v rest ↦ some (v, rest)
      | digits literal rest ↦ number_from literal rest
      | no_value ↦ none
    ]

    pub read_members : ℕ → Text → Option (Fields × Text)
    read_members zero s = none
    read_members (suc n) s = elim (read_key s) [
      | none ↦ none
      | some (key, rest) ↦ elim (read_value n rest) [
        | none ↦ none
        | some (v, after) ↦ elim (separator_at b'}' (skip_space after)) [
          | ends end ↦ some (field key v no_fields, end)
          | more next ↦ elim (read_members n next) [
            | none ↦ none
            | some (fields, end) ↦ some (set_field key v fields, end)
          ]
          | wrong ↦ none
        ]
      ]
    ]

    pub read_entries : ℕ → Text → Option (Entries × Text)
    read_entries zero s = none
    read_entries (suc n) s = elim (read_value n s) [
      | none ↦ none
      | some (v, after) ↦ elim (separator_at b']' (skip_space after)) [
        | ends end ↦ some (entry v no_entries, end)
        | more next ↦ elim (read_entries n next) [
          | none ↦ none
          | some (entries, end) ↦ some (entry v entries, end)
        ]
        | wrong ↦ none
      ]
    ]

  -- JSON.parse; `none` is the SyntaxError.
  unfoldable pub parse : Text → Option Json
  unfolding read_value call_bound skip_space
  parse s = whole (read_value (call_bound s) s)

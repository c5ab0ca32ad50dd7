-- ===== src/Commands/Json.antt =====
-- JSON values and their canonical text: canonicalizeJsonValue and canonicalizeCommandRequest of
-- src/services/command-idempotency-service.ts, with the parts of JSON.stringify they call.
use euphoria_api.Base.{
  is_plain_unit, ℕ, zero, suc, ◌+◌, ◌-◌, ◌*◌, ◌/◌, Bool, true, false, ◌&&◌, ◌||◌, List, [], ◌∷◌,
  ◌++◌, map, Option, none, some, Text, text, leb, ltb, nat_eqb, if◌then◌else◌, all, ◌≡◌, refl,
  and-true, arith,
}
use euphoria_api.Sql.{order_by}

-- A value that may be passed where JSON is expected. A number is given by its text; `not_json` is
-- undefined, a function, a symbol or a bigint, `exotic` an object of another prototype, and
-- `cyclic` a value met again below itself.
mutual
  pub data Json : Type 0 where
    null : Json
    boolean : Bool → Json
    string : Text → Json
    number : Text → Json
    negative_zero : Json
    not_finite : Json
    not_json : Json
    exotic : Json
    cyclic : Json
    array : Entries → Json
    object : Fields → Json

  pub data Entries : Type 0 where
    no_entries : Entries
    entry : Json → Entries → Entries

  pub data Fields : Type 0 where
    no_fields : Fields
    field : Text → Json → Fields → Fields

abbrev hex_digit : ℕ → ℕ
hex_digit n = if ltb n 10 then b'0' + n else b'a' + (n - 10)

abbrev escaped_unit : ℕ → Text
escaped_unit c =
    text "\\u"
    ++ hex_digit (c / 4096)
      ∷ hex_digit (c / 256 - 16 * (c / 4096))
      ∷ hex_digit (c / 16 - 16 * (c / 256))
      ∷ hex_digit (c - 16 * (c / 16))
      ∷ []

abbrev is_low_surrogate : Text → Bool
is_low_surrogate [] = false
is_low_surrogate (c ∷ s) = leb 0xdc00 c && leb c 0xdfff

abbrev quoted_unit : ℕ → Text
quoted_unit c =
    if nat_eqb c b'"'
    then text "\\\""
    else if nat_eqb c b'\\'
    then text "\\\\"
    else if nat_eqb c 8
    then text "\\b"
    else if nat_eqb c 9
    then text "\\t"
    else if nat_eqb c 10
    then text "\\n"
    else if nat_eqb c 12
    then text "\\f"
    else if nat_eqb c 13
    then text "\\r"
    else if ltb c 32
    then escaped_unit c
    else c ∷ []

-- The inside of a quoted string; `high` when the last unit was a leading surrogate that has its
-- trailing one here. A surrogate alone is escaped.
unfoldable quote_units : Bool → Text → Text
quote_units high [] = []
quote_units high (c ∷ s) =
    let after_pair = quote_units true s in
    let after = quote_units false s in
    if leb 0xd800 c && leb c 0xdbff
    then (if is_low_surrogate s then c ∷ after_pair else escaped_unit c ++ after)
    else if leb 0xdc00 c && leb c 0xdfff
    then (if high then c ∷ after else escaped_unit c ++ after)
    else quoted_unit c ++ after

-- JSON.stringify of a string
unfoldable pub quote : Text → Text
unfolding quote_units
quote s = text "\"" ++ quote_units false s ++ text "\""

-- The order of `sort()`: by code units.
abbrev pub text_before : Text → Text → Bool
text_before [] t = true
text_before (a ∷ s) [] = false
text_before (a ∷ s) (b ∷ t) = ltb a b || (nat_eqb a b && text_before s t)

-- join(",")
abbrev pub join_commas : List Text → Text
join_commas [] = []
join_commas (x ∷ []) = x
join_commas (x ∷ y ∷ ys) = x ++ text "," ++ join_commas (y ∷ ys)

abbrev pub key_before : Text × Text → Text × Text → Bool
key_before x y = text_before x.0 y.0

abbrev pub print_fields : List (Text × Text) → Text
print_fields fields =
    text "{"
    ++ join_commas (map (λ f. quote f.0 ++ text ":" ++ f.1) (order_by key_before fields))
    ++ text "}"

infixl 5 ◌&>◌
abbrev pub ◌&>◌ : {A B : Type 0} → Option A → (A → Option B) → Option B
none &> f = none
some a &> f = f a

-- `none` is the TypeError. The fields are printed before they are sorted by their keys.
unfoldable mutual
  pub canonicalize : Json → Option Text
  canonicalize null = some (text "null")
  canonicalize (boolean b) = some (if b then text "true" else text "false")
  canonicalize (string s) = some (quote s)
  canonicalize (number digits) = some digits
  canonicalize negative_zero = some (text "0")
  canonicalize not_finite = none
  canonicalize not_json = none
  canonicalize exotic = none
  canonicalize cyclic = none
  canonicalize (array entries) =
      canonicalize_entries entries &> λ texts. some (text "[" ++ join_commas texts ++ text "]")
  canonicalize (object fields) = canonicalize_fields fields &> λ texts. some (print_fields texts)

  pub canonicalize_entries : Entries → Option (List Text)
  canonicalize_entries no_entries = some []
  canonicalize_entries (entry v rest) =
      canonicalize v &> λ first. canonicalize_entries rest &> λ texts. some (first ∷ texts)

  pub canonicalize_fields : Fields → Option (List (Text × Text))
  canonicalize_fields no_fields = some []
  canonicalize_fields (field key v rest) =
      canonicalize v &> λ first. canonicalize_fields rest &> λ texts. some ((key, first) ∷ texts)

-- The digits of a number below 10 ^ fuel.
unfoldable decimal_onto : ℕ → ℕ → Text → Text
decimal_onto zero n rest = rest
decimal_onto (suc fuel) n rest =
    let digit = b'0' + (n - 10 * (n / 10)) in
    let more = decimal_onto fuel (n / 10) (digit ∷ rest) in if ltb n 10 then digit ∷ rest else more

-- A safe integer has at most 16 digits.
unfoldable pub decimal : ℕ → Text
unfolding decimal_onto
decimal n = decimal_onto 16 n []

quoted_unit_plain : (c : ℕ) → is_plain_unit c ≡ true → quoted_unit c ≡ c ∷ []
quoted_unit_plain c h = ground arith

quote_units_plain : (high : Bool) (s : Text) → all is_plain_unit s ≡ true → quote_units high s ≡ s
unfolding quote_units
quote_units_plain high [] h = refl
quote_units_plain high (c ∷ s) h =
    let (here, rest) = and-true (is_plain_unit c) (all is_plain_unit s) h in
    let low : leb 0xd800 c ≡ false = ground arith in
    let lower : leb 0xdc00 c ≡ false = ground arith in
    rw (low, lower, quoted_unit_plain c here, quote_units_plain false s rest) refl

pub quote_plain : (s : Text) → all is_plain_unit s ≡ true → quote s ≡ b'"' ∷ s ++ text "\""
unfolding quote
quote_plain s h = rw (quote_units_plain false s h) refl

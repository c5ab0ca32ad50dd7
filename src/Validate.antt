-- ===== src/Validate.antt =====
-- The argument checks that several services repeat: assertPositiveInteger,
-- assertNonnegativeInteger, assertBoundedNonblankString, failureCodePattern and uuidPattern
-- (src/services/delivery-job-service.ts, durable-event-service.ts, command-idempotency-service.ts).
use euphoria_api.Base.{
  is_plain_unit, All, All-append, and-true, refl, ℕ, zero, suc, ◌≤◌, ◌<◌, ◌≡◌, Bool, true, false,
  not, ◌&&◌, ◌||◌, List, [], ◌∷◌, ◌++◌, arith, leb, ltb, nat_eqb, if◌then◌else◌, Result, ok, err,
  Text, trim, is_empty, length, all,
}

-- A JavaScript number: `negative n` is -(n + 1), `inexact` is a fraction, an infinity or NaN.
pub data Number : Type 0 where
  natural : ℕ → Number
  negative : ℕ → Number
  inexact : Number

-- Number.MAX_SAFE_INTEGER
abbrev pub max_safe_integer : ℕ
max_safe_integer = 9007199254740991

unfoldable pub is_safe_integer : Number → Bool
is_safe_integer (natural n) = leb n max_safe_integer
is_safe_integer (negative n) = leb (suc n) max_safe_integer
is_safe_integer inexact = false

-- The number as a natural number, once the checks have passed.
abbrev pub to_natural : Number → ℕ
to_natural (natural n) = n
to_natural (negative n) = 0
to_natural inexact = 0

abbrev is_above_zero : Number → Bool
is_above_zero (natural n) = ltb 0 n
is_above_zero (negative n) = false
is_above_zero inexact = false

abbrev is_below_zero : Number → Bool
is_below_zero (natural n) = false
is_below_zero (negative n) = true
is_below_zero inexact = false

module _ {E : Type 0} (value : Number) (thrown : E) where
  -- The checked value, for the code that goes on with it.
  unfoldable pub assert_positive_integer : Result E ℕ
  unfolding is_safe_integer
  assert_positive_integer =
      if not (is_safe_integer value) || not (is_above_zero value)
      then err thrown
      else ok (to_natural value)

  unfoldable pub assert_nonnegative_integer : Result E ℕ
  unfolding is_safe_integer
  assert_nonnegative_integer =
      if not (is_safe_integer value) || is_below_zero value
      then err thrown
      else ok (to_natural value)

  pub assert_positive_integer_bounds :
      (n : ℕ)
      → assert_positive_integer ≡ ok n
      → (value ≡ natural n) × (0 < n) × (n ≤ max_safe_integer)
  unfolding assert_positive_integer
  assert_positive_integer_bounds n h = ground arith

-- `!value.trim() || value.length > maximumLength` throws.
unfoldable pub assert_bounded_nonblank_string : {E : Type 0} → Text → ℕ → E → Result E (Unit {0})
unfolding trim
assert_bounded_nonblank_string value maximum_length thrown =
    if is_empty (trim value) || ltb maximum_length (length value) then err thrown else ok tt

-- A PostgreSQL `integer` column takes at most this.
abbrev pub max_int4 : ℕ
max_int4 = 2147483647

abbrev in_range : ℕ → ℕ → ℕ → Bool
in_range lo hi c = leb lo c && leb c hi

unfoldable pub is_failure_code_char : ℕ → Bool
is_failure_code_char c =
    in_range b'a' b'z' c
    || in_range b'0' b'9' c
    || nat_eqb c b'_'
    || nat_eqb c b'.'
    || nat_eqb c b':'
    || nat_eqb c b'-'

-- /^[a-z][a-z0-9_.:-]{0,99}$/
unfoldable pub matches_failure_code : Text → Bool
unfolding is_failure_code_char
matches_failure_code [] = false
matches_failure_code (c ∷ s) =
    in_range b'a' b'z' c && leb (length s) 99 && all is_failure_code_char s

-- The characters that the pattern allows, position by position.
abbrev matches_classes : List (ℕ → Bool) → Text → Bool
matches_classes [] [] = true
matches_classes [] (c ∷ s) = false
matches_classes (k ∷ ks) [] = false
matches_classes (k ∷ ks) (c ∷ s) = k c && matches_classes ks s

unfoldable pub is_hex_digit : ℕ → Bool
is_hex_digit c = in_range b'0' b'9' c || in_range b'a' b'f' c || in_range b'A' b'F' c

abbrev repeated : ℕ → (ℕ → Bool) → List (ℕ → Bool)
repeated zero k = []
repeated (suc n) k = k ∷ repeated n k

abbrev is_dash : ℕ → Bool
is_dash c = nat_eqb c b'-'

abbrev is_variant : ℕ → Bool
is_variant c = nat_eqb c b'8' || nat_eqb c b'9' || in_range b'a' b'b' c || in_range b'A' b'B' c

-- /^[0-9a-f]{8}-[0-9a-f]{4}-[1-m][0-9a-f]{3}-[89ab][0-9a-f]{3}-[0-9a-f]{12}$/i, where the last
-- version digit m is 5 for durable events and 8 for cursors and APNs identifiers.
unfoldable pub is_uuid : ℕ → Text → Bool
unfolding is_hex_digit
is_uuid last_version = matches_classes (
    repeated 8 is_hex_digit
    ++ is_dash ∷ repeated 4 is_hex_digit
    ++ is_dash ∷ in_range b'1' last_version ∷ repeated 3 is_hex_digit
    ++ is_dash ∷ is_variant ∷ repeated 3 is_hex_digit
    ++ is_dash ∷ repeated 12 is_hex_digit)

PlainClass : (ℕ → Bool) → Type 0
PlainClass k = (c : ℕ) → k c ≡ true → is_plain_unit c ≡ true

matches_classes_plain :
    (ks : List (ℕ → Bool)) (s : Text)
    → All PlainClass ks
    → matches_classes ks s ≡ true
    → all is_plain_unit s ≡ true
unfolding PlainClass
matches_classes_plain [] [] h m = refl
matches_classes_plain [] (c ∷ s) h m = absurd (cc m)
matches_classes_plain (k ∷ ks) [] h m = absurd (cc m)
matches_classes_plain (k ∷ ks) (c ∷ s) (h, hs) m =
    let (here, rest) = and-true (k c) (matches_classes ks s) m in
    rw (h c here, matches_classes_plain ks s hs rest) refl

repeated-PlainClass : (n : ℕ) (k : ℕ → Bool) → PlainClass k → All PlainClass (repeated n k)
repeated-PlainClass zero k h = tt
repeated-PlainClass (suc n) k h = (h, repeated-PlainClass n k h)

hex-PlainClass : PlainClass is_hex_digit
unfolding PlainClass is_hex_digit
hex-PlainClass c h = ground arith

dash-PlainClass : PlainClass is_dash
unfolding PlainClass
dash-PlainClass c h = ground arith

variant-PlainClass : PlainClass is_variant
unfolding PlainClass
variant-PlainClass c h = ground arith

version-PlainClass : PlainClass (in_range b'1' b'8')
unfolding PlainClass
version-PlainClass c h = ground arith

-- A UUID is printed as it is in a JSON string.
pub is_uuid_plain : (s : Text) → is_uuid b'8' s ≡ true → all is_plain_unit s ≡ true
unfolding is_uuid
is_uuid_plain s h =
    let some_hex = λ (n : ℕ). repeated n is_hex_digit in
    let hexes = λ (n : ℕ). repeated-PlainClass n is_hex_digit hex-PlainClass in
    let one = some_hex 8 in
    let two = one ++ is_dash ∷ some_hex 4 in
    let three = two ++ is_dash ∷ in_range b'1' b'8' ∷ some_hex 3 in
    let four = three ++ is_dash ∷ is_variant ∷ some_hex 3 in
    let last = is_dash ∷ some_hex 12 in
    let all_two =
      All-append PlainClass one (is_dash ∷ some_hex 4) (hexes 8) (dash-PlainClass, hexes 4) in
    let all_three =
      All-append PlainClass two (is_dash ∷ in_range b'1' b'8' ∷ some_hex 3) all_two
        (dash-PlainClass, (version-PlainClass, hexes 3)) in
    let all_four =
      All-append PlainClass three (is_dash ∷ is_variant ∷ some_hex 3) all_three
        (dash-PlainClass, (variant-PlainClass, hexes 3)) in
    matches_classes_plain (four ++ last) s
      (All-append PlainClass four last all_four (dash-PlainClass, hexes 12)) h

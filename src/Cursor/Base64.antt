-- ===== src/Cursor/Base64.antt =====
-- Buffer.from(bytes).toString("base64url") and Buffer.from(text, "base64url"), for a text whose units
-- are all of the base64url alphabet.
use euphoria_api.Base.{
  ℕ, ◌+◌, ◌-◌, ◌*◌, ◌/◌, ◌<◌, ◌≡◌, refl, ap, Bool, true, ◌&&◌, ◌||◌, List, [], ◌∷◌, Text, leb, ltb,
  nat_eqb, All, all, arith, if◌then◌else◌,
}
use Prim.Native.Nat.{◌%◌}

-- The unit that stands for six bits, and the six bits that a unit stands for.
unfoldable pub base64_unit : ℕ → ℕ
base64_unit d =
    if ltb d 26
    then b'A' + d
    else if ltb d 52
    then b'a' + (d - 26)
    else if ltb d 62
    then b'0' + (d - 52)
    else if nat_eqb d 62
    then b'-'
    else b'_'

unfoldable pub six_bits : ℕ → ℕ
six_bits c =
    if leb b'A' c && leb c b'Z'
    then c - b'A'
    else if leb b'a' c && leb c b'z'
    then c - b'a' + 26
    else if leb b'0' c && leb c b'9'
    then c - b'0' + 52
    else if nat_eqb c b'-'
    then 62
    else 63

-- [A-Za-z0-9_-]
unfoldable pub is_base64_unit : ℕ → Bool
is_base64_unit c =
    (leb b'A' c && leb c b'Z')
    || (leb b'a' c && leb c b'z')
    || (leb b'0' c && leb c b'9')
    || nat_eqb c b'_'
    || nat_eqb c b'-'

unfoldable pub to_base64 : List ℕ → Text
unfolding base64_unit
to_base64 [] = []
to_base64 (a ∷ []) = base64_unit (a / 4) ∷ base64_unit (a % 4 * 16) ∷ []
to_base64 (a ∷ b ∷ []) =
    base64_unit (a / 4) ∷ base64_unit (a % 4 * 16 + b / 16) ∷ base64_unit (b % 16 * 4) ∷ []
to_base64 (a ∷ b ∷ c ∷ bytes) =
    base64_unit (a / 4)
    ∷ base64_unit (a % 4 * 16 + b / 16)
    ∷ base64_unit (b % 16 * 4 + c / 64)
    ∷ base64_unit (c % 64)
    ∷ to_base64 bytes

-- A last unit alone holds no byte.
unfoldable pub from_base64 : Text → List ℕ
unfolding six_bits
from_base64 [] = []
from_base64 (w ∷ []) = []
from_base64 (w ∷ x ∷ []) = (six_bits w * 4 + six_bits x / 16) ∷ []
from_base64 (w ∷ x ∷ y ∷ []) =
    (six_bits w * 4 + six_bits x / 16) ∷ (six_bits x % 16 * 16 + six_bits y / 4) ∷ []
from_base64 (w ∷ x ∷ y ∷ z ∷ units) =
    (six_bits w * 4 + six_bits x / 16)
    ∷ (six_bits x % 16 * 16 + six_bits y / 4)
    ∷ (six_bits y % 4 * 64 + six_bits z)
    ∷ from_base64 units

six_bits-base64_unit : (d : ℕ) → d < 64 → six_bits (base64_unit d) ≡ d
unfolding six_bits base64_unit
six_bits-base64_unit d h = ground arith

base64_unit_alphabet : (d : ℕ) → d < 64 → is_base64_unit (base64_unit d) ≡ true
unfolding is_base64_unit base64_unit
base64_unit_alphabet d h = ground arith

abbrev pub Bytes : List ℕ → Type 0
Bytes bytes = All (λ b. b < 256) bytes

cons_eq : {a b : ℕ} {s t : List ℕ} → a ≡ b → s ≡ t → ◌≡◌ {A = List ℕ} (a ∷ s) (b ∷ t)
cons_eq h k = cc (h, k)

-- Encoding bytes and decoding the text gives the bytes again.
pub from_base64-to_base64 : (bytes : List ℕ) → Bytes bytes → from_base64 (to_base64 bytes) ≡ bytes
unfolding to_base64 from_base64
from_base64-to_base64 [] h = refl
from_base64-to_base64 (a ∷ []) (h, _) =
    rw (six_bits-base64_unit (a / 4) (omega arith), six_bits-base64_unit (a % 4 * 16) (omega arith))
      (ap (λ x. x ∷ []) (omega arith))
from_base64-to_base64 (a ∷ b ∷ []) (h, (k, _)) =
    rw
      (
        six_bits-base64_unit (a / 4) (omega arith),
        six_bits-base64_unit (a % 4 * 16 + b / 16) (omega arith),
        six_bits-base64_unit (b % 16 * 4) (omega arith),
      )
      (cons_eq (omega arith) (cons_eq (omega arith) refl))
from_base64-to_base64 (a ∷ b ∷ c ∷ bytes) (h, (k, (l, rest))) =
    rw
      (
        six_bits-base64_unit (a / 4) (omega arith),
        six_bits-base64_unit (a % 4 * 16 + b / 16) (omega arith),
        six_bits-base64_unit (b % 16 * 4 + c / 64) (omega arith),
        six_bits-base64_unit (c % 64) (omega arith),
      )
      (cons_eq (omega arith)
        (cons_eq (omega arith) (cons_eq (omega arith) (from_base64-to_base64 bytes rest))))

pub to_base64_alphabet :
    (bytes : List ℕ) → Bytes bytes → all is_base64_unit (to_base64 bytes) ≡ true
unfolding to_base64
to_base64_alphabet [] h = refl
to_base64_alphabet (a ∷ []) (h, _) =
    rw (base64_unit_alphabet (a / 4) (omega arith), base64_unit_alphabet (a % 4 * 16) (omega arith))
      refl
to_base64_alphabet (a ∷ b ∷ []) (h, (k, _)) =
    rw
      (
        base64_unit_alphabet (a / 4) (omega arith),
        base64_unit_alphabet (a % 4 * 16 + b / 16) (omega arith),
        base64_unit_alphabet (b % 16 * 4) (omega arith),
      )
      refl
to_base64_alphabet (a ∷ b ∷ c ∷ bytes) (h, (k, (l, rest))) =
    rw
      (
        base64_unit_alphabet (a / 4) (omega arith),
        base64_unit_alphabet (a % 4 * 16 + b / 16) (omega arith),
        base64_unit_alphabet (b % 16 * 4 + c / 64) (omega arith),
        base64_unit_alphabet (c % 64) (omega arith),
      )
      (to_base64_alphabet bytes rest)

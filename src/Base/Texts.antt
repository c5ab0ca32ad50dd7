-- ===== src/Base/Texts.antt =====
-- JavaScript strings: lists of UTF-16 code units, with the string methods that the code calls.
use Prim.Native.Nat.{ℕ}
use Prim.Native.Char.{code}
use Prim.Native.String.{String}
use mathlib.Core.Path.{◌≡◌, refl}
use mathlib.Core.Logic.{◌↔◌}
use mathlib.Core.Bool.{Bool, true, false, not, ◌&&◌, ◌||◌}
use mathlib.Core.List.{List, [], ◌∷◌, reverse}
use native.Mathlib.Omega.{arith}
use euphoria_api.Base.Tests.{Eq, leb, ltb, nat_eqb, if◌then◌else◌}

abbrev pub Text : Type 0
Text = List ℕ

-- An ASCII literal of the source.
abbrev pub text : String → Text
text String.[] = []
text (String.◌∷◌ c s) = code c ∷ text s

unfoldable pub text_eqb : Text → Text → Bool
text_eqb [] [] = true
text_eqb [] (b ∷ bs) = false
text_eqb (a ∷ as') [] = false
text_eqb (a ∷ as') (b ∷ bs) = nat_eqb a b && text_eqb as' bs

pub text_eqb_iff : (a b : Text) → (text_eqb a b ≡ true) ↔ (a ≡ b)
unfolding text_eqb
text_eqb_iff [] [] = ground arith
text_eqb_iff [] (b ∷ bs) = ground arith
text_eqb_iff (a ∷ as') [] = ground arith
text_eqb_iff (a ∷ as') (b ∷ bs) = ground (arith, text_eqb_iff as' bs)

instance abbrev pub text_eq : Eq Text
text_eq = record { equals = text_eqb; agrees = text_eqb_iff }

-- White space and line terminators, as `String.prototype.trim` strips them.
unfoldable pub is_space : ℕ → Bool
is_space c =
    (leb 9 c && leb c 13)
    || nat_eqb c 0x20
    || nat_eqb c 0xa0
    || nat_eqb c 0x1680
    || (leb 0x2000 c && leb c 0x200a)
    || nat_eqb c 0x2028
    || nat_eqb c 0x2029
    || nat_eqb c 0x202f
    || nat_eqb c 0x205f
    || nat_eqb c 0x3000
    || nat_eqb c 0xfeff

unfoldable pub trim_start : Text → Text
unfolding is_space
trim_start [] = []
trim_start (c ∷ s) = let rest = trim_start s in if is_space c then rest else c ∷ s

unfoldable pub trim : Text → Text
unfolding trim_start
trim s = reverse (trim_start (reverse (trim_start s)))

-- `!s`: the empty string is falsy.
abbrev pub is_empty : Text → Bool
is_empty [] = true
is_empty (c ∷ s) = false

pub text_eqb_sym : (a b : Text) → text_eqb a b ≡ text_eqb b a
unfolding text_eqb
text_eqb_sym [] [] = refl
text_eqb_sym [] (b ∷ bs) = refl
text_eqb_sym (a ∷ as') [] = refl
text_eqb_sym (a ∷ as') (b ∷ bs) = ground (arith, text_eqb_sym as' bs)

-- A unit that a JSON string shows as it is.
abbrev pub is_plain_unit : ℕ → Bool
is_plain_unit c = ltb 31 c && (ltb c 0xd800 && (not (nat_eqb c b'"') && not (nat_eqb c b'\\')))

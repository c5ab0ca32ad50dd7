-- ===== src/Push/Normalizing.antt =====
-- A normalized registration meets the check constraints on push tokens.
use euphoria_api.Base.{
  ℕ, ◌≡◌, refl, sym, ◌∙◌, inl, inr, Bool, true, false, not, ◌&&◌, ◌||◌, [], ◌∷◌, Option, none, some,
  Text, text_eq, is_empty, any, Result, ok, ◌>>=◌, guard, if◌then◌else◌, Bool-cases, arith,
}
use mathlib.Core.List.{reverse, reverse_aux}
use euphoria_api.Base.{trim, trim_start, leb, is_space, ◌+◌, nat_eqb}
use euphoria_api.Validate.{is_hex_digit}
use euphoria_api.Events.Authorize.{lower_case}
use euphoria_api.Push.Tokens.{
  is_nonblank, meets_checks, Provider, expo, apns, Registration, RegistrationInput,
  RegistrationError, environment_only_for_apns, ios_required, environment_required,
  device_id_required, token_not_hex, is_ios, is_none, is_hex_pairs, trimmed, normalize_as,
}

meets_checks_kept :
    (n g : Registration)
    → ◌≡◌ {A = Result RegistrationError Registration} (ok n) (ok g)
    → meets_checks n ≡ true
    → meets_checks g ≡ true
meets_checks_kept n g e h = cc

guarded :
    {A : Type 0} (b : Bool) (e : RegistrationError) (next : Result RegistrationError A) (x : A)
    → (guard b e >>= λ _. next) ≡ ok x
    → (b ≡ true) × (next ≡ ok x)
guarded true e next x h = (refl, h)
guarded false e next x h = absurd cc

pub and_true : (a b : Bool) → (a && b) ≡ true → (a ≡ true) × (b ≡ true)
and_true true b h = (refl, h)
and_true false b h = absurd cc

lower_case-is_hex_digit :
    (c : ℕ)
    → is_hex_digit c ≡ true
    → is_hex_digit (if leb b'A' c && leb c b'Z' then c + 32 else c) ≡ true
unfolding is_hex_digit
lower_case-is_hex_digit c h = ground arith

lower_case-is_hex_pairs : (t : Text) → is_hex_pairs t ≡ true → is_hex_pairs (lower_case t) ≡ true
unfolding is_hex_pairs lower_case
lower_case-is_hex_pairs [] h = absurd cc
lower_case-is_hex_pairs (a ∷ []) h = absurd cc
lower_case-is_hex_pairs (a ∷ b ∷ []) h =
    let (p, q) = and_true (is_hex_digit a) (is_hex_digit b) h in
    rw (lower_case-is_hex_digit a p, lower_case-is_hex_digit b q)
lower_case-is_hex_pairs (a ∷ b ∷ c ∷ t) h =
    let (p, k) = and_true (is_hex_digit a) _ h in
    let (q, r) = and_true (is_hex_digit b) _ k in
    rw (lower_case-is_hex_digit a p, lower_case-is_hex_digit b q, lower_case-is_hex_pairs (c ∷ t) r)

any-reverse_aux : (p : ℕ → Bool) (s t : Text) → any p (reverse_aux s t) ≡ (any p s || any p t)
any-reverse_aux p [] t = refl
any-reverse_aux p (c ∷ s) t = rw (any-reverse_aux p s (c ∷ t)) (ground arith)

is_empty-reverse_aux : (s t : Text) → is_empty (reverse_aux s t) ≡ (is_empty s && is_empty t)
is_empty-reverse_aux [] t = refl
is_empty-reverse_aux (c ∷ s) t = rw (is_empty-reverse_aux s (c ∷ t)) (ground arith)

not_blank : (c : ℕ) → is_space c ≡ false → nat_eqb c b' ' ≡ false
unfolding is_space
not_blank c h = ground arith

reverse-is_nonblank : (s : Text) → is_nonblank (some (reverse s)) ≡ is_nonblank (some s)
reverse-is_nonblank s = rw (any-reverse_aux (λ c. not (nat_eqb c b' ')) s []) (ground arith)

is_empty-reverse : (s : Text) → is_empty (reverse s) ≡ is_empty s
is_empty-reverse s = rw (is_empty-reverse_aux s []) (ground arith)

trim_start-is_nonblank :
    (s : Text) → is_empty (trim_start s) ≡ false → is_nonblank (some (trim_start s)) ≡ true
unfolding trim_start
trim_start-is_nonblank [] h = absurd cc
trim_start-is_nonblank (c ∷ s) h = elim (Bool-cases (is_space c)) [
  | inl q ↦ rw q (trim_start-is_nonblank s (rw q at h))
  | inr q ↦ rw (q, not_blank c q)
]

trim-is_nonblank : (s : Text) → is_empty (trim s) ≡ false → is_nonblank (some (trim s)) ≡ true
unfolding trim
trim-is_nonblank s h =
    let rest = reverse (trim_start s) in
    let left = sym (is_empty-reverse (trim_start rest)) ∙ h in
    reverse-is_nonblank (trim_start rest) ∙ trim_start-is_nonblank rest left

trimmed-is_nonblank :
    (d : Option Text) → is_empty (trimmed d) ≡ false → is_nonblank (some (trimmed d)) ≡ true
trimmed-is_nonblank none h = absurd cc
trimmed-is_nonblank (some s) h = trim-is_nonblank s h

false_of_not : (b : Bool) → not b ≡ true → b ≡ false
false_of_not true h = sym h
false_of_not false h = refl

meets_apns_checks :
    (g : Registration)
    → g.provider ≡ apns
    → not (is_none g.apns_environment) ≡ true
    → is_ios g.platform ≡ true
    → is_nonblank g.device_id ≡ true
    → is_hex_pairs g.token ≡ true
    → meets_checks g ≡ true
unfolding meets_checks
meets_apns_checks g e a b c d = rw (e, a, b, c, d)

meets_expo_checks :
    (g : Registration)
    → g.provider ≡ expo
    → is_none g.apns_environment ≡ true
    → meets_checks g ≡ true
unfolding meets_checks
meets_expo_checks g e a = rw (e, a)

pub normalize_as-meets_checks :
    (p : Provider) (input : RegistrationInput) (g : Registration)
    → normalize_as p input ≡ ok g
    → meets_checks g ≡ true
unfolding normalize_as
normalize_as-meets_checks expo input g h =
    let e = (guarded (is_none input.apns_environment) environment_only_for_apns _ g h).1 in
    meets_checks_kept _ g e (meets_expo_checks _ refl refl)
normalize_as-meets_checks apns input g h =
    let (ios_given, e) = guarded (is_ios input.platform) ios_required _ g h in
    let (environment_given, e2) = guarded _ environment_required _ g e in
    let (device_given, e3) = guarded _ device_id_required _ g e2 in
    let (hex_given, e4) = guarded _ token_not_hex _ g e3 in
    meets_checks_kept _ g e4 (
      meets_apns_checks _ refl environment_given ios_given
        (trimmed-is_nonblank input.device_id (false_of_not _ device_given))
        (lower_case-is_hex_pairs input.token hex_given))

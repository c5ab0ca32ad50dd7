-- ===== src/Events/Pigeonhole.antt =====
-- As many different numbers as a range has are all the numbers of the range.
use euphoria_api.Base.{
  ℕ, zero, suc, ◌+◌, ◌≤◌, ◌<◌, ◌≡◌, refl, sym, ◌∙◌, ap, ◌≢◌, true, false, inl, inr, List, [], ◌∷◌,
  arith, All, length, Bool-cases, nat_eqb, nat_eqb_iff, nat_eq, if◌then◌else◌,
}
use euphoria_api.Sql.{is_among}
use euphoria_api.Sql.Keys.{Distinct}

-- How many of the `m` numbers from `lo` on are listed.
abbrev hits : ℕ → ℕ → List ℕ → ℕ
hits lo zero ns = 0
hits lo (suc m) ns = hits lo m ns + (if is_among ns (lo + m) then 1 else 0)

absent : (x : ℕ) (ns : List ℕ) → All (λ n. n ≢ x) ns → is_among ns x ≡ false
absent x [] h = refl
absent x (n ∷ ns) (h, hs) = ground (arith, absent x ns hs)

hits-above : (lo m x : ℕ) (ns : List ℕ) → lo + m ≤ x → hits lo m (x ∷ ns) ≡ hits lo m ns
hits-above lo zero x ns h = refl
hits-above lo (suc m) x ns h =
    let other : nat_eqb x (lo + m) ≡ false = ground arith in
    let rest = hits-above lo m x ns (omega (arith, h)) in rw (other, rest) refl

hits-within :
    (lo m x : ℕ) (ns : List ℕ)
    → lo ≤ x
    → x < lo + m
    → is_among ns x ≡ false
    → hits lo m (x ∷ ns) ≡ suc (hits lo m ns)
hits-within lo zero x ns h k a = absurd (omega (arith, h, k))
hits-within lo (suc m) x ns h k a = elim (Bool-cases (nat_eqb x (lo + m))) [
  | inl e ↦
      let at_x : x ≡ lo + m = (nat_eqb_iff x (lo + m)).0 e in
      let gone : is_among ns (lo + m) ≡ false = ap (is_among ns) (sym at_x) ∙ a in
      let rest = hits-above lo m x ns (omega (arith, at_x)) in rw (e, gone, rest) (omega arith)
  | inr e ↦ let rest = hits-within lo m x ns h (ground arith) a in rw (e, rest) (omega arith)
]

hits-length :
    (lo m : ℕ) (ns : List ℕ)
    → Distinct (λ n. n) ns
    → All (λ n. (lo ≤ n) × (n < lo + m)) ns
    → hits lo m ns ≡ length ns
hits-length lo zero [] d r = refl
hits-length lo (suc m) [] d r = omega (arith, hits-length lo m [] d r)
hits-length lo m (x ∷ ns) (d, ds) (r, rs) =
    hits-within lo m x ns r.0 r.1 (absent x ns d) ∙ ap suc (hits-length lo m ns ds rs)

hits-le : (lo m : ℕ) (ns : List ℕ) → hits lo m ns ≤ m
hits-le lo zero ns = omega arith
hits-le lo (suc m) ns = ground (arith, hits-le lo m ns)

hits-missing :
    (lo m x : ℕ) (ns : List ℕ) → lo ≤ x → x < lo + m → is_among ns x ≡ false → hits lo m ns < m
hits-missing lo zero x ns h k a = absurd (omega (arith, h, k))
hits-missing lo (suc m) x ns h k a = elim (Bool-cases (nat_eqb x (lo + m))) [
  | inl e ↦
      let gone : is_among ns (lo + m) ≡ false =
        ap (is_among ns) (sym ((nat_eqb_iff x (lo + m)).0 e)) ∙ a in
      rw gone (omega (arith, hits-le lo m ns))
  | inr e ↦ ground (arith, hits-missing lo m x ns h (ground arith) a, hits-le lo m ns)
]

pub is_among-full :
    (lo m x : ℕ) (ns : List ℕ)
    → Distinct (λ n. n) ns
    → All (λ n. (lo ≤ n) × (n < lo + m)) ns
    → length ns ≡ m
    → lo ≤ x
    → x < lo + m
    → is_among ns x ≡ true
is_among-full lo m x ns d r full h k = elim (Bool-cases (is_among ns x)) [
  | inl e ↦ e
  | inr e ↦ absurd (omega (arith, hits-missing lo m x ns h k e, hits-length lo m ns d r, full))
]

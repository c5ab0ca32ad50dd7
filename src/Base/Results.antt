-- ===== src/Base/Results.antt =====
-- Computations that may throw: the value, or what was thrown.
use mathlib.Core.Path.{◌≡◌, refl}
use mathlib.Core.Bool.{Bool, true, false}
use mathlib.Core.Option.{Option, none, some}

pub data Result {ℓ} (E A : Type ℓ) : Type ℓ where
  ok : A → Result E A
  err : E → Result E A

infixl 5 ◌>>=◌ ◌>>◌
abbrev pub ◌>>=◌ {ℓ} : {E A B : Type ℓ} → Result E A → (A → Result E B) → Result E B
ok a >>= f = f a
err e >>= f = err e

abbrev pub ◌>>◌ {ℓ} : {E A B : Type ℓ} → Result E A → Result E B → Result E B
m >> k = m >>= λ _. k

-- `if (!test) throw error`
abbrev pub guard : {E : Type 0} → Bool → E → Result E (Unit {0})
guard true e = ok tt
guard false e = err e

-- `const [row] = …; if (!row) throw error`
abbrev pub or_throw : {E A : Type 0} → Option A → E → Result E A
or_throw none e = err e
or_throw (some a) e = ok a

-- A chain that comes through has come through its first step.
pub >>=-eq-ok {ℓ} :
    {E A B : Type ℓ} (step : Result E A) (rest : A → Result E B) {end : B}
    → (step >>= rest) ≡ ok end
    → (x : A) × (step ≡ ok x) × (rest x ≡ ok end)
>>=-eq-ok (ok x) rest through = (x, refl, through)
>>=-eq-ok (err thrown) rest through = cc

-- The same result twice.
pub ok_inj : {E A : Type 0} (r : Result E A) {a b : A} → r ≡ ok a → r ≡ ok b → a ≡ b
ok_inj r h k = cc

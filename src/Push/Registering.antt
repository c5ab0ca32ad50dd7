-- ===== src/Push/Registering.antt =====
-- What registerPushTokenWithRepository leaves of the tokens of an installation.
use euphoria_api.Base.{
  ℕ, ◌≡◌, refl, inl, inr, Bool, true, false, not, ◌&&◌, ◌||◌, List, [], ◌∷◌, Option, none, some,
  Text, text_eq, text_eqb, text_eqb_iff, any, any-insert, ok, if◌then◌else◌, Bool-cases, arith,
}
use euphoria_api.Sql.{update, insert}
use euphoria_api.Push.Normalizing.{and_true, normalize_as-meets_checks}
use euphoria_api.Push.Tokens.{
  environment_check, meets_checks, Provider, expo, apns, Environment, Registration,
  RegistrationInput, development, production, PushToken, same_provider, is_environment, is_none,
  or_expo, normalize, disabled, is_installation, is_rotated, disable_rotated, is_same_token,
  registered, inserted_token, upsert_token, rotated_for, register_push_token,
}

-- Another enabled token of the same installation.
abbrev pub is_other : Registration → PushToken → Bool
is_other g r = is_installation g.provider g r && not (is_same_token g r)

abbrev pub is_owned : Registration → PushToken → Bool
is_owned g r = is_same_token g r && (r.enabled && text_eqb r.user_id g.user_id)

is_environment-none : (e : Option Environment) → is_environment e none ≡ false
is_environment-none none = refl
is_environment-none (some development) = refl
is_environment-none (some production) = refl

none_if : (e : Option Environment) → is_none e ≡ true → e ≡ none
none_if none h = refl
none_if (some e) h = absurd cc

same_provider_refl : (p : Provider) → same_provider p p ≡ true
same_provider_refl expo = refl
same_provider_refl apns = refl

or_false : (a b : Bool) → (a || b) ≡ false → (a ≡ false) × (b ≡ false)
or_false true b h = absurd cc
or_false false b h = (refl, h)

or_true : (a : Bool) → (a || true) ≡ true
or_true true = refl
or_true false = refl

no_other_row_expo :
    (g : Registration) (r : PushToken) → g.apns_environment ≡ none → is_other g r ≡ false
unfolding is_installation
no_other_row_expo g r e = let q = is_environment-none r.apns_environment in rw e (ground (arith, q))

no_other_row_apns :
    (g : Registration) (now : ℕ) (r : PushToken)
    → g.provider ≡ apns
    → is_other g (if is_rotated g r then disabled now r else r) ≡ false
unfolding is_installation is_same_token is_rotated
no_other_row_apns g now r e = rw e (ground arith)

meets_environment_check :
    (g : Registration)
    → meets_checks g ≡ true
    → environment_check g.provider g.apns_environment ≡ true
unfolding meets_checks
meets_environment_check g h = (and_true (environment_check g.provider g.apns_environment) _ h).0

rotated_for-is_other :
    (p : Provider) (g : Registration) (now : ℕ) (rows : List PushToken)
    → g.provider ≡ p
    → environment_check p g.apns_environment ≡ true
    → any (is_other g) (rotated_for p g now rows) ≡ false
unfolding disable_rotated update
rotated_for-is_other expo g now [] e h = refl
rotated_for-is_other expo g now (r ∷ rows) e h =
    rw (
      no_other_row_expo g r (none_if g.apns_environment h),
      rotated_for-is_other expo g now rows e h,
    )
rotated_for-is_other apns g now [] e h = refl
rotated_for-is_other apns g now (r ∷ rows) e h =
    rw (no_other_row_apns g now r e, rotated_for-is_other apns g now rows e h)

registered-is_other_row :
    (g : Registration) (now : ℕ) (r : PushToken)
    → is_other g r ≡ false
    → is_other g (if is_same_token g r then registered g now r else r) ≡ false
unfolding is_installation is_same_token
registered-is_other_row g now r h = ground (arith, h)

registered-is_other :
    (g : Registration) (now : ℕ) (rows : List PushToken)
    → any (is_other g) rows ≡ false
    → any (is_other g) (update (is_same_token g) (registered g now) rows) ≡ false
unfolding update
registered-is_other g now [] h = refl
registered-is_other g now (r ∷ rows) h =
    let parts = or_false (is_other g r) (any (is_other g) rows) h in
    rw (registered-is_other_row g now r parts.0, registered-is_other g now rows parts.1)

registered-is_owned_row :
    (g : Registration) (now : ℕ) (r : PushToken)
    → is_same_token g r ≡ true
    → is_owned g (if is_same_token g r then registered g now r else r) ≡ true
unfolding is_same_token
registered-is_owned_row g now r h =
    let self = (text_eqb_iff g.user_id g.user_id).1 refl in rw h (ground (arith, self, h))

registered-is_owned :
    (g : Registration) (now : ℕ) (rows : List PushToken)
    → any (is_same_token g) rows ≡ true
    → any (is_owned g) (update (is_same_token g) (registered g now) rows) ≡ true
unfolding update
registered-is_owned g now [] h = absurd cc
registered-is_owned g now (r ∷ rows) h = elim (Bool-cases (is_same_token g r)) [
  | inl q ↦ rw (registered-is_owned_row g now r q)
  | inr q ↦
      rw (registered-is_owned g now rows (rw q at h))
        (or_true (is_owned g (if is_same_token g r then registered g now r else r)))
]

is_same_token-inserted_token :
    (id : Text) (g : Registration) (now started : ℕ)
    → is_same_token g (inserted_token id g now started) ≡ true
unfolding is_same_token
is_same_token-inserted_token id g now started =
    let same = same_provider_refl g.provider in
    let self = (text_eqb_iff g.token g.token).1 refl in ground (arith, same, self)

inserted_token-is_owned :
    (id : Text) (g : Registration) (now started : ℕ) (rows : List PushToken)
    → any (is_owned g) (insert (inserted_token id g now started) rows) ≡ true
inserted_token-is_owned id g now started rows =
    let self = (text_eqb_iff g.user_id g.user_id).1 refl in
    rw
      (
        any-insert (is_owned g) rows (inserted_token id g now started),
        is_same_token-inserted_token id g now started,
        self,
      )
      (or_true (any (is_owned g) rows))

inserted_token-is_other :
    (id : Text) (g : Registration) (now started : ℕ) (rows : List PushToken)
    → any (is_other g) rows ≡ false
    → any (is_other g) (insert (inserted_token id g now started) rows) ≡ false
inserted_token-is_other id g now started rows h =
    let same = is_same_token-inserted_token id g now started in
    rw (any-insert (is_other g) rows (inserted_token id g now started), h) (ground (arith, same))

-- What registering leaves: an enabled token of the user, and no other one of the installation.
abbrev pub Registered : Registration → List PushToken → Type 0
Registered g rows = (any (is_other g) rows ≡ false) × (any (is_owned g) rows ≡ true)

upsert_token-Registered :
    (id : Text) (g : Registration) (now started : ℕ) (rows : List PushToken)
    → meets_checks g ≡ true
    → any (is_other g) rows ≡ false
    → (next : List PushToken) × (upsert_token id g now started rows ≡ ok next) × Registered g next
unfolding upsert_token
upsert_token-Registered id g now started rows met h =
    elim (Bool-cases (any (is_same_token g) rows)) [
      | inl q ↦ (
        update (is_same_token g) (registered g now) rows,
        rw (met, h, q),
        (registered-is_other g now rows h, registered-is_owned g now rows q),
      )
      | inr q ↦ (
        insert (inserted_token id g now started) rows,
        rw (met, h, q),
        (
          inserted_token-is_other id g now started rows h,
          inserted_token-is_owned id g now started rows,
        ),
      )
    ]

-- Whatever tokens there are, registering an input that normalizes to g gives tokens, so it violates no check
-- constraint or unique index; g's token is then an enabled one of g's user, and no other enabled token is of g's APNs
-- installation.
pub register_push_token_lem :
    (id : Text) (now started : ℕ) (input : RegistrationInput) (rows : List PushToken)
    (g : Registration)
    → normalize input ≡ ok g
    → (next : List PushToken) × (register_push_token id now started input rows ≡ ok next)
      × Registered g next
unfolding register_push_token normalize
register_push_token_lem id now started input rows g h =
    let met = normalize_as-meets_checks (or_expo input.provider) input g h in
    let clear = rotated_for-is_other g.provider g now rows refl (meets_environment_check g met) in
    rw h (upsert_token-Registered id g now started (rotated_for g.provider g now rows) met clear)

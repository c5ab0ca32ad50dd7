-- ===== src/Sql.antt =====
-- Tables as lists of rows, and the statements that the services build with drizzle-orm.
-- A `where` clause is a Boolean test; `returning()` gives the rows that a statement wrote.
pub mod Keys
use euphoria_api.Base.{
  ℕ, suc, ◌≤◌, ◌*◌, Option, none, some, ltb, ◌==◌, nat_eq, any, ◌&&◌, ◌||◌, ◌≡◌, refl, Bool, true,
  false, not, ◌⊎◌, inl, inr, List, [], ◌∷◌, ◌++◌, map, arith, All, All-append, Bool-cases, length,
  if◌then◌else◌,
}

-- order by a, b, … : the first column that differs decides; a null stands last.
abbrev pub ordered_by : ℕ → ℕ → Bool → Bool
ordered_by a b rest = ltb a b || (a == b && rest)

abbrev pub nulls_last : Option ℕ → Option ℕ → Bool → Bool
nulls_last (some a) (some b) rest = ordered_by a b rest
nulls_last (some a) none rest = true
nulls_last none (some b) rest = false
nulls_last none none rest = rest

-- interval '1 second', in the microseconds of a timestamp
abbrev pub seconds : ℕ → ℕ
seconds n = n * 1000000

-- inArray(column, ids)
abbrev pub is_among : List ℕ → ℕ → Bool
is_among ids k = any (λ id. id == k) ids

module _ {ℓ} {A : Type ℓ} where
  -- select … from rows where p
  unfoldable pub select : (A → Bool) → List A → List A
  select p [] = []
  select p (x ∷ xs) = if p x then x ∷ select p xs else select p xs

  -- update rows set f where p
  unfoldable pub update : (A → Bool) → (A → A) → List A → List A
  update p f [] = []
  update p f (x ∷ xs) = (if p x then f x else x) ∷ update p f xs

  -- The `returning()` of that update.
  unfoldable pub updated : (A → Bool) → (A → A) → List A → List A
  unfolding select
  updated p f xs = map f (select p xs)

  -- delete from rows where p
  unfoldable pub delete : (A → Bool) → List A → List A
  unfolding select
  delete p = select (λ x. not (p x))

  -- insert into rows
  abbrev pub insert : A → List A → List A
  insert x xs = xs ++ x ∷ []

  unfoldable pub place : (A → A → Bool) → A → List A → List A
  place before x [] = x ∷ []
  place before x (y ∷ ys) = if before x y then x ∷ y ∷ ys else y ∷ place before x ys

  -- order by: `before x y` when x may stand before y
  unfoldable pub order_by : (A → A → Bool) → List A → List A
  unfolding place
  order_by before [] = []
  order_by before (x ∷ xs) = place before x (order_by before xs)

  pub All-select {κ} :
      (P : A → Type κ) (p : A → Bool) (xs : List A) → All P xs → All P (select p xs)
  unfolding select
  All-select P p [] h = tt
  All-select P p (x ∷ xs) (h, k) = elim (Bool-cases (p x)) [
    | inl e ↦ rw e (h, All-select P p xs k)
    | inr e ↦ rw e (All-select P p xs k)
  ]

  -- Every row that a `where` clause lets through satisfies it.
  pub select-All : (p : A → Bool) (xs : List A) → All (λ x. p x ≡ true) (select p xs)
  unfolding select
  select-All p [] = tt
  select-All p (x ∷ xs) = elim (Bool-cases (p x)) [
    | inl e ↦ rw e (e, select-All p xs)
    | inr e ↦ rw e (select-All p xs)
  ]

  pub All-update {κ} :
      (P : A → Type κ) (p : A → Bool) (f : A → A) (xs : List A)
      → ((x : A) → P x → p x ≡ true → P (f x))
      → All P xs
      → All P (update p f xs)
  unfolding update
  All-update P p f [] step h = tt
  All-update P p f (x ∷ xs) step (h, k) = elim (Bool-cases (p x)) [
    | inl e ↦ rw e (step x h e, All-update P p f xs step k)
    | inr e ↦ rw e (h, All-update P p f xs step k)
  ]

  pub All-place {κ} :
      (P : A → Type κ) (before : A → A → Bool) (x : A) (ys : List A)
      → P x
      → All P ys
      → All P (place before x ys)
  unfolding place
  All-place P before x [] h k = (h, tt)
  All-place P before x (y ∷ ys) h (k, r) = elim (Bool-cases (before x y)) [
    | inl e ↦ rw e (h, (k, r))
    | inr e ↦ rw e (k, All-place P before x ys h r)
  ]

  pub All-order_by {κ} :
      (P : A → Type κ) (before : A → A → Bool) (xs : List A) → All P xs → All P (order_by before xs)
  unfolding order_by
  All-order_by P before [] h = tt
  All-order_by P before (x ∷ xs) (h, k) =
      All-place P before x (order_by before xs) h (All-order_by P before xs k)

  pub length-select : (p : A → Bool) (xs : List A) → length (select p xs) ≤ length xs
  unfolding select
  length-select p [] = omega arith
  length-select p (x ∷ xs) = ground (arith, length-select p xs)

  -- The rows after an update, by what held of them before.
  pub All-update_cases {κ κ'} :
      (P : A → Type κ) (Q : A → Type κ') (p : A → Bool) (f : A → A) (xs : List A)
      → ((x : A) → P x → p x ≡ true → Q (f x))
      → ((x : A) → P x → p x ≡ false → Q x)
      → All P xs
      → All Q (update p f xs)
  unfolding update
  All-update_cases P Q p f [] hit miss h = tt
  All-update_cases P Q p f (x ∷ xs) hit miss (h, k) = elim (Bool-cases (p x)) [
    | inl e ↦ rw e (hit x h e, All-update_cases P Q p f xs hit miss k)
    | inr e ↦ rw e (miss x h e, All-update_cases P Q p f xs hit miss k)
  ]

  pub select-All_none : (p : A → Bool) (xs : List A) → All (λ x. p x ≡ false) xs → select p xs ≡ []
  unfolding select
  select-All_none p [] h = refl
  select-All_none p (x ∷ xs) (h, k) = rw h (select-All_none p xs k)

  pub update-All_none :
      (p : A → Bool) (f : A → A) (xs : List A) → All (λ x. p x ≡ false) xs → update p f xs ≡ xs
  unfolding update
  update-All_none p f [] h = refl
  update-All_none p f (x ∷ xs) (h, k) = rw (h, update-All_none p f xs k)

  pub All-always {κ} : (P : A → Type κ) (xs : List A) → ((x : A) → P x) → All P xs
  All-always P [] h = tt
  All-always P (x ∷ xs) h = (h x, All-always P xs h)

  -- A statement that only the inserted row satisfies.
  pub select-insert :
      (p : A → Bool) (x : A) (xs : List A)
      → select p xs ≡ []
      → p x ≡ true
      → select p (insert x xs) ≡ x ∷ []
  unfolding select
  select-insert p x [] h k = rw k
  select-insert p x (y ∷ ys) h k = elim (Bool-cases (p y)) [
    | inl e ↦ absurd (cc (h, e))
    | inr e ↦ rw e (select-insert p x ys (rw e at h) k)
  ]

  pub update-insert :
      (p : A → Bool) (f : A → A) (x : A) (xs : List A)
      → All (λ y. p y ≡ false) xs
      → p x ≡ true
      → update p f (insert x xs) ≡ insert (f x) xs
  unfolding update
  update-insert p f x [] h k = rw k
  update-insert p f x (y ∷ ys) (h, hs) k = rw (h, update-insert p f x ys hs k)

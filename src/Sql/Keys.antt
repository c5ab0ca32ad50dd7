-- ===== src/Sql/Keys.antt =====
-- Tables with a primary key: the row of a key, and what the statements do to it.
use mathlib.Core.Option
use euphoria_api.Base.{
  zero, suc, take, All-take, ℕ, ◌≡◌, refl, sym, subst, ◌∙◌, ap, ◌≢◌, Bool, true, inl, inr, List, [],
  ◌∷◌, Option, none, some, arith, All, All-map, Bool-cases, map-eq-some, nat_eqb, nat_eqb_iff,
  if◌then◌else◌,
}
use euphoria_api.Sql.{place, order_by, All-place, All-order_by, select, update, insert}

-- No two rows have the same key.
abbrev pub Distinct {ℓ} : {A : Type ℓ} → (A → ℕ) → List A → Type 0
Distinct key [] = Unit
Distinct key (x ∷ xs) = All (λ y. key y ≢ key x) xs × Distinct key xs

-- What an update does to one row.
abbrev pub written {ℓ} : {A : Type ℓ} → (A → Bool) → (A → A) → A → A
written p f x = if p x then f x else x

-- The rows that a statement about one key lets through.
abbrev pub only {ℓ} : {A : Type ℓ} → (A → Bool) → Option A → List A
only p none = []
only p (some x) = if p x then x ∷ [] else []

module _ {ℓ} {A : Type ℓ} (key : A → ℕ) where
  -- select … from rows where key = k limit 1
  unfoldable pub find : ℕ → List A → Option A
  find k [] = none
  find k (x ∷ xs) = if nat_eqb (key x) k then some x else find k xs

  pub find_key : (k : ℕ) (xs : List A) (x : A) → find k xs ≡ some x → key x ≡ k
  unfolding find
  find_key k [] x h = cc
  find_key k (y ∷ xs) x h = elim (Bool-cases (nat_eqb (key y) k)) [
    | inl e ↦ ground (arith, h)
    | inr e ↦ find_key k xs x (rw e at h)
  ]

  pub find-All {κ} :
      (P : A → Type κ) (k : ℕ) (xs : List A) (x : A) → All P xs → find k xs ≡ some x → P x
  unfolding find
  find-All P k [] x a h = absurd (cc)
  find-All P k (y ∷ xs) x (a, r) h = elim (Bool-cases (nat_eqb (key y) k)) [
    | inl e ↦ let same : y ≡ x = ground arith in subst P same a
    | inr e ↦ find-All P k xs x r (rw e at h)
  ]

  -- The row of a key after an update that keeps keys.
  pub find-update :
      (p : A → Bool) (f : A → A) (k : ℕ) (xs : List A)
      → ((x : A) → key (f x) ≡ key x)
      → find k (update p f xs) ≡ Option.map (written p f) (find k xs)
  unfolding find update
  find-update p f k [] keeps = refl
  find-update p f k (x ∷ xs) keeps = ground (arith, keeps x, find-update p f k xs keeps)

  find-none-All : (k : ℕ) (xs : List A) → find k xs ≡ none → All (λ y. key y ≢ k) xs
  unfolding find
  find-none-All k [] h = tt
  find-none-All k (x ∷ xs) h = (ground arith, find-none-All k xs (ground arith))

  All-find-none : (k : ℕ) (xs : List A) → All (λ y. key y ≢ k) xs → find k xs ≡ none
  unfolding find
  All-find-none k [] h = refl
  All-find-none k (x ∷ xs) (h, r) = ground (arith, All-find-none k xs r)

  select_none :
      (p : A → Bool) (k : ℕ) (xs : List A)
      → ((x : A) → p x ≡ true → key x ≡ k)
      → All (λ y. key y ≢ k) xs
      → select p xs ≡ []
  unfolding select
  select_none p k [] about h = refl
  select_none p k (x ∷ xs) about (h, r) = elim (Bool-cases (p x)) [
    | inl e ↦ absurd (h (about x e))
    | inr e ↦ rw e (select_none p k xs about r)
  ]

  -- A `where` clause that asks for a key sees the row of that key at most.
  pub select-find :
      (p : A → Bool) (k : ℕ) (xs : List A)
      → ((x : A) → p x ≡ true → key x ≡ k)
      → Distinct key xs
      → select p xs ≡ only p (find k xs)
  unfolding select find
  select-find p k [] about d = refl
  select-find p k (x ∷ xs) about (d, ds) = elim (Bool-cases (nat_eqb (key x) k)) [
    | inl e ↦
        let same : key x ≡ k = (nat_eqb_iff _ _).0 e in
        rw e (
          ap (λ r. if p x then x ∷ r else r)
            (select_none p k xs about (All-map (λ y n. λ q. n (q ∙ sym same)) xs d)))
    | inr e ↦ elim (Bool-cases (p x)) [
      | inl q ↦ ground (arith, about x q)
      | inr q ↦ rw (e, q) (select-find p k xs about ds)
    ]
  ]

  All-key-update :
      (p : A → Bool) (f : A → A) (k : ℕ) (xs : List A)
      → ((x : A) → key (f x) ≡ key x)
      → All (λ y. key y ≢ k) xs
      → All (λ y. key y ≢ k) (update p f xs)
  unfolding update
  All-key-update p f k [] keeps h = tt
  All-key-update p f k (x ∷ xs) keeps (h, r) =
      (ground (arith, keeps x), All-key-update p f k xs keeps r)

  pub Distinct-update :
      (p : A → Bool) (f : A → A) (xs : List A)
      → ((x : A) → key (f x) ≡ key x)
      → Distinct key xs
      → Distinct key (update p f xs)
  unfolding update
  Distinct-update p f [] keeps d = tt
  Distinct-update p f (x ∷ xs) keeps (d, ds) = elim (Bool-cases (p x)) [
    | inl e ↦
        rw (e, keeps x) (All-key-update p f (key x) xs keeps d, Distinct-update p f xs keeps ds)
    | inr e ↦ rw e (All-key-update p f (key x) xs keeps d, Distinct-update p f xs keeps ds)
  ]

  pub find-insert :
      (x : A) (k : ℕ) (xs : List A)
      → find (key x) xs ≡ none
      → find k (insert x xs) ≡ (if nat_eqb (key x) k then some x else find k xs)
  unfolding find
  find-insert x k [] h = refl
  find-insert x k (y ∷ ys) h = ground (arith, find-insert x k ys)

  All-insert {κ} : (P : A → Type κ) (x : A) (xs : List A) → All P xs → P x → All P (insert x xs)
  All-insert P x [] h q = (q, tt)
  All-insert P x (y ∷ ys) (h, r) q = (h, All-insert P x ys r q)

  pub Distinct-insert :
      (x : A) (xs : List A) → find (key x) xs ≡ none → Distinct key xs → Distinct key (insert x xs)
  unfolding find
  Distinct-insert x [] h d = (tt, tt)
  Distinct-insert x (y ∷ ys) h (d, ds) = (
    All-insert (λ z. key z ≢ key y) x ys d (ground arith),
    Distinct-insert x ys (ground arith) ds,
  )

  All-key-select :
      (p : A → Bool) (k : ℕ) (xs : List A)
      → All (λ y. key y ≢ k) xs
      → All (λ y. key y ≢ k) (select p xs)
  unfolding select
  All-key-select p k [] h = tt
  All-key-select p k (x ∷ xs) (h, r) = elim (Bool-cases (p x)) [
    | inl e ↦ rw e (h, All-key-select p k xs r)
    | inr e ↦ rw e (All-key-select p k xs r)
  ]

  pub Distinct-select : (p : A → Bool) (xs : List A) → Distinct key xs → Distinct key (select p xs)
  unfolding select
  Distinct-select p [] d = tt
  Distinct-select p (x ∷ xs) (d, ds) = elim (Bool-cases (p x)) [
    | inl e ↦ rw e (All-key-select p (key x) xs d, Distinct-select p xs ds)
    | inr e ↦ rw e (Distinct-select p xs ds)
  ]

  -- The row of a key among the rows that a `where` clause lets through.
  pub find-select :
      (p : A → Bool) (k : ℕ) (xs : List A) (x : A)
      → Distinct key xs
      → find k xs ≡ some x
      → find k (select p xs) ≡ (if p x then some x else none)
  unfolding find select
  find-select p k [] x d h = absurd (cc)
  find-select p k (y ∷ ys) x (d, ds) h = elim (Bool-cases (nat_eqb (key y) k)) [
    | inl e ↦
        let same : key y ≡ k = (nat_eqb_iff _ _).0 e in
        let gone : find k (select p ys) ≡ none =
          All-find-none k (select p ys)
            (All-key-select p k ys (All-map (λ z n. λ q. n (q ∙ sym same)) ys d)) in
        ground (arith, gone)
    | inr e ↦ ground (arith, find-select p k ys x ds (rw e at h))
  ]

  pub find-select-none :
      (p : A → Bool) (k : ℕ) (xs : List A) → find k xs ≡ none → find k (select p xs) ≡ none
  find-select-none p k xs h =
      All-find-none k (select p xs) (All-key-select p k xs (find-none-All k xs h))

  All-find_later :
      (x : A) (xs ys : List A)
      → All (λ y. key y ≢ key x) ys
      → All (λ y. find (key y) xs ≡ some y) ys
      → All (λ y. find (key y) (x ∷ xs) ≡ some y) ys
  unfolding find
  All-find_later x xs [] d h = tt
  All-find_later x xs (y ∷ ys) (d, ds) (h, r) = (ground arith, All-find_later x xs ys ds r)

  -- With distinct keys every row is the row of its key.
  pub All-find : (xs : List A) → Distinct key xs → All (λ x. find (key x) xs ≡ some x) xs
  unfolding find
  All-find [] d = tt
  All-find (x ∷ xs) (d, ds) = (ground arith, All-find_later x xs xs d (All-find xs ds))

  pub find-update_row :
      (p : A → Bool) (f : A → A) (k : ℕ) (xs : List A) (x : A)
      → ((y : A) → key (f y) ≡ key y)
      → find k xs ≡ some x
      → find k (update p f xs) ≡ some (written p f x)
  find-update_row p f k xs x keeps h = find-update p f k xs keeps ∙ ap (Option.map (written p f)) h

  pub find-update-none :
      (p : A → Bool) (f : A → A) (k : ℕ) (xs : List A)
      → ((y : A) → key (f y) ≡ key y)
      → find k xs ≡ none
      → find k (update p f xs) ≡ none
  find-update-none p f k xs keeps h = find-update p f k xs keeps ∙ ap (Option.map (written p f)) h

  -- A row after an update comes from a row before it.
  pub find-update_from :
      (p : A → Bool) (f : A → A) (k : ℕ) (xs : List A) (y : A)
      → ((x : A) → key (f x) ≡ key x)
      → find k (update p f xs) ≡ some y
      → (x : A) × (find k xs ≡ some x) × (written p f x ≡ y)
  find-update_from p f k xs y keeps h =
      map-eq-some (written p f) (find k xs) (sym (find-update p f k xs keeps) ∙ h)

  Distinct-place :
      (before : A → A → Bool) (x : A) (ys : List A)
      → All (λ y. key y ≢ key x) ys
      → Distinct key ys
      → Distinct key (place before x ys)
  unfolding place
  Distinct-place before x [] h d = (tt, tt)
  Distinct-place before x (y ∷ ys) (h, k) (d, ds) = elim (Bool-cases (before x y)) [
    | inl e ↦ rw e ((h, k), (d, ds))
    | inr e ↦ rw e (
      All-place (λ z. key z ≢ key y) before x ys (λ q. h (sym q)) d,
      Distinct-place before x ys k ds,
    )
  ]

  pub Distinct-order_by :
      (before : A → A → Bool) (xs : List A) → Distinct key xs → Distinct key (order_by before xs)
  unfolding order_by
  Distinct-order_by before [] d = tt
  Distinct-order_by before (x ∷ xs) (d, ds) =
      Distinct-place before x (order_by before xs) (All-order_by (λ y. key y ≢ key x) before xs d)
        (Distinct-order_by before xs ds)

  pub Distinct-take : (n : ℕ) (xs : List A) → Distinct key xs → Distinct key (take n xs)
  Distinct-take zero xs d = tt
  Distinct-take (suc n) [] d = tt
  Distinct-take (suc n) (x ∷ xs) (d, ds) =
      (All-take (λ y. key y ≢ key x) n xs d, Distinct-take n xs ds)

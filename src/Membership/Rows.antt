-- ===== src/Membership/Rows.antt =====
-- Lemmas on the rows that a query selects, and on the ids that are distinct.
use euphoria_api.Base.{
  ◌≤◌, ◌≡◌, refl, sym, ◌∙◌, ap, inl, inr, Bool, true, false, not, List, [], ◌∷◌, ◌++◌, Text,
  text_eq, text_eqb, text_eqb_iff, ◌==◌, any, map, length, All, Bool-cases, arith, ltb, nat_eqb,
  nat_eq,
}
use mathlib.Core.List.{Memᴰ}
use mathlib.Core.List.Memᴰ.{head, tail}
use euphoria_api.Sql.{select, delete}
use euphoria_api.Membership.Schema.{distinct_ids}

pub select-same_on :
    {A : Type 0} (q r : A → Bool) (xs : List A)
    → All (λ x. q x ≡ r x) xs
    → select q xs ≡ select r xs
unfolding select
select-same_on q r [] h = refl
select-same_on q r (x ∷ xs) (h, hs) = elim (Bool-cases (r x)) [
  | inl e ↦ rw (h, e) (ap (λ l. x ∷ l) (select-same_on q r xs hs))
  | inr e ↦ rw (h, e) (select-same_on q r xs hs)
]

pub select_none :
    {A : Type 0} (q : A → Bool) (xs : List A) → All (λ x. q x ≡ false) xs → select q xs ≡ []
unfolding select
select_none q [] h = refl
select_none q (x ∷ xs) (h, hs) = rw h (select_none q xs hs)

pub select-append :
    {A : Type 0} (q : A → Bool) (xs ys : List A) → select q (xs ++ ys) ≡ select q xs ++ select q ys
unfolding select
select-append q [] ys = refl
select-append q (x ∷ xs) ys = elim (Bool-cases (q x)) [
  | inl e ↦ rw e (ap (λ l. x ∷ l) (select-append q xs ys))
  | inr e ↦ rw e (select-append q xs ys)
]

pub append_nil : {A : Type 0} (xs : List A) → xs ++ [] ≡ xs
append_nil [] = refl
append_nil (x ∷ xs) = ap (λ l. x ∷ l) (append_nil xs)

pub Mem-select :
    {A : Type 0} (q : A → Bool) {x : A} (xs : List A)
    → Memᴰ x xs
    → q x ≡ true
    → Memᴰ x (select q xs)
unfolding select
Mem-select q [] m h = elim m [ ]
Mem-select q (y ∷ ys) (head e) h = rw (sym (ap q e) ∙ h) (head e)
Mem-select q (y ∷ ys) (tail m) h = elim (Bool-cases (q y)) [
  | inl k ↦ rw k (tail (Mem-select q ys m h))
  | inr k ↦ rw k (Mem-select q ys m h)
]

pub Mem-map : {A B : Type 0} (f : A → B) {x : A} (xs : List A) → Memᴰ x xs → Memᴰ (f x) (map f xs)
Mem-map f [] m = elim m [ ]
Mem-map f (y ∷ ys) (head e) = head (ap f e)
Mem-map f (y ∷ ys) (tail m) = tail (Mem-map f ys m)

pub Mem-distinct_ids : {x : Text} (xs : List Text) → Memᴰ x xs → Memᴰ x (distinct_ids xs)
unfolding distinct_ids delete
Mem-distinct_ids [] m = elim m [ ]
Mem-distinct_ids (y ∷ ys) (head e) = head e
Mem-distinct_ids {x} (y ∷ ys) (tail m) = elim (Bool-cases (text_eqb x y)) [
  | inl k ↦ head ((text_eqb_iff x y).0 k)
  | inr k ↦
      tail (Mem-select (λ z. not (z == y)) (distinct_ids ys) (Mem-distinct_ids ys m) (ap not k))
]

pub only_one : {x y : Text} (xs : List Text) → length xs ≤ 1 → Memᴰ x xs → Memᴰ y xs → x ≡ y
only_one [] h m n = elim m [ ]
only_one (z ∷ []) h (head e) (head e') = e ∙ sym e'
only_one (z ∷ []) h (head e) (tail n) = elim n [ ]
only_one (z ∷ []) h (tail m) n = elim m [ ]
only_one (z ∷ w ∷ zs) h m n = absurd (omega arith)

pub filled : {A : Type 0} {x : A} (xs : List A) → Memᴰ x xs → ltb 0 (length xs) ≡ true
filled [] m = elim m [ ]
filled (y ∷ ys) m = ground arith

pub counted :
    {A : Type 0} (q : A → Bool) (xs : List A)
    → nat_eqb (length (select q xs)) 0 ≡ false
    → any q xs ≡ true
unfolding select
counted q [] h = absurd (cc h)
counted q (x ∷ xs) h = elim (Bool-cases (q x)) [
  | inl k ↦ rw k refl
  | inr k ↦ rw k (counted q xs (rw k at h))
]

-- ===== src/Commands/Canonical.antt =====
-- The canonical text does not depend on the order in which an object's keys were written.
use euphoria_api.Base.{
  ◌≡◌, refl, ◌∙◌, ap, ◌≢◌, true, not, ◌||◌, inl, inr, List, [], ◌∷◌, Option, none, some, Text, text,
  map, ◌++◌, arith, some_inj, Bool-cases,
}
use mathlib.Core.Option
use euphoria_api.Sql.{place, order_by}
use euphoria_api.Commands.Json.{
  Json, object, Fields, field, canonicalize, canonicalize_fields, text_before, key_before,
  print_fields, join_commas, quote, ◌&>◌,
}

-- The same fields in another order; exchanged neighbours have different keys.
pub data Reordered : Fields → Fields → Type 0 where
  same : (fs : Fields) → Reordered fs fs
  exchanged :
      (k l : Text) (v w : Json) (rest : Fields)
      → k ≢ l
      → Reordered (field k v (field l w rest)) (field l w (field k v rest))
  below :
      (k : Text) (v : Json) {fs gs : Fields}
      → Reordered fs gs
      → Reordered (field k v fs) (field k v gs)
  chained : {fs gs hs : Fields} → Reordered fs gs → Reordered gs hs → Reordered fs hs

text_before_total : (s t : Text) → (text_before s t || text_before t s) ≡ true
text_before_total [] t = refl
text_before_total (a ∷ s) [] = refl
text_before_total (a ∷ s) (b ∷ t) = ground (arith, text_before_total s t)

text_before_antisym : (s t : Text) → text_before s t ≡ true → text_before t s ≡ true → s ≡ t
text_before_antisym [] [] h k = refl
text_before_antisym [] (b ∷ t) h k = absurd (cc)
text_before_antisym (a ∷ s) [] h k = absurd (cc)
text_before_antisym (a ∷ s) (b ∷ t) h k =
    let heads : a ≡ b = ground arith in
    let tails : s ≡ t = text_before_antisym s t (ground arith) (ground arith) in cc

text_before_trans :
    (s t u : Text) → text_before s t ≡ true → text_before t u ≡ true → text_before s u ≡ true
text_before_trans [] t u h k = refl
text_before_trans (a ∷ s) [] u h k = absurd (cc)
text_before_trans (a ∷ s) (b ∷ t) [] h k = absurd (cc)
text_before_trans (a ∷ s) (b ∷ t) (c ∷ u) h k = ground (arith, text_before_trans s t u)

-- Of two different keys, just one may stand before the other.
text_before_strict : (s t : Text) → s ≢ t → text_before t s ≡ not (text_before s t)
text_before_strict s t n = elim (Bool-cases (text_before s t)) [
  | inr e ↦ ground (arith, text_before_total s t)
  | inl e ↦ elim (Bool-cases (text_before t s)) [
    | inl q ↦ absurd (n (text_before_antisym s t e q))
    | inr q ↦ cc
  ]
]

place-exchange :
    (x y : Text × Text) (rest : List (Text × Text))
    → x.0 ≢ y.0
    → place key_before x (place key_before y rest) ≡ place key_before y (place key_before x rest)
unfolding place
place-exchange x y [] n =
    rw (text_before_strict x.0 y.0 n)
      (elim (Bool-cases (key_before x y)) [ inl e ↦ rw e refl | inr e ↦ rw e refl ])
place-exchange x y (z ∷ rest) n =
    let strict = text_before_strict x.0 y.0 n in
    elim (Bool-cases (key_before x z)) [
      | inl p ↦ elim (Bool-cases (key_before y z)) [
        | inl q ↦ elim (Bool-cases (key_before x y)) [
          | inl e ↦ simp (p, q, strict, e) refl
          | inr e ↦ simp (p, q, strict, e) refl
        ]
        | inr q ↦ elim (Bool-cases (key_before y x)) [
          | inl e ↦ absurd (cc (q, text_before_trans y.0 x.0 z.0 e p))
          | inr e ↦ simp (p, q, e) refl
        ]
      ]
      | inr p ↦ elim (Bool-cases (key_before y z)) [
        | inl q ↦ elim (Bool-cases (key_before x y)) [
          | inl e ↦ absurd (cc (p, text_before_trans x.0 y.0 z.0 e q))
          | inr e ↦ simp (p, q, e) refl
        ]
        | inr q ↦ simp (p, q) (ap (λ r. z ∷ r) (place-exchange x y rest n))
      ]
    ]

-- The same printed fields up to their order.
abbrev SortedAlike : Option (List (Text × Text)) → Option (List (Text × Text)) → Type 0
SortedAlike a b = Option.map (order_by key_before) a ≡ Option.map (order_by key_before) b

abbrev with_field : Text → Option Text → Option (List (Text × Text)) → Option (List (Text × Text))
with_field k printed rest = printed &> λ first. rest &> λ texts. some ((k, first) ∷ texts)

with_field-exchange :
    (k l : Text) (v w : Option Text) (rest : Option (List (Text × Text)))
    → k ≢ l
    → SortedAlike (with_field k v (with_field l w rest)) (with_field l w (with_field k v rest))
unfolding order_by
with_field-exchange k l none none rest n = refl
with_field-exchange k l none (some w) rest n = refl
with_field-exchange k l (some v) none rest n = refl
with_field-exchange k l (some v) (some w) none n = refl
with_field-exchange k l (some v) (some w) (some rest) n =
    ap some (place-exchange (k, v) (l, w) (order_by key_before rest) n)

with_field-below :
    (k : Text) (v : Option Text) (fs gs : Option (List (Text × Text)))
    → SortedAlike fs gs
    → SortedAlike (with_field k v fs) (with_field k v gs)
unfolding order_by
with_field-below k none fs gs h = refl
with_field-below k (some v) none none h = refl
with_field-below k (some v) none (some gs) h = absurd (cc)
with_field-below k (some v) (some fs) none h = absurd (cc)
with_field-below k (some v) (some fs) (some gs) h =
    ap (λ r. some (place key_before (k, v) r)) (some_inj h)

canonicalize_fields-Reordered :
    (fs gs : Fields)
    → Reordered fs gs
    → SortedAlike (canonicalize_fields fs) (canonicalize_fields gs)
unfolding canonicalize order_by
canonicalize_fields-Reordered fs gs (same _) = refl
canonicalize_fields-Reordered fs gs (exchanged k l v w rest n) =
    with_field-exchange k l (canonicalize v) (canonicalize w) (canonicalize_fields rest) n
canonicalize_fields-Reordered fs gs (below k v {fs = fs'} {gs = gs'} r) =
    with_field-below k (canonicalize v) (canonicalize_fields fs') (canonicalize_fields gs')
      (canonicalize_fields-Reordered fs' gs' r)
canonicalize_fields-Reordered fs gs (chained r q) =
    canonicalize_fields-Reordered _ _ r ∙ canonicalize_fields-Reordered _ _ q

printed_alike :
    (a b : Option (List (Text × Text)))
    → SortedAlike a b
    → (a &> λ texts. some (print_fields texts)) ≡ (b &> λ texts. some (print_fields texts))
printed_alike none none h = refl
printed_alike none (some b) h = absurd (cc)
printed_alike (some a) none h = absurd (cc)
printed_alike (some a) (some b) h =
    ap (λ r. some (text "{" ++ join_commas (map (λ f. quote f.0 ++ text ":" ++ f.1) r) ++ text "}"))
      (some_inj h)

-- Two objects with the same fields in different orders have the same canonical text, or neither
-- has one; so they have the same fingerprint.
pub canonicalize-Reordered :
    (fs gs : Fields) → Reordered fs gs → canonicalize (object fs) ≡ canonicalize (object gs)
unfolding canonicalize
canonicalize-Reordered fs gs r =
    printed_alike (canonicalize_fields fs) (canonicalize_fields gs)
      (canonicalize_fields-Reordered fs gs r)

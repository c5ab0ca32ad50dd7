-- ===== src/Maps.antt =====
-- JavaScript maps with string keys: their entries in the order of insertion.
pub mod Nested
use euphoria_api.Base.{
  ◌≡◌, refl, sym, ◌∙◌, ap, true, false, inl, inr, List, [], ◌∷◌, Option, none, some, Text, text_eqb,
  text_eqb_iff, arith, All, Bool-cases, if◌then◌else◌,
}

module _ {V : Type 0} where
  -- map.get(key)
  unfoldable pub get : Text → List (Text × V) → Option V
  unfolding text_eqb
  get k [] = none
  get k (e ∷ m) = if text_eqb e.0 k then some e.1 else get k m

  -- map.set(key, value): a key that is there keeps its place.
  unfoldable pub put : Text → V → List (Text × V) → List (Text × V)
  unfolding text_eqb
  put k v [] = (k, v) ∷ []
  put k v (e ∷ m) = let rest = put k v m in if text_eqb e.0 k then (e.0, v) ∷ m else e ∷ rest

  -- map.delete(key)
  unfoldable pub drop : Text → List (Text × V) → List (Text × V)
  unfolding text_eqb
  drop k [] = []
  drop k (e ∷ m) = let rest = drop k m in if text_eqb e.0 k then rest else e ∷ rest

  pub get-put :
      (k : Text) (v : V) (m : List (Text × V)) (j : Text)
      → get j (put k v m) ≡ (if text_eqb k j then some v else get j m)
  unfolding get put
  get-put k v [] j = refl
  get-put k v (e ∷ m) j = elim (Bool-cases (text_eqb e.0 k)) [
    | inl q ↦
        let at_k = (text_eqb_iff e.0 k).0 q in
        rw q (elim (Bool-cases (text_eqb k j)) [
          | inl p ↦
              let here : text_eqb e.0 j ≡ true =
                (text_eqb_iff e.0 j).1 (at_k ∙ (text_eqb_iff k j).0 p) in
              rw (p, here) refl
          | inr p ↦ elim (Bool-cases (text_eqb e.0 j)) [
            | inl o ↦ absurd (cc (p, (text_eqb_iff k j).1 (sym at_k ∙ (text_eqb_iff e.0 j).0 o)))
            | inr o ↦ rw (p, o) refl
          ]
        ])
    | inr n ↦ rw n (elim (Bool-cases (text_eqb e.0 j)) [
      | inl o ↦ elim (Bool-cases (text_eqb k j)) [
        | inl p ↦ absurd (
            cc
              (n, (text_eqb_iff e.0 k).1 ((text_eqb_iff e.0 j).0 o ∙ sym ((text_eqb_iff k j).0 p))))
        | inr p ↦ rw (o, p) refl
      ]
      | inr o ↦ rw o (get-put k v m j)
    ])
  ]

  pub get-drop :
      (k : Text) (m : List (Text × V)) (j : Text)
      → get j (drop k m) ≡ (if text_eqb k j then none else get j m)
  unfolding get drop
  get-drop k [] j = ground arith
  get-drop k (e ∷ m) j = elim (Bool-cases (text_eqb e.0 k)) [
    | inl q ↦
        let at_k = (text_eqb_iff e.0 k).0 q in
        rw q (
          get-drop k m j ∙ elim (Bool-cases (text_eqb k j)) [
            | inl p ↦ rw p refl
            | inr p ↦
                let other : text_eqb e.0 j ≡ false = ap (λ l. text_eqb l j) at_k ∙ p in
                rw (p, other) refl
          ])
    | inr n ↦ rw n (elim (Bool-cases (text_eqb e.0 j)) [
      | inl o ↦ elim (Bool-cases (text_eqb k j)) [
        | inl p ↦ absurd (
            cc
              (n, (text_eqb_iff e.0 k).1 ((text_eqb_iff e.0 j).0 o ∙ sym ((text_eqb_iff k j).0 p))))
        | inr p ↦ rw (o, p) refl
      ]
      | inr o ↦ rw o (get-drop k m j)
    ])
  ]

  pub All-put :
      (P : Text × V → Type 0) (k : Text) (v : V) (m : List (Text × V))
      → ((l : Text) → P (l, v))
      → All P m
      → All P (put k v m)
  unfolding put
  All-put P k v [] new h = (new k, tt)
  All-put P k v (e ∷ m) new (h, hs) = elim (Bool-cases (text_eqb e.0 k)) [
    | inl q ↦ rw q (new e.0, hs)
    | inr q ↦ rw q (h, All-put P k v m new hs)
  ]

  pub All-drop :
      (P : Text × V → Type 0) (k : Text) (m : List (Text × V)) → All P m → All P (drop k m)
  unfolding drop
  All-drop P k [] h = tt
  All-drop P k (e ∷ m) (h, hs) = elim (Bool-cases (text_eqb e.0 k)) [
    | inl q ↦ rw q (All-drop P k m hs)
    | inr q ↦ rw q (h, All-drop P k m hs)
  ]

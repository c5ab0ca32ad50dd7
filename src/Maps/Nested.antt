-- ===== src/Maps/Nested.antt =====
-- Maps of maps, which the code changes in place: an inner map is made when its first entry comes,
-- and deleted with its last. A set is a map whose values say nothing.
use euphoria_api.Base.{
  ◌≡◌, refl, sym, ◌∙◌, ap, Bool, true, false, ◌&&◌, inl, inr, List, [], ◌∷◌, Option, none, some,
  Text, text_eqb, text_eqb_iff, arith, Bool-cases, Option-cases, if◌then◌else◌, is_set,
}
use euphoria_api.Maps.{get, put, drop, get-put, get-drop}

abbrev pub TextSet : Type 0
TextSet = List (Text × Unit {0})

-- set.has(key), map.has(key)
abbrev pub has : {V : Type 0} → Text → List (Text × V) → Bool
has k m = is_set (get k m)

module _ {V : Type 0} where
  -- `outer.get(key) ?? new Map()`
  abbrev pub or_empty : Option (List (Text × V)) → List (Text × V)
  or_empty none = []
  or_empty (some inner) = inner

  abbrev pub nested : Text → Text → List (Text × List (Text × V)) → Option V
  nested k j m = get j (or_empty (get k m))

  -- an entry of the inner map is set, and the inner map is set in the outer
  unfoldable pub put_in :
      Text → Text → V → List (Text × List (Text × V)) → List (Text × List (Text × V))
  unfolding get put
  put_in k j v m = put k (put j v (or_empty (get k m))) m

  -- `if (inner.size === 0) outer.delete(key)`, beside the inner map that was changed in place
  abbrev pub keep_or_delete :
      Text → List (Text × V) → List (Text × List (Text × V)) → List (Text × List (Text × V))
  keep_or_delete k [] m = drop k m
  keep_or_delete k (e ∷ inner) m = put k (e ∷ inner) m

  abbrev pub drop_at :
      Text
      → Text
      → List (Text × List (Text × V))
      → Option (List (Text × V))
      → List (Text × List (Text × V))
  drop_at k j m none = m
  drop_at k j m (some inner) = keep_or_delete k (drop j inner) m

  -- an entry of the inner map is deleted, if the inner map is there
  unfoldable pub drop_in :
      Text → Text → List (Text × List (Text × V)) → List (Text × List (Text × V))
  unfolding get put drop
  drop_in k j m = drop_at k j m (get k m)

  abbrev is_void : Option (List (Text × V)) → Bool
  is_void none = false
  is_void (some []) = true
  is_void (some (e ∷ inner)) = false

  -- No inner map is empty.
  abbrev pub Inhabited : List (Text × List (Text × V)) → Type 0
  Inhabited m = (k : Text) → is_void (get k m) ≡ false

  abbrev no_entries : List (Text × V)
  no_entries = []

  get_empty : (i : Text) → get i no_entries ≡ none
  unfolding get
  get_empty i = refl

  pub or_empty-keep :
      (k l : Text) (inner : List (Text × V)) (m : List (Text × List (Text × V)))
      → or_empty (get l (keep_or_delete k inner m))
        ≡ (if text_eqb k l then inner else or_empty (get l m))
  or_empty-keep k l [] m = ap or_empty (get-drop k m l) ∙ ground arith
  or_empty-keep k l (e ∷ inner) m = ap or_empty (get-put k (e ∷ inner) m l) ∙ ground arith

  pub nested-put_in :
      (k j : Text) (v : V) (m : List (Text × List (Text × V))) (l i : Text)
      → nested l i (put_in k j v m)
        ≡ (if text_eqb k l && text_eqb j i then some v else nested l i m)
  unfolding put_in
  nested-put_in k j v m l i =
      ap (λ o. get i (or_empty o)) (get-put k (put j v (or_empty (get k m))) m l)
      ∙ elim (Bool-cases (text_eqb k l)) [
        | inl q ↦ rw q (
            get-put j v (or_empty (get k m)) i
            ∙ ap (λ (n : Text). if text_eqb j i then some v else nested n i m)
                ((text_eqb_iff k l).0 q))
        | inr q ↦ rw q refl
      ]

  pub nested-drop_in :
      (k j : Text) (m : List (Text × List (Text × V))) (l i : Text)
      → nested l i (drop_in k j m) ≡ (if text_eqb k l && text_eqb j i then none else nested l i m)
  unfolding drop_in
  nested-drop_in k j m l i = elim (Option-cases (get k m)) [
    | inl n ↦ rw n (elim (Bool-cases (text_eqb k l)) [
      | inl q ↦
          let gone : get l m ≡ none = ap (λ x. get x m) (sym ((text_eqb_iff k l).0 q)) ∙ n in
          rw (q, gone, get_empty i) (ground arith)
      | inr q ↦ rw q refl
    ])
    | inr (inner, n) ↦ rw n (
        ap (get i) (or_empty-keep k l (drop j inner) m) ∙ elim (Bool-cases (text_eqb k l)) [
          | inl q ↦
              let there : get l m ≡ some inner =
                ap (λ x. get x m) (sym ((text_eqb_iff k l).0 q)) ∙ n in
              rw (q, there) (get-drop j inner i)
          | inr q ↦ rw q refl
        ])
  ]

  is_void-put :
      (j : Text) (v : V) (inner : List (Text × V)) → is_void (some (put j v inner)) ≡ false
  unfolding put
  is_void-put j v [] = refl
  is_void-put j v (e ∷ inner) = elim (Bool-cases (text_eqb e.0 j)) [
    | inl q ↦ rw q refl
    | inr q ↦ rw q refl
  ]

  pub Inhabited-put_in :
      (k j : Text) (v : V) (m : List (Text × List (Text × V)))
      → Inhabited m
      → Inhabited (put_in k j v m)
  unfolding put_in
  Inhabited-put_in k j v m h l =
      ap is_void (get-put k (put j v (or_empty (get k m))) m l) ∙ elim (Bool-cases (text_eqb k l)) [
        | inl q ↦ rw q (is_void-put j v (or_empty (get k m)))
        | inr q ↦ rw q (h l)
      ]

  Inhabited-keep :
      (k : Text) (inner : List (Text × V)) (m : List (Text × List (Text × V)))
      → Inhabited m
      → Inhabited (keep_or_delete k inner m)
  Inhabited-keep k [] m h l =
      ap is_void (get-drop k m l)
      ∙ elim (Bool-cases (text_eqb k l)) [ inl q ↦ rw q refl | inr q ↦ rw q (h l) ]
  Inhabited-keep k (e ∷ inner) m h l =
      ap is_void (get-put k (e ∷ inner) m l)
      ∙ elim (Bool-cases (text_eqb k l)) [ inl q ↦ rw q refl | inr q ↦ rw q (h l) ]

  pub Inhabited-drop_in :
      (k j : Text) (m : List (Text × List (Text × V))) → Inhabited m → Inhabited (drop_in k j m)
  unfolding drop_in
  Inhabited-drop_in k j m h = elim (Option-cases (get k m)) [
    | inl n ↦ rw n h
    | inr (inner, n) ↦ rw n (Inhabited-keep k (drop j inner) m h)
  ]

  has_first : (e : Text × V) (inner : List (Text × V)) → has e.0 (e ∷ inner) ≡ true
  unfolding get
  has_first e inner = rw ((text_eqb_iff e.0 e.0).1 refl) refl

  -- Where no inner map is empty, one that is there has an entry.
  pub entry_of :
      (k : Text) (m : List (Text × List (Text × V)))
      → Inhabited m
      → has k m ≡ true
      → (j : Text) × (has j (or_empty (get k m)) ≡ true)
  entry_of k m h q = elim (Option-cases (get k m)) [
    | inl n ↦ absurd (cc (ap is_set n, q))
    | inr (inner, n) ↦ entry_first inner n (h k)
  ]
    where
      entry_first :
          (inner : List (Text × V))
          → get k m ≡ some inner
          → is_void (get k m) ≡ false
          → (j : Text) × (has j (or_empty (get k m)) ≡ true)
      entry_first [] n void = absurd (cc (ap is_void n, void))
      entry_first (e ∷ inner) n void = (e.0, rw n (has_first e inner))

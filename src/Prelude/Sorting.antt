-- ===== src/Prelude/Sorting.antt =====
-- `ORDER BY` over a list of rows, for any strict order of them, and what `WHERE` does to it.
use mathlib.Core.Path.{◌≡◌, refl}
use mathlib.Core.Logic.{◌⊎◌, inl, inr}
use mathlib.Core.Bool.{Bool, true, false}
use mathlib.Core.List.{List, [], ◌∷◌, ◌++◌}
use native.Mathlib.Omega.{arith}
use media_service_m.Prelude.Tests.{if◌then◌else◌, Bool-cases}
use media_service_m.Prelude.Lists.{filter, All, In}

module _ {A : Type 0} (lt : A → A → Bool) where
  unfoldable pub insert_row : A → List A → List A
  insert_row x [] = x ∷ []
  insert_row x (y ∷ ys) = let deeper = insert_row x ys in if lt x y then x ∷ y ∷ ys else y ∷ deeper

  unfoldable pub sort_rows : List A → List A
  unfolding insert_row
  sort_rows [] = []
  sort_rows (x ∷ xs) = insert_row x (sort_rows xs)

  -- Each row stands before all that follow it.
  abbrev pub IsOrdered : List A → Type 0
  IsOrdered [] = Unit
  IsOrdered (x ∷ xs) = All (λ y. lt x y ≡ true) xs × IsOrdered xs

  -- Any two rows are comparable.
  abbrev pub IsApart : List A → Type 0
  IsApart [] = Unit
  IsApart (x ∷ xs) = All (λ y. (lt x y ≡ true) ⊎ (lt y x ≡ true)) xs × IsApart xs

  In-insert_row : (a x : A) (ys : List A) → In a (insert_row x ys) → (a ≡ x) ⊎ In a ys
  unfolding insert_row
  In-insert_row a x [] h = h
  In-insert_row a x (y ∷ ys) h = ground (arith, In-insert_row a x ys)

  pub In-sort_rows : (a : A) (xs : List A) → In a (sort_rows xs) → In a xs
  unfolding sort_rows
  In-sort_rows a [] h = h
  In-sort_rows a (x ∷ xs) h = elim (In-insert_row a x (sort_rows xs) h) [
    | inl here ↦ inl here
    | inr later ↦ inr (In-sort_rows a xs later)
  ]

  All-insert_row : (P : A → Type 0) (x : A) (ys : List A) → P x → All P ys → All P (insert_row x ys)
  unfolding insert_row
  All-insert_row P x [] h k = (h, k)
  All-insert_row P x (y ∷ ys) h k = elim (Bool-cases (lt x y)) [
    | inl first ↦ rw first (h, k)
    | inr deeper ↦ rw deeper (k.0, All-insert_row P x ys h k.1)
  ]

  All-sort_rows : (P : A → Type 0) (xs : List A) → All P xs → All P (sort_rows xs)
  unfolding sort_rows
  All-sort_rows P [] h = h
  All-sort_rows P (x ∷ xs) h = All-insert_row P x (sort_rows xs) h.0 (All-sort_rows P xs h.1)

  All-filter : (P : A → Type 0) (p : A → Bool) (xs : List A) → All P xs → All P (filter p xs)
  All-filter P p [] h = h
  All-filter P p (x ∷ xs) h = elim (Bool-cases (p x)) [
    | inl kept ↦ rw kept (h.0, All-filter P p xs h.1)
    | inr dropped ↦ rw dropped (All-filter P p xs h.1)
  ]

  pub filter-IsApart : (p : A → Bool) (xs : List A) → IsApart xs → IsApart (filter p xs)
  filter-IsApart p [] h = h
  filter-IsApart p (x ∷ xs) h = elim (Bool-cases (p x)) [
    | inl kept ↦
        rw kept
          (All-filter (λ y. (lt x y ≡ true) ⊎ (lt y x ≡ true)) p xs h.0, filter-IsApart p xs h.1)
    | inr dropped ↦ rw dropped (filter-IsApart p xs h.1)
  ]

  abbrev pub IsTransitive : Type 0
  IsTransitive = (a b c : A) → lt a b ≡ true → lt b c ≡ true → lt a c ≡ true

  abbrev pub IsAsymmetric : Type 0
  IsAsymmetric = (a b : A) → lt a b ≡ true → lt b a ≡ false

  module _ (trans : IsTransitive) (asym : IsAsymmetric) where
    All-before :
        (x y : A) (ys : List A)
        → lt x y ≡ true
        → All (λ z. lt y z ≡ true) ys
        → All (λ z. lt x z ≡ true) ys
    All-before x y [] h k = k
    All-before x y (z ∷ zs) h k = (trans x y z h k.0, All-before x y zs h k.1)

    insert_row-IsOrdered :
        (x : A) (ys : List A)
        → All (λ y. (lt x y ≡ true) ⊎ (lt y x ≡ true)) ys
        → IsOrdered ys
        → IsOrdered (insert_row x ys)
    unfolding insert_row
    insert_row-IsOrdered x [] h k = (h, k)
    insert_row-IsOrdered x (y ∷ ys) h k = elim (Bool-cases (lt x y)) [
      | inl first ↦ rw first ((first, All-before x y ys first k.0), k)
      | inr deeper ↦
          let later : lt y x ≡ true = ground (arith, h.0) in
          rw deeper
            (All-insert_row (λ z. lt y z ≡ true) x ys later k.0, insert_row-IsOrdered x ys h.1 k.1)
    ]

    pub sort_rows-IsOrdered : (xs : List A) → IsApart xs → IsOrdered (sort_rows xs)
    unfolding sort_rows
    sort_rows-IsOrdered [] h = h
    sort_rows-IsOrdered (x ∷ xs) h =
        insert_row-IsOrdered x (sort_rows xs)
          (All-sort_rows (λ y. (lt x y ≡ true) ⊎ (lt y x ≡ true)) xs h.0)
          (sort_rows-IsOrdered xs h.1)

    insert_row-first :
        (x : A) (ys : List A) → All (λ y. lt x y ≡ true) ys → insert_row x ys ≡ x ∷ ys
    unfolding insert_row
    insert_row-first x [] h = refl
    insert_row-first x (y ∷ ys) h = rw h.0

    filter-insert_row :
        (p : A → Bool) (x : A) (ys : List A)
        → IsOrdered ys
        → filter p (insert_row x ys) ≡ (if p x then insert_row x (filter p ys) else filter p ys)
    unfolding insert_row
    filter-insert_row p x [] h = refl
    filter-insert_row p x (y ∷ ys) h = elim (Bool-cases (lt x y)) [
      | inl first ↦
          let rest =
            insert_row-first x (filter p (y ∷ ys))
              (All-filter (λ z. lt x z ≡ true) p (y ∷ ys) (first, All-before x y ys first h.0)) in
          rw (first, rest)
      | inr deeper ↦ rw deeper (ground (arith, deeper, filter-insert_row p x ys h.1))
    ]

    -- `WHERE` and `ORDER BY` may be taken in either order.
    pub filter-sort_rows :
        (p : A → Bool) (xs : List A)
        → IsApart xs
        → sort_rows (filter p xs) ≡ filter p (sort_rows xs)
    unfolding sort_rows
    filter-sort_rows p [] h = refl
    filter-sort_rows p (x ∷ xs) h =
        let step = filter-insert_row p x (sort_rows xs) (sort_rows-IsOrdered xs h.1) in
        ground (arith, step, filter-sort_rows p xs h.1)

    filter-before : (x : A) (ys : List A) → All (λ y. lt x y ≡ true) ys → filter (lt x) ys ≡ ys
    filter-before x [] h = refl
    filter-before x (y ∷ ys) h = rw (h.0, filter-before x ys h.1)

    -- In an ordered list the rows after `x` are what stands behind it.
    pub filter-suffix :
        (pre : List A) (x : A) (post : List A)
        → IsOrdered (pre ++ x ∷ post)
        → filter (lt x) (pre ++ x ∷ post) ≡ post
    filter-suffix [] x post h = elim (Bool-cases (lt x x)) [
      | inl same ↦ cc (asym x x same)
      | inr other ↦ rw other (filter-before x post h.0)
    ]
    filter-suffix (y ∷ pre) x post h =
        let before : lt y x ≡ true = All-middle pre h.0 in
        rw (asym y x before) (filter-suffix pre x post h.1)
      where
        All-middle : (ys : List A) → All (λ z. lt y z ≡ true) (ys ++ x ∷ post) → lt y x ≡ true
        All-middle [] k = k.0
        All-middle (z ∷ zs) k = All-middle zs k.1

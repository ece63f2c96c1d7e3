-- ===== src/Category/Walk/Visits.antt =====
-- One round of `collect_branch_ids` of media_service/core/category_tree.py: what a visit adds, what
-- still waits, and that the collected ids stay closed.
use media_service_m.Prelude.{
  ℕ, ◌+◌, ◌≤◌, true, false, ◌||◌, Option, none, some, List, [], ◌∷◌, ◌++◌, ◌≡◌, refl, arith,
  if◌then◌else◌, length, length-append, elem,
}
use mathlib.Core.List.{reverse, reverse-append}
use media_service_m.Model.Rows.{Category}
use media_service_m.Category.Walk.{children_of}

pub elem-append : (k : ℕ) (xs ys : List ℕ) → elem k (xs ++ ys) ≡ (elem k xs || elem k ys)
elem-append k [] ys = refl
elem-append k (x ∷ xs) ys = ground (arith, elem-append k xs ys)

pub elem-reverse : (k : ℕ) (xs : List ℕ) → elem k (reverse xs) ≡ elem k xs
elem-reverse k [] = refl
elem-reverse k (x ∷ xs) =
    rw (reverse-append (x ∷ []) xs)
      (ground (arith, elem-append k (reverse xs) (x ∷ []), elem-reverse k xs))

length-reverse : (xs : List ℕ) → length (reverse xs) ≡ length xs
length-reverse [] = refl
length-reverse (x ∷ xs) =
    rw (reverse-append (x ∷ []) xs)
      (omega (arith, length-append {0} (reverse xs) (x ∷ []), length-reverse xs))

-- The rows that will still put their ids on the stack: those whose parent is not collected yet.
abbrev waits : List ℕ → Option ℕ → ℕ
waits collected none = 0
waits collected (some p) = if elem p collected then 0 else 1

abbrev pub waiting : List ℕ → List Category → ℕ
waiting collected [] = 0
waiting collected (c ∷ rows) = waits collected c.parent_id + waiting collected rows

waiting-visit :
    (x : ℕ) (collected : List ℕ) (rows : List Category)
    → elem x collected ≡ false
    → waiting (collected ++ x ∷ []) rows + length (children_of rows x) ≡ waiting collected rows
waiting-visit x collected [] h = omega arith
waiting-visit x collected (c ∷ rows) h = go c.parent_id refl (waiting-visit x collected rows h)
  where
    go :
        (o : Option ℕ)
        → c.parent_id ≡ o
        → waiting (collected ++ x ∷ []) rows + length (children_of rows x) ≡ waiting collected rows
        → waiting (collected ++ x ∷ []) (c ∷ rows) + length (children_of (c ∷ rows) x)
          ≡ waiting collected (c ∷ rows)
    go none e ih = ground arith
    go (some p) e ih = ground (arith, elem-append p collected (x ∷ []))

pub waiting-le : (collected : List ℕ) (rows : List Category) → waiting collected rows ≤ length rows
waiting-le collected [] = omega arith
waiting-le collected (c ∷ rows) = ground (arith, waiting-le collected rows)

-- Every child of a collected row is collected or on the stack.
abbrev pub IsClosed : List Category → List ℕ → List ℕ → Type 0
IsClosed rows pending collected =
    (p k : ℕ)
    → elem p collected ≡ true
    → elem k (children_of rows p) ≡ true
    → (elem k pending || elem k collected) ≡ true

pub IsClosed-skip :
    (rows : List Category) (current : ℕ) (pending collected : List ℕ)
    → elem current collected ≡ true
    → IsClosed rows (current ∷ pending) collected
    → IsClosed rows pending collected
IsClosed-skip rows current pending collected seen h p k hp hk = ground (arith, h p k hp hk)

pub IsClosed-visit :
    (rows : List Category) (current : ℕ) (pending collected : List ℕ)
    → IsClosed rows (current ∷ pending) collected
    → IsClosed rows (reverse (children_of rows current) ++ pending) (collected ++ current ∷ [])
IsClosed-visit rows current pending collected h p k hp hk = ground (
  arith,
  h p k,
  elem-append p collected (current ∷ []),
  elem-append k collected (current ∷ []),
  elem-append k (reverse (children_of rows current)) pending,
  elem-reverse k (children_of rows current),
)

pub measure-visit :
    (rows : List Category) (current : ℕ) (pending collected : List ℕ)
    → elem current collected ≡ false
    → length (reverse (children_of rows current) ++ pending)
        + waiting (collected ++ current ∷ []) rows
      ≡ length pending + waiting collected rows
measure-visit rows current pending collected h = omega (
  arith,
  length-append {0} (reverse (children_of rows current)) pending,
  length-reverse (children_of rows current),
  waiting-visit current collected rows h,
)

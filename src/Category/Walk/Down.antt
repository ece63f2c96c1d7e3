-- ===== src/Category/Walk/Down.antt =====
-- The walk of `collect_branch_ids` of media_service/core/category_tree.py, and the rows under a
-- row.
use media_service_m.Category.Walk.Visits.{
  IsClosed, IsClosed-skip, IsClosed-visit, elem-append, elem-reverse, measure-visit, waiting,
  waiting-le,
}
use media_service_m.Prelude.{
  ℕ, zero, suc, ◌+◌, ◌<◌, true, false, not, ◌||◌, ◌&&◌, List, [], ◌∷◌, ◌++◌, ◌≡◌, refl, inl, inr,
  ◌↔◌, arith, length, elem, no_repeats, Bool-cases, ==-refl, sym,
}
use mathlib.Core.Path.{subst}
use mathlib.Core.List.{reverse}
use media_service_m.Model.Rows.{Category}
use media_service_m.Category.Walk.{children_of, collect_loop, collect_branch_ids}

-- A row of the table lies under `root`, by one or more `parent_id` steps, or is `root`.
pub data Under (rows : List Category) (root : ℕ) : ℕ → Type 0 where
  itself : Under rows root root
  below : {p k : ℕ} → Under rows root p → elem k (children_of rows p) ≡ true → Under rows root k

module _ (fuel : ℕ) (rows : List Category) (current : ℕ) (pending collected : List ℕ) where
  collect_loop-seen :
      elem current collected ≡ true
      → collect_loop (suc fuel) rows (current ∷ pending) collected
        ≡ collect_loop fuel rows pending collected
  unfolding collect_loop
  collect_loop-seen seen = rw (seen, collect_loop)

  collect_loop-new :
      elem current collected ≡ false
      → collect_loop (suc fuel) rows (current ∷ pending) collected
        ≡ collect_loop fuel rows
            (reverse (children_of rows current) ++ pending)
            (collected ++ current ∷ [])
  unfolding collect_loop
  collect_loop-new new = rw (new, collect_loop)

-- A result that covers what was collected or on the stack, and all below it.
abbrev Covers : List Category → List ℕ → List ℕ → List ℕ → Type 0
Covers rows pending collected result =
    IsClosed rows [] result
    × ((k : ℕ) → (elem k pending || elem k collected) ≡ true → elem k result ≡ true)

Covers-skip :
    (rows : List Category) (current : ℕ) (pending collected result : List ℕ)
    → elem current collected ≡ true
    → Covers rows pending collected result
    → Covers rows (current ∷ pending) collected result
Covers-skip rows current pending collected result seen c = (c.0, λ k hk. c.1 k (ground arith))

Covers-visit :
    (rows : List Category) (current : ℕ) (pending collected result : List ℕ)
    → Covers rows (reverse (children_of rows current) ++ pending) (collected ++ current ∷ []) result
    → Covers rows (current ∷ pending) collected result
Covers-visit rows current pending collected result c = (
  c.0,
  λ k hk. c.1 k (
      ground (
        arith,
        elem-append k (reverse (children_of rows current)) pending,
        elem-append k collected (current ∷ []),
      )),
)

collect_loop_complete :
    (fuel : ℕ) (rows : List Category) (pending collected : List ℕ)
    → length pending + waiting collected rows < fuel
    → IsClosed rows pending collected
    → Covers rows pending collected (collect_loop fuel rows pending collected)
unfolding collect_loop
collect_loop_complete zero rows pending collected h closed = absurd (omega arith)
collect_loop_complete (suc fuel) rows [] collected h closed = (closed, λ k hk. hk)
collect_loop_complete (suc fuel) rows (current ∷ pending) collected h closed =
    elim (Bool-cases (elem current collected)) [
      | inl seen ↦
          subst (Covers rows (current ∷ pending) collected)
            (sym (collect_loop-seen fuel rows current pending collected seen))
            (Covers-skip rows current pending collected (collect_loop fuel rows pending collected)
              seen
              (collect_loop_complete fuel rows pending collected (omega arith)
                (IsClosed-skip rows current pending collected seen closed)))
      | inr new ↦
          let pending' = reverse (children_of rows current) ++ pending in
          let collected' = collected ++ current ∷ [] in
          subst (Covers rows (current ∷ pending) collected)
            (sym (collect_loop-new fuel rows current pending collected new))
            (Covers-visit rows current pending collected
              (collect_loop fuel rows pending' collected')
              (collect_loop_complete fuel rows pending' collected'
                (omega (arith, measure-visit rows current pending collected new))
                (IsClosed-visit rows current pending collected closed)))
    ]

-- What is collected or on the stack lies in the branch.
abbrev IsInBranch : List Category → ℕ → List ℕ → List ℕ → Type 0
IsInBranch rows root pending collected =
    (k : ℕ) → (elem k pending || elem k collected) ≡ true → Under rows root k

IsInBranch-visit :
    (rows : List Category) (root current : ℕ) (pending collected : List ℕ)
    → IsInBranch rows root (current ∷ pending) collected
    → IsInBranch rows root
        (reverse (children_of rows current) ++ pending)
        (collected ++ current ∷ [])
IsInBranch-visit rows root current pending collected h j hj =
    elim (Bool-cases (elem j (children_of rows current))) [
      | inl child ↦ below (h current (ground (arith, ==-refl current))) child
      | inr other ↦ h j (
          ground (
            arith,
            elem-append j (reverse (children_of rows current)) pending,
            elem-append j collected (current ∷ []),
            elem-reverse j (children_of rows current),
          ))
    ]

collect_loop_sound :
    (fuel : ℕ) (rows : List Category) (root : ℕ) (pending collected : List ℕ)
    → IsInBranch rows root pending collected
    → IsInBranch rows root [] (collect_loop fuel rows pending collected)
unfolding collect_loop
collect_loop_sound zero rows root pending collected h k hk = h k (ground arith)
collect_loop_sound (suc fuel) rows root [] collected h k hk = h k (ground arith)
collect_loop_sound (suc fuel) rows root (current ∷ pending) collected h k hk =
    elim (Bool-cases (elem current collected)) [
      | inl seen ↦
          subst (IsInBranch rows root [])
            (sym (collect_loop-seen fuel rows current pending collected seen))
            (collect_loop_sound fuel rows root pending collected (λ j hj. h j (ground arith))) k hk
      | inr new ↦
          subst (IsInBranch rows root [])
            (sym (collect_loop-new fuel rows current pending collected new))
            (collect_loop_sound fuel rows root (reverse (children_of rows current) ++ pending)
              (collected ++ current ∷ []) (IsInBranch-visit rows root current pending collected h))
            k hk
    ]

no_repeats-append :
    (xs : List ℕ) (x : ℕ) → no_repeats (xs ++ x ∷ []) ≡ (no_repeats xs && not (elem x xs))
no_repeats-append [] x = refl
no_repeats-append (y ∷ xs) x = ground (arith, no_repeats-append xs x, elem-append y xs (x ∷ []))

collect_loop-no_repeats :
    (fuel : ℕ) (rows : List Category) (pending collected : List ℕ)
    → no_repeats collected ≡ true
    → no_repeats (collect_loop fuel rows pending collected) ≡ true
unfolding collect_loop
collect_loop-no_repeats zero rows pending collected h = h
collect_loop-no_repeats (suc fuel) rows [] collected h = h
collect_loop-no_repeats (suc fuel) rows (current ∷ pending) collected h =
    elim (Bool-cases (elem current collected)) [
      | inl seen ↦
          subst (λ r. no_repeats r ≡ true)
            (sym (collect_loop-seen fuel rows current pending collected seen))
            (collect_loop-no_repeats fuel rows pending collected h)
      | inr new ↦
          subst (λ r. no_repeats r ≡ true)
            (sym (collect_loop-new fuel rows current pending collected new))
            (collect_loop-no_repeats fuel rows (reverse (children_of rows current) ++ pending)
              (collected ++ current ∷ []) (ground (arith, no_repeats-append collected current)))
    ]

module _ (rows : List Category) (root : ℕ) where
  collected-Covers : Covers rows (root ∷ []) [] (collect_branch_ids rows root)
  unfolding collect_branch_ids
  collected-Covers =
      collect_loop_complete (length rows + 2) rows (root ∷ []) []
        (omega (arith, waiting-le [] rows)) (λ p k hp hk. ground arith)

  collected_all : (k : ℕ) → Under rows root k → elem k (collect_branch_ids rows root) ≡ true
  collected_all k itself = collected-Covers.1 root (ground (arith, ==-refl root))
  collected_all k (below {p} u child) =
      ground (arith, collected-Covers.0 p k (collected_all p u) child)

  collected_only : (k : ℕ) → elem k (collect_branch_ids rows root) ≡ true → Under rows root k
  unfolding collect_branch_ids
  collected_only =
      collect_loop_sound (length rows + 2) rows root (root ∷ []) []
        (λ k hk. only_root k (ground arith))
    where
      only_root : (k : ℕ) → k ≡ root → Under rows root k
      only_root k e = subst (Under rows root) (sym e) itself

  -- The branch filter covers exactly the root and the rows under it, whatever the order of the rows
  -- and also where the stored `parent_id`s run in a circle, and names each of them once.
  pub collect_branch_ids-Under :
      ((k : ℕ) → (elem k (collect_branch_ids rows root) ≡ true) ↔ Under rows root k)
      × (no_repeats (collect_branch_ids rows root) ≡ true)
  unfolding collect_branch_ids
  collect_branch_ids-Under = (
    λ k. (collected_only k, collected_all k),
    collect_loop-no_repeats (length rows + 2) rows (root ∷ []) [] refl,
  )

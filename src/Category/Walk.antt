-- ===== src/Category/Walk.antt =====
-- The walks over `parent_id`: `collect_branch_ids` of media_service/core/category_tree.py,
-- `_reject_cycle` and `_reject_depth_overflow` of media_service/controllers/category.py. A
-- `while` loop takes fuel, one round for each row and two more.
pub mod Down
pub mod Visits
pub mod Up
pub mod Cycles
use media_service_m.Prelude.{
  ℕ, zero, suc, ◌+◌, Bool, true, false, Option, none, some, List, [], ◌∷◌, ◌++◌, map, ◌==◌, ltb,
  leb, max, opt_eq, if◌then◌else◌, filter, length, elem, Text, codes,
}
use mathlib.Core.List.{reverse}
use media_service_m.Model.Rows.{Category, category_is}
use media_service_m.Model.Table.{find_row}

abbrev pub child_of : ℕ → Category → Bool
child_of p c = opt_eq c.parent_id (some p)

abbrev pub category_id : Category → ℕ
category_id c = c.id

-- `children.get(current, ())`: the ids of the rows under `current`, in the rows' order.
abbrev pub children_of : List Category → ℕ → List ℕ
children_of rows p = map category_id (filter (child_of p) rows)

-- The loop of `collect_branch_ids`. `pending` is the stack, its top first, so that `extend` puts
-- the children on it in reverse. `seen` holds the same ids as `collected`.
unfoldable pub collect_loop : ℕ → List Category → List ℕ → List ℕ → List ℕ
collect_loop zero rows pending collected = collected
collect_loop (suc fuel) rows [] collected = collected
collect_loop (suc fuel) rows (current ∷ pending) collected = elim (elem current collected) [
  | true ↦ collect_loop fuel rows pending collected
  | false ↦
      collect_loop fuel rows (reverse (children_of rows current) ++ pending)
        (collected ++ current ∷ [])
]

unfoldable pub collect_branch_ids : List Category → ℕ → List ℕ
unfolding collect_loop
collect_branch_ids rows root_id = collect_loop (length rows + 2) rows (root_id ∷ []) []

abbrev parent_of : Option Category → Option ℕ
parent_of none = none
parent_of (some c) = c.parent_id

-- `session.get(Category, ancestor_id).parent_id`; a missing row ends the walk.
abbrev pub parent_id_of : List Category → ℕ → Option ℕ
parent_id_of rows k = parent_of (find_row (category_is k) rows)

-- The loop of `_reject_cycle`: whether the walk from `ancestor_id` meets `category_id`.
unfoldable pub cycle_loop : ℕ → List Category → ℕ → Option ℕ → List ℕ → Bool
cycle_loop zero rows category_id ancestor_id seen = false
cycle_loop (suc fuel) rows category_id none seen = false
cycle_loop (suc fuel) rows category_id (some ancestor_id) seen = elim (ancestor_id == category_id) [
  | true ↦ true
  | false ↦ elim (elem ancestor_id seen) [
    | true ↦ false
    | false ↦ cycle_loop fuel rows category_id (parent_id_of rows ancestor_id) (ancestor_id ∷ seen)
  ]
]

unfoldable pub would_cycle : List Category → ℕ → ℕ → Bool
unfolding cycle_loop
would_cycle rows category_id parent_id =
    cycle_loop (length rows + 2) rows category_id (some parent_id) []

-- The first loop of `_reject_depth_overflow`: the ancestors from `ancestor_id` up, itself counted.
unfoldable pub ancestor_loop : ℕ → List Category → Option ℕ → List ℕ → ℕ → ℕ
ancestor_loop zero rows ancestor_id seen depth = depth
ancestor_loop (suc fuel) rows none seen depth = depth
ancestor_loop (suc fuel) rows (some k) seen depth = elim (find_row (category_is k) rows) [
  | none ↦ depth
  | some row ↦ elim (elem k seen) [
    | true ↦ depth
    | false ↦ ancestor_loop fuel rows row.parent_id (k ∷ seen) (depth + 1)
  ]
]

unfoldable pub parent_depth : List Category → Option ℕ → ℕ
unfolding ancestor_loop
parent_depth rows parent_id = ancestor_loop (length rows + 2) rows parent_id [] 0

abbrev at_height : ℕ → ℕ → ℕ × ℕ
at_height h k = (k, h)

-- Its second loop: the greatest height met below a category.
unfoldable pub height_loop : ℕ → List Category → List (ℕ × ℕ) → List ℕ → ℕ → ℕ
height_loop zero rows pending seen best = best
height_loop (suc fuel) rows [] seen best = best
height_loop (suc fuel) rows ((current, height) ∷ pending) seen best = elim (elem current seen) [
  | true ↦ height_loop fuel rows pending seen best
  | false ↦
      height_loop fuel rows
        (reverse (map (at_height (height + 1)) (children_of rows current)) ++ pending)
        (current ∷ seen) (max best height)
]

unfoldable pub branch_height : List Category → Option ℕ → ℕ
unfolding height_loop
branch_height rows none = 1
branch_height rows (some k) = height_loop (length rows + 2) rows ((k, 1) ∷ []) [] 1

-- ===== src/Tests/CategoryTests.antt =====
-- The category theorems on the tree 2 over 3.
use media_service_m.Prelude.{
  ℕ, suc, ◌<◌, List, none, sum_by, true, ◌≡◌, ◌↔◌, refl, some, [], ◌∷◌, map, All, codes, elem,
  no_repeats, arith,
}
use media_service_m.Category.Walk.{collect_branch_ids, would_cycle, category_id}
use media_service_m.Category.Walk.Down.{Under, collect_branch_ids-Under}
use media_service_m.Category.Walk.Up.{Chain, here, up, would_cycle_iff}
use media_service_m.Category.Scope.{
  in_scope, scoped_query, resolve_category_ids, categories_in_scope, unique_ids, unique_loop,
  resolve_each, load_category,
}
use media_service_m.Category.Scope.Resolve.{resolve_category_ids-in_scope}
use media_service_m.Category.Crud.{CategoryCreate, create_category}
use media_service_m.Category.Crud.Invariant.{IsForest}
use media_service_m.Model.Rows.{Category, Db, category_is}
use media_service_m.Model.Table.{find_row}
use media_service_m.Category.Scope.{find_category}
use media_service_m.Import.Paths.{ImportManifest, node, no_more, child}
use media_service_m.Import.Tree.{recreate_tree}
use media_service_m.Import.Forest.{start, next, imports, creates, history-IsForest}
use media_service_m.Tests.Data.{alice, conf, ext, rows, root_category, leaf_category}

collect_branch_ids-Under_example :
    ((k : ℕ) → (elem k (collect_branch_ids rows.categories 2) ≡ true) ↔ Under rows.categories 2 k)
    × (no_repeats (collect_branch_ids rows.categories 2) ≡ true)
collect_branch_ids-Under_example = collect_branch_ids-Under rows.categories 2

would_cycle_iff_example : (would_cycle rows.categories 2 3 ≡ true) ↔ Chain rows.categories 3 2
would_cycle_iff_example = would_cycle_iff rows.categories 2 3

resolve_category_ids-in_scope_example :
    ((k : ℕ)
      → elem k (map category_id (leaf_category ∷ root_category ∷ [])) ≡ elem k (3 ∷ 2 ∷ 3 ∷ []))
    × (no_repeats (map category_id (leaf_category ∷ root_category ∷ [])) ≡ true)
    × All (λ row. in_scope alice row ≡ true) (leaf_category ∷ root_category ∷ [])
    × (categories_in_scope alice (3 ∷ 2 ∷ 3 ∷ []) rows ≡ leaf_category ∷ root_category ∷ [])
unfolding resolve_category_ids unique_ids unique_loop resolve_each load_category scoped_query
    in_scope
resolve_category_ids-in_scope_example =
    resolve_category_ids-in_scope alice (3 ∷ 2 ∷ 3 ∷ []) rows (leaf_category ∷ root_category ∷ [])
      refl

no_path_to_leaf : (a b : ℕ) → Chain rows.categories a b → a ≡ 2 → b ≡ 3 → ⊥
no_path_to_leaf a b here e f = absurd (omega arith)
no_path_to_leaf a b (up step rest) e f = absurd (ground arith)

rows-IsForest : IsForest rows.categories
rows-IsForest = record {
  parents = λ k p e. ground arith;
  acyclic = λ k p e chain. no_path_to_leaf p k chain (ground arith) (ground arith);
  slugs = λ a b ha hb h. ground arith;
}

abbrev new_leaf : CategoryCreate
new_leaf = record { name = codes "Old"; slug = codes "old"; parent_id = some 3 }

-- An id above all those that are stored.
abbrev next_category : Db → ℕ
next_category d = suc (sum_by category_id d.categories)

above_all :
    (cs : List Category) (k : ℕ) → sum_by category_id cs < k → find_row (category_is k) cs ≡ none
above_all [] k h = refl
above_all (c ∷ cs) k h = ground (arith, above_all cs k)

next_category-is_fresh : (d : Db) → find_category (next_category d) d ≡ none
next_category-is_fresh d = above_all d.categories (next_category d) (omega arith)

abbrev document : ImportManifest
document = record {
  category_tree =
      child
        (node (codes "Work") (codes "work")
          (child (node (codes "Bills") (codes "bills") no_more) no_more))
        no_more;
  objects = [];
}

abbrev imported : Db
imported = (recreate_tree next_category conf ext alice document rows).1

abbrev extended : Db
extended = (create_category conf alice new_leaf (next_category imported) imported).1

history-IsForest_example : IsForest extended.categories
history-IsForest_example =
    history-IsForest conf ext next_category next_category-is_fresh rows extended
      (next (next start (imports alice document)) (creates alice new_leaf)) rows-IsForest

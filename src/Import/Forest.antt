-- ===== src/Import/Forest.antt =====
-- The category tree under imports: `ensure_category_path` of media_service/controllers/category.py
-- and `recreate_tree` of media_service/controllers/transfer_import.py, beside the requests of
-- `CategoryController`.
use mathlib.Core.Path.{subst}
use media_service_m.Prelude.{
  ℕ, ◌+◌, Bool, Option, none, some, List, [], ◌∷◌, ◌++◌, Text, ltb, ◌≡◌, ◌≢◌, refl, ap, inl, inr,
  arith, Option-cases, Bool-cases, length, ==-refl,
}
use media_service_m.Prelude.Sorting.{sort_rows}
use media_service_m.Effect.{Result, ok, err}
use media_service_m.Model.Rows.{Category, Db, UserModel, category_is}
use media_service_m.Model.Table.{
  find_row, save_row, In-find_row, find_row-In-none, find_row-append_none,
}
use media_service_m.Model.Store.{Externals, Settings}
use media_service_m.Category.Scope.{find_category}
use media_service_m.Category.Crud.{
  sibling_with_slug, is_sibling, CategoryCreate, CategoryUpdate, create_category, update_category,
  delete_category,
}
use media_service_m.Category.Crud.Invariant.{IsForest, save_row-IsForest}
use media_service_m.Category.Crud.Operations.{
  no_path_to_fresh, not_cycle, create_category-IsForest, update_category-IsForest,
  delete_category-IsForest,
}
use media_service_m.Import.Paths.{CategoryChain, PathMap, ImportManifest, named_paths}
use media_service_m.Import.Tree.{
  parent_key, path_lt, level_row, ensure_levels, ensure_category_path, recreate_each, no_tree,
  recreate_named, recreate_tree, RecreatedTree, tree_with,
}
use media_service_m.Import.Growth.{
  new_row, sibling_at, ensure_levels-onward, resolved_on, recreate_each-onward,
  recreate_named-within,
}

save_row-new :
    (p : Category → Bool) (c : Category) (rows : List Category)
    → find_row p rows ≡ none
    → save_row p c rows ≡ rows ++ c ∷ []
save_row-new p c [] h = refl
save_row-new p c (x ∷ rows) h = elim (Bool-cases (p x)) [
  | inl met ↦ ground arith
  | inr other ↦ rw other (ap (λ cs. x ∷ cs) (save_row-new p c rows (ground (arith, other, h))))
]

-- A parent, if there is one, is stored.
abbrev IsStoredParent : Option Category → Db → Type 0
IsStoredParent none d = Unit
IsStoredParent (some c) d = find_row (category_is c.id) d.categories ≢ none

module _ (fresh : Db → ℕ) (is_fresh : (d : Db) → find_category (fresh d) d ≡ none) where
  has_parent :
      (parent : Option Category) (d : Db)
      → IsStoredParent parent d
      → (p : ℕ) → parent_key parent ≡ some p
      → find_row (category_is p) d.categories ≢ none
  has_parent none d h p e = ground arith
  has_parent (some c) d h p e = ground arith

  new_row-IsForest :
      (u : UserModel) (parent : Option Category) (name slug : Text) (d : Db)
      → IsForest d.categories
      → IsStoredParent parent d
      → sibling_at fresh u slug parent d ≡ none
      → IsForest (new_row fresh u (parent_key parent) name slug d).categories
  unfolding sibling_with_slug
  new_row-IsForest u parent name slug d f stored missing =
      let row = level_row fresh u (parent_key parent) name slug d in
      subst IsForest (save_row-new (category_is row.id) row d.categories (is_fresh d)) (
        save_row-IsForest d.categories row f (record {
          has_parent = has_parent parent d stored;
          above = λ p e. not_cycle d.categories row.id p (
              no_path_to_fresh d.categories row.id f (is_fresh d) p
                (has_parent parent d stored p e));
          free = λ b hb h. ground (
            arith,
            find_row-In-none (is_sibling slug (parent_key parent) u.tenant_id u.id none)
                d.categories b missing hb,
          );
        }))

  new_row-IsStored :
      (u : UserModel) (parent_id : Option ℕ) (name slug : Text) (d : Db)
      → IsStoredParent
          (some (level_row fresh u parent_id name slug d))
          (new_row fresh u parent_id name slug d)
  new_row-IsStored u parent_id name slug d gone = ground (
    arith,
    find_row-append_none (category_is (fresh d)) d.categories
        (level_row fresh u parent_id name slug d ∷ []) (is_fresh d),
    ==-refl (fresh d),
    gone,
  )

  sibling-IsStored :
      (u : UserModel) (parent : Option Category) (slug : Text) (d : Db) (row : Category)
      → sibling_at fresh u slug parent d ≡ some row
      → IsStoredParent (some row) d
  unfolding sibling_with_slug
  sibling-IsStored u parent slug d row found gone = ground (
    arith,
    find_row-In-none (category_is row.id) d.categories row gone (
        In-find_row (is_sibling slug (parent_key parent) u.tenant_id u.id none) d.categories row
          found),
    ==-refl row.id,
  )

  ensure_levels-IsForest :
      (u : UserModel) (chain : CategoryChain) (parent : Option Category) (n : ℕ) (d : Db)
      → IsForest d.categories
      → IsStoredParent parent d
      → IsForest (ensure_levels fresh u chain parent n d).1.categories
  unfolding ensure_levels
  ensure_levels-IsForest u [] parent n d f stored = f
  ensure_levels-IsForest u ((name, slug) ∷ chain) parent n d f stored =
      elim (Option-cases (sibling_at fresh u slug parent d)) [
        | inl missing ↦ rw (ensure_levels-onward fresh u name slug chain parent n d none missing) (
            ensure_levels-IsForest u chain
              (some (level_row fresh u (parent_key parent) name slug d)) (n + 1)
              (new_row fresh u (parent_key parent) name slug d)
              (new_row-IsForest u parent name slug d f stored missing)
              (new_row-IsStored u (parent_key parent) name slug d))
        | inr (row, found) ↦
            rw (ensure_levels-onward fresh u name slug chain parent n d (some row) found) (
              ensure_levels-IsForest u chain (some row) (n + 0) d f
                (sibling-IsStored u parent slug d row found))
      ]

  ensure_category_path-IsForest :
      (u : UserModel) (chain : CategoryChain) (d : Db)
      → IsForest d.categories
      → IsForest (ensure_category_path fresh u chain d).1.categories
  unfolding ensure_category_path
  ensure_category_path-IsForest u chain d f = ensure_levels-IsForest u chain none 0 d f tt

  resolved_on-IsForest :
      (u : UserModel) (key : Text) (paths : PathMap CategoryChain) (tree : RecreatedTree)
      (r : Result (Category × ℕ)) (e : Db)
      → IsForest e.categories
      → ((t : RecreatedTree) → IsForest (recreate_each fresh u paths t e).1.categories)
      → IsForest (resolved_on fresh u key paths tree (r, e)).1.categories
  resolved_on-IsForest u key paths tree (err raised) e f k = f
  resolved_on-IsForest u key paths tree (ok resolved) e f k = k (tree_with fresh tree key resolved)

  recreate_each-IsForest :
      (u : UserModel) (paths : PathMap CategoryChain) (tree : RecreatedTree) (d : Db)
      → IsForest d.categories
      → IsForest (recreate_each fresh u paths tree d).1.categories
  unfolding recreate_each
  recreate_each-IsForest u [] tree d f = f
  recreate_each-IsForest u ((key, chain) ∷ paths) tree d f =
      let call = ensure_category_path fresh u chain d in
      let after : IsForest call.1.categories = ensure_category_path-IsForest u chain d f in
      rw (recreate_each-onward fresh u key chain paths tree d call refl) (
        resolved_on-IsForest u key paths tree call.0 call.1 after
          (λ t. recreate_each-IsForest u paths t call.1 after))

  recreate_named-IsForest :
      (conf : Settings) (u : UserModel) (named : Result (PathMap CategoryChain)) (d : Db)
      → IsForest d.categories
      → IsForest (recreate_named fresh conf u named d).1.categories
  recreate_named-IsForest conf u (err raised) d f = f
  recreate_named-IsForest conf u (ok chains) d f =
      elim (Bool-cases (ltb conf.import_max_categories (length chains))) [
        | inl over ↦ rw over f
        | inr within ↦
            rw (recreate_named-within fresh conf u chains d within)
              (recreate_each-IsForest u (sort_rows path_lt chains) (no_tree fresh) d f)
      ]

  pub recreate_tree-IsForest :
      (conf : Settings) (ext : Externals) (u : UserModel) (manifest : ImportManifest) (d : Db)
      → IsForest d.categories
      → IsForest (recreate_tree fresh conf ext u manifest d).1.categories
  unfolding recreate_tree
  recreate_tree-IsForest conf ext u manifest d f =
      recreate_named-IsForest conf u (named_paths conf ext manifest) d f

-- One request that writes categories, of any caller: those of the controller, with a new id where a
-- row is created, and the paths of an import.
pub data CategoryStep (conf : Settings) (ext : Externals) (fresh : Db → ℕ) (d : Db)
    : Db → Type 0 where
  creates :
      (u : UserModel) (req : CategoryCreate)
      → CategoryStep conf ext fresh d (create_category conf u req (fresh d) d).1
  updates :
      (u : UserModel) (k : ℕ) (req : CategoryUpdate)
      → CategoryStep conf ext fresh d (update_category conf u k req d).1
  deletes : (u : UserModel) (k : ℕ) → CategoryStep conf ext fresh d (delete_category u k d).1
  imports :
      (u : UserModel) (manifest : ImportManifest)
      → CategoryStep conf ext fresh d (recreate_tree fresh conf ext u manifest d).1

pub data CategoryHistory (conf : Settings) (ext : Externals) (fresh : Db → ℕ) (d : Db)
    : Db → Type 0 where
  start : CategoryHistory conf ext fresh d d
  next :
      {e f : Db}
      → CategoryHistory conf ext fresh d e
      → CategoryStep conf ext fresh e f
      → CategoryHistory conf ext fresh d f

module _ (conf : Settings) (ext : Externals) (fresh : Db → ℕ)
    (is_fresh : (d : Db) → find_category (fresh d) d ≡ none) where
  step-IsForest :
      (d e : Db) → CategoryStep conf ext fresh d e → IsForest d.categories → IsForest e.categories
  step-IsForest d e (creates u req) f =
      create_category-IsForest conf u req (fresh d) d f (is_fresh d)
  step-IsForest d e (updates u k req) f = update_category-IsForest conf u k req d f
  step-IsForest d e (deletes u k) f = delete_category-IsForest u k d f
  step-IsForest d e (imports u manifest) f =
      recreate_tree-IsForest fresh is_fresh conf ext u manifest d f

  -- Over any sequence of category requests and imports, accepted or refused and of any callers,
  -- every parent stays a stored row, no category becomes its own ancestor, and siblings keep
  -- different slugs, if the ids that the database hands out are new.
  pub history-IsForest :
      (d e : Db)
      → CategoryHistory conf ext fresh d e
      → IsForest d.categories
      → IsForest e.categories
  history-IsForest d e start f = f
  history-IsForest d e (next {e = v} before step) f =
      step-IsForest v e step (history-IsForest d v before f)

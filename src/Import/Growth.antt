-- ===== src/Import/Growth.antt =====
-- The turns of the loops of `ensure_category_path` and `recreate_tree`, and what holds from before
-- to after because each category that they create is one more row.
use media_service_m.Prelude.{
  ℕ, ◌+◌, true, false, Option, none, some, [], ◌∷◌, ◌++◌, length, ltb, Text, ◌≡◌, refl, ap, ◌∙◌,
  inl, inr, arith, Option-cases, Bool-cases,
}
use media_service_m.Prelude.Sorting.{sort_rows}
use media_service_m.Effect.{Result, ok, err}
use media_service_m.Model.Rows.{Category, Db, UserModel}
use media_service_m.Model.Store.{Externals, Settings}
use media_service_m.Category.Crud.{sibling_with_slug}
use media_service_m.Import.Paths.{ImportManifest, CategoryChain, PathMap, named_paths}
use media_service_m.Import.Tree.{
  parent_key, path_lt, RecreatedTree, level_row, resolve_level, ensure_levels, ensure_category_path,
  tree_with, recreate_each, no_tree, recreate_named, recreate_tree,
}

module _ (fresh : Db → ℕ) where
  abbrev pub new_row : UserModel → Option ℕ → Text → Text → Db → Db
  new_row u parent_id name slug d =
      (resolve_level fresh none (level_row fresh u parent_id name slug d) d).1.1

  -- The rest of the loop after a level whose sibling lookup gave `o`.
  abbrev pub onward :
      UserModel
      → Text
      → Text
      → CategoryChain
      → Option Category
      → ℕ
      → Db
      → Option Category
      → (Option Category × ℕ) × Db
  onward u name slug chain parent n d o =
      let (row, (new, e)) =
        resolve_level fresh o (level_row fresh u (parent_key parent) name slug d) d in
      ensure_levels fresh u chain (some row) (n + new) e

  abbrev pub sibling_at : UserModel → Text → Option Category → Db → Option Category
  sibling_at u slug parent d = sibling_with_slug slug (parent_key parent) u.tenant_id u.id none d

  pub ensure_levels-onward :
      (u : UserModel) (name slug : Text) (chain : CategoryChain) (parent : Option Category) (n : ℕ)
      (d : Db) (o : Option Category)
      → sibling_at u slug parent d ≡ o
      → ensure_levels fresh u ((name, slug) ∷ chain) parent n d
        ≡ onward u name slug chain parent n d o
  unfolding ensure_levels
  ensure_levels-onward u name slug chain parent n d o h = ap (onward u name slug chain parent n d) h

  -- The loop after a path, from what `ensure_category_path` gave for it.
  abbrev pub resolved_on :
      UserModel
      → Text
      → PathMap CategoryChain
      → RecreatedTree
      → Result (Category × ℕ) × Db
      → Result RecreatedTree × Db
  resolved_on u key paths tree (err raised, e) = (err raised, e)
  resolved_on u key paths tree (ok resolved, e) =
      recreate_each fresh u paths (tree_with fresh tree key resolved) e

  resolved_on-case :
      (u : UserModel) (key : Text) (paths : PathMap CategoryChain) (tree : RecreatedTree)
      (r : Result (Category × ℕ)) (e : Db)
      → elim r [
        | err raised ↦ (err raised, e)
        | ok resolved ↦ recreate_each fresh u paths (tree_with fresh tree key resolved) e
      ]
        ≡ resolved_on u key paths tree (r, e)
  resolved_on-case u key paths tree (ok resolved) e = refl
  resolved_on-case u key paths tree (err raised) e = refl

  pub recreate_each-onward :
      (u : UserModel) (key : Text) (chain : CategoryChain) (paths : PathMap CategoryChain)
      (tree : RecreatedTree) (d : Db) (r : Result (Category × ℕ) × Db)
      → ensure_category_path fresh u chain d ≡ r
      → recreate_each fresh u ((key, chain) ∷ paths) tree d ≡ resolved_on u key paths tree r
  unfolding recreate_each
  recreate_each-onward u key chain paths tree d r h =
      resolved_on-case u key paths tree (ensure_category_path fresh u chain d).0
        (ensure_category_path fresh u chain d).1
      ∙ ap (resolved_on u key paths tree) h

  pub recreate_named-within :
      (conf : Settings) (u : UserModel) (chains : PathMap CategoryChain) (d : Db)
      → ltb conf.import_max_categories (length chains) ≡ false
      → recreate_named fresh conf u (ok chains) d
        ≡ recreate_each fresh u (sort_rows path_lt chains) (no_tree fresh) d
  recreate_named-within conf u chains d within = rw within refl

  pub recreate_named-over :
      (conf : Settings) (u : UserModel) (chains : PathMap CategoryChain) (t : RecreatedTree)
      (d : Db)
      → ltb conf.import_max_categories (length chains) ≡ true
      → (recreate_named fresh conf u (ok chains) d).0 ≡ ok t
      → ⊥
  recreate_named-over conf u chains t d over returned = ground arith

  -- A relation that holds between a database and itself, that composes, and that one more category
  -- respects.
  module _ (R : Db → Db → Type 0) (self : (d : Db) → R d d)
      (trans : (d e f : Db) → R d e → R e f → R d f)
      (one_more : (d : Db) (c : Category)
        → R d (record d { categories = d.categories ++ c ∷ [] })) where
    grows-onward :
        (u : UserModel) (name slug : Text) (chain : CategoryChain) (parent : Option Category)
        (n : ℕ) (d : Db)
        → R (new_row u (parent_key parent) name slug d) (onward u name slug chain parent n d none).1
        → R d (onward u name slug chain parent n d none).1
    grows-onward u name slug chain parent n d h =
        trans d (new_row u (parent_key parent) name slug d)
          (onward u name slug chain parent n d none).1
          (one_more d (level_row fresh u (parent_key parent) name slug d)) h

    pub ensure_levels-grows :
        (u : UserModel) (chain : CategoryChain) (parent : Option Category) (n : ℕ) (d : Db)
        → R d (ensure_levels fresh u chain parent n d).1
    unfolding ensure_levels
    ensure_levels-grows u [] parent n d = self d
    ensure_levels-grows u ((name, slug) ∷ chain) parent n d =
        elim (Option-cases (sibling_at u slug parent d)) [
          | inl missing ↦ rw (ensure_levels-onward u name slug chain parent n d none missing) (
              grows-onward u name slug chain parent n d (
                ensure_levels-grows u chain
                  (some (level_row fresh u (parent_key parent) name slug d)) (n + 1)
                  (new_row u (parent_key parent) name slug d)))
          | inr (row, found) ↦
              rw (ensure_levels-onward u name slug chain parent n d (some row) found)
                (ensure_levels-grows u chain (some row) (n + 0) d)
        ]

    pub ensure_category_path-grows :
        (u : UserModel) (chain : CategoryChain) (d : Db)
        → R d (ensure_category_path fresh u chain d).1
    unfolding ensure_category_path
    ensure_category_path-grows u chain d = ensure_levels-grows u chain none 0 d

    resolved_on-grows :
        (u : UserModel) (key : Text) (paths : PathMap CategoryChain) (tree : RecreatedTree)
        (r : Result (Category × ℕ)) (d e : Db)
        → R d e
        → ((t : RecreatedTree) → R e (recreate_each fresh u paths t e).1)
        → R d (resolved_on u key paths tree (r, e)).1
    resolved_on-grows u key paths tree (err raised) d e h k = h
    resolved_on-grows u key paths tree (ok resolved) d e h k =
        trans d e (recreate_each fresh u paths (tree_with fresh tree key resolved) e).1 h
          (k (tree_with fresh tree key resolved))

    pub recreate_each-grows :
        (u : UserModel) (paths : PathMap CategoryChain) (tree : RecreatedTree) (d : Db)
        → R d (recreate_each fresh u paths tree d).1
    unfolding recreate_each
    recreate_each-grows u [] tree d = self d
    recreate_each-grows u ((key, chain) ∷ paths) tree d =
        rw
          (recreate_each-onward u key chain paths tree d (ensure_category_path fresh u chain d)
            refl)
          (resolved_on-grows u key paths tree (ensure_category_path fresh u chain d).0 d
            (ensure_category_path fresh u chain d).1 (ensure_category_path-grows u chain d)
            (λ t. recreate_each-grows u paths t (ensure_category_path fresh u chain d).1))

    recreate_named-grows :
        (conf : Settings) (u : UserModel) (named : Result (PathMap CategoryChain)) (d : Db)
        → R d (recreate_named fresh conf u named d).1
    recreate_named-grows conf u (err raised) d = self d
    recreate_named-grows conf u (ok chains) d =
        elim (Bool-cases (ltb conf.import_max_categories (length chains))) [
          | inl over ↦ rw over (self d)
          | inr within ↦
              rw (recreate_named-within conf u chains d within)
                (recreate_each-grows u (sort_rows path_lt chains) (no_tree fresh) d)
        ]

    pub recreate_tree-grows :
        (conf : Settings) (ext : Externals) (u : UserModel) (manifest : ImportManifest) (d : Db)
        → R d (recreate_tree fresh conf ext u manifest d).1
    unfolding recreate_tree
    recreate_tree-grows conf ext u manifest d =
        recreate_named-grows conf u (named_paths conf ext manifest) d

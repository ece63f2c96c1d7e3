-- ===== src/Import/Reuse.antt =====
-- What an import finds when it is run again: `ensure_category_path` of
-- media_service/controllers/category.py and `recreate_tree` of
-- media_service/controllers/transfer_import.py, over the categories that an earlier run left.
pub mod Again
use media_service_m.Prelude.{
  ℕ, suc, ◌+◌, ◌-◌, ◌≤◌, Bool, true, false, Option, none, some, List, [], ◌∷◌, ◌++◌, length, ltb,
  Text, ◌≡◌, refl, sym, ap, length-append, ◌∙◌, ◌⊎◌, inl, inr, arith, Option-cases, Bool-cases,
  text_eq_refl, opt_eq_refl, ==-refl, text_eq,
}
use media_service_m.Prelude.Sorting.{sort_rows}
use media_service_m.Effect.{Result, ok, err, Error, Result-cases}
use media_service_m.Model.Rows.{Category, Db, UserModel}
use media_service_m.Model.Table.{
  find_row, find_row-append_some, find_row-append_none, find_row-passes,
}
use media_service_m.Model.Store.{Externals, Settings}
use media_service_m.Category.Crud.{sibling_with_slug, is_sibling, in_write_scope}
use media_service_m.Import.Paths.{ImportManifest, CategoryChain, PathMap, named_paths}
use media_service_m.Import.Tree.{
  parent_key, path_lt, RecreatedTree, level_row, resolve_level, ensure_levels, ensure_category_path,
  ended, tree_with, recreate_each, no_tree, recreate_named, recreate_tree,
}
use media_service_m.Import.Growth.{
  new_row, onward, sibling_at, ensure_levels-onward, ensure_levels-grows,
  ensure_category_path-grows, resolved_on, recreate_each-onward, recreate_each-grows,
  recreate_named-within, recreate_named-over,
}

-- The categories of `e` are those of `d` and later ones.
abbrev pub Extends : Db → Db → Type 0
Extends d e = (more : List Category) × (e.categories ≡ d.categories ++ more)

append_assoc : (xs ys zs : List Category) → (xs ++ ys) ++ zs ≡ xs ++ (ys ++ zs)
append_assoc [] ys zs = refl
append_assoc (x ∷ xs) ys zs = ap (λ rest. x ∷ rest) (append_assoc xs ys zs)

append_nil : (xs : List Category) → xs ≡ xs ++ []
append_nil [] = refl
append_nil (x ∷ xs) = ap (λ rest. x ∷ rest) (append_nil xs)

pub Extends-self : (d : Db) → Extends d d
Extends-self d = ([], append_nil d.categories)

pub Extends-trans : (d e f : Db) → Extends d e → Extends e f → Extends d f
Extends-trans d e f (more, h) (later, k) =
    (more ++ later, k ∙ ap (λ cs. cs ++ later) h ∙ append_assoc d.categories more later)

pub Extends-one_more :
    (d : Db) (c : Category) → Extends d (record d { categories = d.categories ++ c ∷ [] })
Extends-one_more d c = (c ∷ [], refl)

sibling-kept :
    (slug : Text) (parent_id tenant : Option ℕ) (owner : ℕ) (d e : Db) (row : Category)
    → Extends d e
    → sibling_with_slug slug parent_id tenant owner none d ≡ some row
    → sibling_with_slug slug parent_id tenant owner none e ≡ some row
unfolding sibling_with_slug
sibling-kept slug parent_id tenant owner d e row (more, h) found =
    rw h (
      find_row-append_some (is_sibling slug parent_id tenant owner none) d.categories more row
        found)

own_scope :
    (tenant : Option ℕ) (owner : ℕ) (parent_id : Option ℕ) (name slug : Text) (k : ℕ)
    → in_write_scope tenant owner (record {
      id = k;
      name = name;
      slug = slug;
      parent_id = parent_id;
      owner_id = owner;
      tenant_id = tenant;
    })
      ≡ true
own_scope (some t) owner parent_id name slug k = ==-refl t
own_scope none owner parent_id name slug k = ==-refl owner

pub plus_zero : (m : ℕ) → m + 0 ≡ m
plus_zero m = omega arith

-- A path that ended at `row` with some rows created ends at it with none.
ended-again :
    (o : Option Category) (k n : ℕ) (row : Category)
    → ended (o, k) ≡ ok (row, n)
    → ended (o, 0) ≡ ok (row, 0)
ended-again none k n row h = ground arith
ended-again (some held) k n row h = ground arith

module _ (fresh : Db → ℕ) where
  level_row-is_sibling :
      (u : UserModel) (parent_id : Option ℕ) (name slug : Text) (d : Db)
      → is_sibling slug parent_id u.tenant_id u.id none (level_row fresh u parent_id name slug d)
        ≡ true
  level_row-is_sibling u parent_id name slug d =
      rw
        (
          text_eq_refl slug,
          own_scope u.tenant_id u.id parent_id name slug (fresh d),
          opt_eq_refl parent_id,
        )
        refl

  -- A new row is the sibling that its slug finds from then on.
  sibling-created :
      (u : UserModel) (parent_id : Option ℕ) (name slug : Text) (d : Db)
      → sibling_with_slug slug parent_id u.tenant_id u.id none d ≡ none
      → sibling_with_slug slug parent_id u.tenant_id u.id none
          (new_row fresh u parent_id name slug d)
        ≡ some (level_row fresh u parent_id name slug d)
  unfolding sibling_with_slug
  sibling-created u parent_id name slug d missing =
      rw
        (find_row-append_none (is_sibling slug parent_id u.tenant_id u.id none) d.categories
          (level_row fresh u parent_id name slug d ∷ []) missing)
        (rw (level_row-is_sibling u parent_id name slug d) refl)

  -- What a loop that ended as `was` does when it is run again.
  abbrev Repeats :
      UserModel → CategoryChain → Option Category → ℕ → Db → (Option Category × ℕ) × Db → Type 0
  Repeats u chain parent m e was =
      Extends was.1 e → ensure_levels fresh u chain parent m e ≡ ((was.0.0, m), e)

  -- The turn of a level whose slug finds `row` in `v`, from where the loop went on to `was`.
  level-again :
      (u : UserModel) (name slug : Text) (chain : CategoryChain) (parent : Option Category)
      (n m : ℕ) (v e : Db) (row : Category) (was : (Option Category × ℕ) × Db)
      → sibling_at fresh u slug parent v ≡ some row
      → was ≡ ensure_levels fresh u chain (some row) n v
      → Repeats u chain (some row) m e (ensure_levels fresh u chain (some row) n v)
      → Repeats u ((name, slug) ∷ chain) parent m e was
  level-again u name slug chain parent n m v e row was found same again h =
      let extends : Extends (ensure_levels fresh u chain (some row) n v).1 e = rw (sym same) h in
      ensure_levels-onward fresh u name slug chain parent m e (some row) (
        sibling-kept slug (parent_key parent) u.tenant_id u.id v e row
          (Extends-trans v (ensure_levels fresh u chain (some row) n v).1 e
            (ensure_levels-grows fresh Extends Extends-self Extends-trans Extends-one_more u chain
              (some row) n v)
            extends)
          found)
      ∙ ap (λ (k : ℕ). ensure_levels fresh u chain (some row) k e) (plus_zero m)
      ∙ again extends
      ∙ ap (λ (r : (Option Category × ℕ) × Db). ((r.0.0, m), e)) (sym same)

  -- Run again over what it left and any later categories, the path ends at the same row, and no row
  -- is created.
  ensure_levels_again :
      (u : UserModel) (chain : CategoryChain) (parent : Option Category) (n m : ℕ) (d e : Db)
      → Repeats u chain parent m e (ensure_levels fresh u chain parent n d)
  unfolding ensure_levels
  ensure_levels_again u [] parent n m d e h = refl
  ensure_levels_again u ((name, slug) ∷ chain) parent n m d e h =
      elim (Option-cases (sibling_at fresh u slug parent d)) [
        | inl missing ↦
            level-again u name slug chain parent (n + 1) m
              (new_row fresh u (parent_key parent) name slug d) e
              (level_row fresh u (parent_key parent) name slug d)
              (ensure_levels fresh u ((name, slug) ∷ chain) parent n d)
              (sibling-created u (parent_key parent) name slug d missing)
              (ensure_levels-onward fresh u name slug chain parent n d none missing)
              (ensure_levels_again u chain
                (some (level_row fresh u (parent_key parent) name slug d)) (n + 1) m
                (new_row fresh u (parent_key parent) name slug d) e)
              h
        | inr (row, found) ↦
            level-again u name slug chain parent (n + 0) m d e row
              (ensure_levels fresh u ((name, slug) ∷ chain) parent n d) found
              (ensure_levels-onward fresh u name slug chain parent n d (some row) found)
              (ensure_levels_again u chain (some row) (n + 0) m d e) h
      ]

  -- `ensure_category_path` over what an earlier call left and any later categories.
  pub ensure_category_path-again :
      (u : UserModel) (chain : CategoryChain) (row : Category) (n : ℕ) (d e : Db)
      → (ensure_category_path fresh u chain d).0 ≡ ok (row, n)
      → Extends (ensure_category_path fresh u chain d).1 e
      → ensure_category_path fresh u chain e ≡ (ok (row, 0), e)
  unfolding ensure_category_path
  ensure_category_path-again u chain row n d e returned h =
      rw (ensure_levels_again u chain none 0 0 d e h) (
        rw
          (ended-again (ensure_levels fresh u chain none 0 d).0.0
            (ensure_levels fresh u chain none 0 d).0.1 n row returned)
          refl)

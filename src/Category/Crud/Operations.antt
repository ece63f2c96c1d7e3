-- ===== src/Category/Crud/Operations.antt =====
-- `create_category`, `update_category` and `delete_category` of
-- media_service/controllers/category.py, returned and refused.
use media_service_m.Prelude.{
  ℕ, true, false, ◌&&◌, ◌||◌, Option, none, some, List, ◌≡◌, ◌≢◌, ◌⊎◌, inl, inr, arith,
  Option-cases, Bool-cases, opt_eq, opt_eq_iff, text_eq, text_eq_iff, is_some, is_none,
}
use media_service_m.Effect.{Result, ok, is_ok, Result-cases}
use media_service_m.Model.Rows.{Category, Db, UserModel, category_is}
use media_service_m.Model.Table.{find_row, save_row, In-find_row, find_row-In-none}
use media_service_m.Model.Store.{Settings}
use media_service_m.Category.Walk.{would_cycle, child_of}
use media_service_m.Category.Walk.Up.{Chain, here, up, would_cycle_iff}
use media_service_m.Category.Scope.{find_category, load_category}
use media_service_m.Category.Scope.Resolve.{load_category-in_scope}
use media_service_m.Category.Crud.{
  CategoryCreate, CategoryUpdate, created, patched, is_sibling, load_parent, sibling_with_slug,
  create_category, update_category, delete_category, changed_parent, check_reparent, apply_update,
}
use media_service_m.Category.Crud.Invariant.{
  IsForest, CanSave, save_row-IsForest, delete_row-IsForest,
}

load_parent-found :
    (u : UserModel) (p : ℕ) (tenant : Option ℕ) (owner : ℕ) (d : Db) (row : Category)
    → load_parent u p tenant owner d ≡ ok row
    → find_category p d ≢ none
unfolding load_parent
load_parent-found u p tenant owner d row h = λ e. ground arith

module _ (conf : Settings) (u : UserModel) (req : CategoryCreate) (new_id : ℕ) (d : Db) where
  abbrev creates : Result Category × Db
  creates = create_category conf u req new_id d

  create_category-refused : is_ok creates.0 ≡ false → creates.1 ≡ d
  unfolding create_category
  create_category-refused h = ground arith

  create_category-returned :
      is_ok creates.0 ≡ true
      → (creates.1.categories ≡ save_row (category_is new_id) (created u req new_id) d.categories)
        × (sibling_with_slug req.slug req.parent_id u.tenant_id u.id none d ≡ none)
        × ((p : ℕ) → req.parent_id ≡ some p → find_category p d ≢ none)
  unfolding create_category
  create_category-returned h = (ground arith, ground arith, λ p e missing. ground arith)

-- Nothing stored leads to an id that no row has.
pub no_path_to_fresh :
    (rows : List Category) (m : ℕ)
    → IsForest rows
    → find_row (category_is m) rows ≡ none
    → (k : ℕ) → find_row (category_is k) rows ≢ none
    → ¬ Chain rows k m
no_path_to_fresh rows m f fresh k there here = there fresh
no_path_to_fresh rows m f fresh k there (up {p = p} e rest) =
    no_path_to_fresh rows m f fresh p (f.parents k p e) rest

pub not_cycle : (rows : List Category) (c p : ℕ) → ¬ Chain rows p c → would_cycle rows c p ≡ false
not_cycle rows c p free = elim (Bool-cases (would_cycle rows c p)) [
  | inl met ↦ absurd (free ((would_cycle_iff rows c p).0 met))
  | inr safe ↦ safe
]

-- Creating a category, accepted or refused, keeps parents stored, the tree without circles and
-- sibling slugs different, if the id that the database hands out is new.
pub create_category-IsForest :
    (conf : Settings) (u : UserModel) (req : CategoryCreate) (new_id : ℕ) (d : Db)
    → IsForest d.categories
    → find_category new_id d ≡ none
    → IsForest (create_category conf u req new_id d).1.categories
unfolding sibling_with_slug
create_category-IsForest conf u req new_id d f fresh =
    elim (Bool-cases (is_ok (create_category conf u req new_id d).0)) [
      | inl returned ↦
          let (saved, free, parent) = create_category-returned conf u req new_id d returned in
          rw saved (
            save_row-IsForest d.categories (created u req new_id) f (record {
              has_parent = parent;
              above = λ p e.
                  not_cycle d.categories new_id p
                    (no_path_to_fresh d.categories new_id f fresh p (parent p e));
              free = λ b hb h. ground (
                arith,
                find_row-In-none (is_sibling req.slug req.parent_id u.tenant_id u.id none)
                    d.categories b free hb,
              );
            }))
      | inr refused ↦ rw (create_category-refused conf u req new_id d refused) f
    ]

check_reparent-ok :
    (u : UserModel) (row : Category) (parent_id : Option ℕ) (d : Db)
    → check_reparent u row parent_id d ≡ ok tt
    → (p : ℕ) → parent_id ≡ some p
    → (row.parent_id ≡ some p)
      ⊎ ((is_some (find_category p d) ≡ true) × (would_cycle d.categories row.id p ≡ false))
unfolding check_reparent
check_reparent-ok u row parent_id d h p e = elim (Bool-cases (opt_eq parent_id row.parent_id)) [
  | inl kept ↦ inl (ground (arith, opt_eq_iff parent_id row.parent_id))
  | inr moved ↦ inr (ground arith, ground arith)
]

module _ (conf : Settings) (u : UserModel) (row : Category) (req : CategoryUpdate) (d : Db) where
  abbrev updates : Result Category × Db
  updates = apply_update conf u row req d

  abbrev new_parent : Option ℕ
  new_parent = changed_parent req.new_parent_id row.parent_id

  apply_update-refused : is_ok updates.0 ≡ false → updates.1 ≡ d
  unfolding apply_update
  apply_update-refused h = ground arith

  apply_update-returned :
      is_ok updates.0 ≡ true
      → (updates.1.categories ≡ save_row (category_is row.id) (patched row req) d.categories)
        × (check_reparent u row new_parent d ≡ ok tt)
        × (((opt_eq new_parent row.parent_id && text_eq req.slug row.slug)
              || is_none (
                  sibling_with_slug req.slug new_parent row.tenant_id row.owner_id (some row.id) d))
            ≡ true)
  unfolding apply_update
  apply_update-returned h = (ground arith, ground arith, ground arith)

CanSave-patched :
    (conf : Settings) (u : UserModel) (row : Category) (req : CategoryUpdate) (d : Db)
    → IsForest d.categories
    → find_category row.id d ≡ some row
    → is_ok (apply_update conf u row req d).0 ≡ true
    → CanSave d.categories (patched row req)
unfolding sibling_with_slug
CanSave-patched conf u row req d f stored returned =
    let (saved, checked, free) = apply_update-returned conf u row req d returned in
    let new_parent = changed_parent req.new_parent_id row.parent_id in
    let reparent = check_reparent-ok u row new_parent d checked in
    record {
      has_parent = λ p e. elim (reparent p e) [
        | inl kept ↦ f.parents row.id p (ground arith)
        | inr (there, above) ↦ λ missing. ground arith
      ];
      above = λ p e. elim (reparent p e) [
        | inl kept ↦ not_cycle d.categories row.id p (f.acyclic row.id p (ground arith))
        | inr (there, above) ↦ above
      ];
      free = λ b hb h.
          elim (Bool-cases (opt_eq new_parent row.parent_id && text_eq req.slug row.slug)) [
            | inl kept ↦
                f.slugs row b (In-find_row (category_is row.id) d.categories row stored) hb (
                  ground
                    (arith, opt_eq_iff new_parent row.parent_id, text_eq_iff req.slug row.slug))
            | inr moved ↦
                elim (Option-cases (
                  sibling_with_slug req.slug new_parent row.tenant_id row.owner_id (some row.id)
                    d)) [
                      | inl none_holds ↦ ground (
                        arith,
                        find_row-In-none
                            (is_sibling req.slug new_parent row.tenant_id row.owner_id
                              (some row.id))
                            d.categories b none_holds hb,
                      )
                      | inr (c, e) ↦ ground arith
                    ]
          ];
    }

-- Updating a category, accepted or refused, keeps parents stored, the tree without circles and
-- sibling slugs different.
pub update_category-IsForest :
    (conf : Settings) (u : UserModel) (category_id : ℕ) (req : CategoryUpdate) (d : Db)
    → IsForest d.categories
    → IsForest (update_category conf u category_id req d).1.categories
unfolding update_category
update_category-IsForest conf u category_id req d f =
    elim (Result-cases (load_category u category_id d)) [
      | inr (e, refused) ↦ rw refused f
      | inl (row, loaded) ↦
          let (seen, same_id, stored) = load_category-in_scope u category_id d row loaded in
          rw loaded (elim (Bool-cases (is_ok (apply_update conf u row req d).0)) [
            | inl returned ↦ rw (apply_update-returned conf u row req d returned).0 (
                save_row-IsForest d.categories (patched row req) f
                  (CanSave-patched conf u row req d f (ground arith) returned))
            | inr refused ↦ rw (apply_update-refused conf u row req d refused) f
          ])
    ]

-- Deleting a category, accepted or refused, keeps parents stored, the tree without circles and
-- sibling slugs different: a row that still has children stays.
pub delete_category-IsForest :
    (u : UserModel) (category_id : ℕ) (d : Db)
    → IsForest d.categories
    → IsForest (delete_category u category_id d).1.categories
unfolding delete_category
delete_category-IsForest u category_id d f = elim (Result-cases (load_category u category_id d)) [
  | inr (e, refused) ↦ rw refused f
  | inl (row, loaded) ↦
      let (seen, same_id, stored) = load_category-in_scope u category_id d row loaded in
      rw loaded (elim (Option-cases (find_row (child_of category_id) d.categories)) [
        | inl leaf ↦ rw (leaf, same_id) (delete_row-IsForest d.categories category_id f leaf)
        | inr (c, child) ↦ rw child f
      ])
]

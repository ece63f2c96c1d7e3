-- ===== src/Category/Crud.antt =====
-- The guards and the operations that write categories, of media_service/controllers/category.py:
-- `_load_parent`, `_reject_cycle`, `_reject_depth_overflow`, `_sibling_with_slug` and the methods of
-- `CategoryController`.
pub mod Invariant
pub mod Operations
use media_service_m.Prelude.{
  ℕ, ◌+◌, Bool, true, false, not, ◌&&◌, ◌||◌, Option, none, some, List, [], ◌∷◌, ◌==◌, ltb, opt_eq,
  is_none, is_some, if◌then◌else◌, filter, Text, text_eq,
}
use media_service_m.Effect.{
  Exec, Result, ok, err, http, pure, raise, raise_if, lift, gets, modify, ◌>>=◌, ◌>>◌,
  not_enough_permissions, parent_not_found, parent_other_tenant, would_be_cycle, tree_too_deep,
  sibling_slug_taken, has_children,
}
use media_service_m.Model.Rows.{Category, MediaObjectCategoryLink, Db, UserModel, category_is}
use media_service_m.Model.Table.{find_row, save_row, delete_row}
use media_service_m.Model.Store.{Settings}
use media_service_m.Category.Walk.{would_cycle, parent_depth, branch_height, child_of}
use media_service_m.Category.Scope.{in_scope, find_category, load_category}

-- `_scope_key(a) == _scope_key(b)`: a tenanted row is scoped by its tenant, another by its owner.
abbrev pub scope_key : Option ℕ → ℕ → Option ℕ × Option ℕ
scope_key (some t) owner = (some t, none)
scope_key none owner = (none, some owner)

abbrev pub same_tree : Option ℕ → ℕ → Option ℕ → ℕ → Bool
same_tree tenant owner tenant' owner' =
    opt_eq (scope_key tenant owner).0 (scope_key tenant' owner').0
    && opt_eq (scope_key tenant owner).1 (scope_key tenant' owner').1

abbrev checked_parent : UserModel → Option ℕ → ℕ → Option Category → Result Category
checked_parent u tenant owner none = err (http 404 parent_not_found)
checked_parent u tenant owner (some parent) =
    if not (in_scope u parent)
    then err (http 403 not_enough_permissions)
    else if not (same_tree parent.tenant_id parent.owner_id tenant owner)
    then err (http 409 parent_other_tenant)
    else ok parent

-- `_load_parent`, for a child of the given tenant and owner.
unfoldable pub load_parent : UserModel → ℕ → Option ℕ → ℕ → Db → Result Category
unfolding in_scope
load_parent u parent_id tenant owner d = checked_parent u tenant owner (find_category parent_id d)

-- The tenant or owner test of the write-scope queries.
abbrev pub in_write_scope : Option ℕ → ℕ → Category → Bool
in_write_scope (some t) owner c = opt_eq c.tenant_id (some t)
in_write_scope none owner c = is_none c.tenant_id && c.owner_id == owner

abbrev pub categories_in_write_scope : Option ℕ → ℕ → Db → List Category
categories_in_write_scope tenant owner d = filter (in_write_scope tenant owner) d.categories

-- The test of `_reject_depth_overflow`.
unfoldable pub is_too_deep : Settings → Option ℕ → ℕ → Option ℕ → Option ℕ → Db → Bool
is_too_deep conf tenant owner parent_id category_id d =
    let rows = categories_in_write_scope tenant owner d in
    ltb conf.import_max_category_depth
      (parent_depth rows parent_id + branch_height rows category_id)

abbrev not_excluded : Option ℕ → Category → Bool
not_excluded none c = true
not_excluded (some k) c = not (c.id == k)

abbrev pub is_sibling : Text → Option ℕ → Option ℕ → ℕ → Option ℕ → Category → Bool
is_sibling slug parent_id tenant owner exclude_id c =
    text_eq c.slug slug
    && (in_write_scope tenant owner c
        && (opt_eq c.parent_id parent_id && not_excluded exclude_id c))

-- `_sibling_with_slug`.
unfoldable pub sibling_with_slug : Text → Option ℕ → Option ℕ → ℕ → Option ℕ → Db → Option Category
sibling_with_slug slug parent_id tenant owner exclude_id d =
    find_row (is_sibling slug parent_id tenant owner exclude_id) d.categories

-- `CategoryCreate`; its slug is made from the name by the schema.
pub record CategoryCreate : Type 0 where
  pub name : Text
  pub slug : Text
  pub parent_id : Option ℕ

-- `CategoryUpdate`: the outer `none` is a `parent_id` left out of the body.
pub record CategoryUpdate : Type 0 where
  pub name : Text
  pub slug : Text
  pub new_parent_id : Option (Option ℕ)

abbrev check_parent : UserModel → Option ℕ → Option ℕ → ℕ → Exec Db (Unit {0})
check_parent u none tenant owner = pure tt
check_parent u (some parent_id) tenant owner = do
  d ← gets (λ (d : Db). d)
  lift (load_parent u parent_id tenant owner d)
  pure tt

abbrev save_category : Category → Db → Db
save_category row d = record d { categories = save_row (category_is row.id) row d.categories }

abbrev pub created : UserModel → CategoryCreate → ℕ → Category
created u req new_id = record {
  id = new_id;
  name = req.name;
  slug = req.slug;
  parent_id = req.parent_id;
  owner_id = u.id;
  tenant_id = u.tenant_id;
}

-- `CategoryController.create_category`; `new_id` is the key that the database gives the row.
unfoldable pub create_category : Settings → UserModel → CategoryCreate → ℕ → Exec Db Category
unfolding load_parent is_too_deep sibling_with_slug
create_category conf u req new_id = do
  check_parent u req.parent_id u.tenant_id u.id
  d ← gets (λ (d : Db). d)
  raise_if (is_too_deep conf u.tenant_id u.id req.parent_id none d) 409 tree_too_deep
  raise_if (is_some (sibling_with_slug req.slug req.parent_id u.tenant_id u.id none d)) 409
      sibling_slug_taken
  let row = created u req new_id
  modify (save_category row)
  pure row

abbrev changed_parent : Option (Option ℕ) → Option ℕ → Option ℕ
changed_parent none old = old
changed_parent (some new) old = new

abbrev reparented : UserModel → Category → Option ℕ → Db → Result (Unit {0})
reparented u row none d = ok tt
reparented u row (some parent_id) d = elim (load_parent u parent_id row.tenant_id row.owner_id d) [
  | err e ↦ err e
  | ok _ ↦
      if would_cycle d.categories row.id parent_id then err (http 409 would_be_cycle) else ok tt
]

-- The first guard of an update: only a parent that changes and is not null is checked.
unfoldable pub check_reparent : UserModel → Category → Option ℕ → Db → Result (Unit {0})
unfolding load_parent
check_reparent u row parent_id d =
    if opt_eq parent_id row.parent_id then ok tt else reparented u row parent_id d

abbrev pub patched : Category → CategoryUpdate → Category
patched row req = record row {
  name = req.name;
  slug = req.slug;
  parent_id = changed_parent req.new_parent_id row.parent_id;
}

-- The guards and the write of `update_category`, on the row that it loaded.
unfoldable pub apply_update : Settings → UserModel → Category → CategoryUpdate → Exec Db Category
apply_update conf u row req = do
  d ← gets (λ (d : Db). d)
  let parent_id = changed_parent req.new_parent_id row.parent_id
  let moved = not (opt_eq parent_id row.parent_id)
  lift (check_reparent u row parent_id d)
  raise_if (moved && is_too_deep conf row.tenant_id row.owner_id parent_id (some row.id) d) 409
      tree_too_deep
  raise_if
      ((moved || not (text_eq req.slug row.slug))
        && is_some
            (sibling_with_slug req.slug parent_id row.tenant_id row.owner_id (some row.id) d))
      409 sibling_slug_taken
  modify (save_category (patched row req))
  pure (patched row req)

-- `CategoryController.update_category`.
unfoldable pub update_category : Settings → UserModel → ℕ → CategoryUpdate → Exec Db Category
update_category conf u category_id req = do
  d ← gets (λ (d : Db). d)
  row ← lift (load_category u category_id d)
  apply_update conf u row req

abbrev linked_to : ℕ → MediaObjectCategoryLink → Bool
linked_to k l = l.category_id == k

-- `CategoryController.delete_category`; the link rows go with the category.
unfoldable pub delete_category : UserModel → ℕ → Exec Db (Unit {0})
unfolding load_category
delete_category u category_id = do
  d ← gets (λ (d : Db). d)
  row ← lift (load_category u category_id d)
  raise_if (is_some (find_row (child_of category_id) d.categories)) 409 has_children
  modify λ (d : Db). record d {
    categories = delete_row (category_is row.id) d.categories;
    links = delete_row (linked_to row.id) d.links;
  }

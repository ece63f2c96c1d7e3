-- ===== src/Access.antt =====
-- Who may see and who may change a media object: the loaders and the visibility policy of
-- media_service/controllers/objects.py, and the row filters of its listing.
pub mod Reads
use media_service_m.Prelude.{
  ℕ, Bool, true, false, not, ◌&&◌, ◌||◌, Option, none, some, ◌==◌, leb, opt_eq, is_none,
  if◌then◌else◌, Text, text_eq,
}
use media_service_m.Effect.{Result, ok, err, http, media_not_found, not_enough_permissions}
use media_service_m.Model.Enums.{
  MediaCategory, MediaVisibility, MediaObjectStatus, category_eq, visibility_eq, object_status_eq,
}
use media_service_m.Model.Rows.{MediaObject, Db, UserModel, object_is}
use media_service_m.Model.Table.{find_row}
use media_service_m.Model.Store.{Externals}

abbrev pub find_object : ℕ → Db → Option MediaObject
find_object k d = find_row (object_is k) d.objects

abbrev fetched : Bool → Option MediaObject → Result MediaObject
fetched include_deleted none = err (http 404 media_not_found)
fetched include_deleted (some o) =
    if not include_deleted && not (is_none o.deleted_at)
    then err (http 404 media_not_found)
    else ok o

-- `_fetch_object`.
unfoldable pub fetch_object : ℕ → Bool → Db → Result MediaObject
fetch_object object_id include_deleted d = fetched include_deleted (find_object object_id d)

-- A tenant that is there and is the object's.
abbrev in_tenant : Option ℕ → MediaObject → Bool
in_tenant none o = false
in_tenant (some t) o = opt_eq o.tenant_id (some t)

abbrev visible_to_user : UserModel → MediaObject → Bool
visible_to_user u o =
    (u.is_superuser || o.owner_user_id == u.id)
    || (visibility_eq o.visibility MediaVisibility.public
        || (visibility_eq o.visibility MediaVisibility.tenant && in_tenant u.tenant_id o))

unfoldable pub require_visibility_access : MediaObject → Option UserModel → Result (Unit {0})
require_visibility_access o none =
    if visibility_eq o.visibility MediaVisibility.public
    then ok tt
    else err (http 404 media_not_found)
require_visibility_access o (some u) =
    if visible_to_user u o then ok tt else err (http 403 not_enough_permissions)

abbrev guarded : Result (Unit {0}) → MediaObject → Result MediaObject
guarded (ok _) o = ok o
guarded (err e) o = err e

abbrev then_visible : Option UserModel → Result MediaObject → Result MediaObject
then_visible u (err e) = err e
then_visible u (ok o) = guarded (require_visibility_access o u) o

-- `_load_object_for_read`.
unfoldable pub load_object_for_read : Option UserModel → ℕ → Db → Result MediaObject
unfolding fetch_object require_visibility_access
load_object_for_read u object_id d = then_visible u (fetch_object object_id false d)

abbrev then_owned : UserModel → Result MediaObject → Result MediaObject
then_owned u (err e) = err e
then_owned u (ok o) =
    if not u.is_superuser && not (o.owner_user_id == u.id)
    then err (http 403 not_enough_permissions)
    else ok o

-- `_load_object`, the loader of every path that changes an object.
unfoldable pub load_object : UserModel → ℕ → Bool → Db → Result MediaObject
unfolding fetch_object
load_object u object_id include_deleted d = then_owned u (fetch_object object_id include_deleted d)

pub data SortField : Type 0 where
  original_filename category status size_bytes created_at : SortField

pub data SortOrder : Type 0 where
  asc desc : SortOrder

-- `ObjectListParams`; `limit` is from 1 to 100.
pub record ObjectListParams : Type 0 where
  pub category : Option MediaCategory
  pub visibility : Option MediaVisibility
  pub status : Option MediaObjectStatus
  pub mime_prefix : Option Text
  pub created_from : Option ℕ
  pub created_to : Option ℕ
  pub q : Option Text
  pub sort_by : SortField
  pub order : SortOrder
  pub limit : ℕ
  pub cursor : Option Text
  pub owner_user_id : Option ℕ
  pub include_deleted : Bool
  pub category_id : Option ℕ
  pub include_descendants : Bool
  pub uncategorized : Bool

abbrev owned_by : Option ℕ → MediaObject → Bool
owned_by none o = true
owned_by (some owner) o = o.owner_user_id == owner

abbrev tenant_clause : Option ℕ → MediaObject → Bool
tenant_clause none o = false
tenant_clause (some t) o =
    visibility_eq o.visibility MediaVisibility.tenant && opt_eq o.tenant_id (some t)

-- The `where` clauses of `_scoped_query`, as a test on a row.
unfoldable pub scoped_query : Option UserModel → ObjectListParams → MediaObject → Bool
scoped_query none params o =
    visibility_eq o.visibility MediaVisibility.public && is_none o.deleted_at
scoped_query (some u) params o =
    if u.is_superuser
    then owned_by params.owner_user_id o && (params.include_deleted || is_none o.deleted_at)
    else (o.owner_user_id == u.id
        || (visibility_eq o.visibility MediaVisibility.public || tenant_clause u.tenant_id o))
      && is_none o.deleted_at

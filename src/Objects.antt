-- ===== src/Objects.antt =====
-- The changes of a media object in media_service/controllers/objects.py: the update with its move
-- between buckets and the soft delete. `Scans` has the antivirus verdict and the download URL. A
-- public projection is the row itself.
pub mod Runs
pub mod Bytes
pub mod Deletion
pub mod Downloads
pub mod Scans
use media_service_m.Prelude.{
  ℕ, ◌+◌, Bool, true, false, not, ◌&&◌, ◌||◌, Option, none, some, List, [], ◌∷◌, ◌++◌, map, ◌==◌,
  if◌then◌else◌, filter, Text, codes, is_none, ltb, leb,
}
use media_service_m.Effect.{
  Exec, Result, ok, err, http, pure, raise, raise_if, or_raise, lift, gets, modify, ◌>>=◌, ◌>>◌,
  relocate_failed, commit_failed, download_not_available, presign_failed,
}
use media_service_m.Model.Enums.{
  MediaCategory, MediaVisibility, MediaObjectStatus, ScanStatus, visibility_eq, scan_eq,
}
use media_service_m.Model.Rows.{
  MediaObject, Category, MediaObjectCategoryLink, Db, UserModel, object_is,
}
use media_service_m.Model.Table.{save_row, delete_row}
use media_service_m.Model.Store.{ObjectStorage, Externals, Settings, World, commit, best_effort}
use media_service_m.Quota.{record_object_removed}
use media_service_m.Outbox.{record_event}
use media_service_m.Category.Scope.{resolve_category_ids}
use media_service_m.Keys.{strip, replace, last_segment, bucket_for_visibility}
use media_service_m.Disposition.{create_download_url}
use media_service_m.Access.{find_object, fetch_object, load_object, load_object_for_read}

abbrev pub save_object : MediaObject → Db → Db
save_object o d = record d { objects = save_row (object_is o.id) o d.objects }

-- The fields of a `MediaObjectUpdate`: the outer `none` is a field left out, an inner one is null.
pub record MediaObjectUpdate : Type 0 where
  pub new_visibility : Option (Option MediaVisibility)
  pub new_filename : Option (Option Text)
  pub new_category : Option (Option MediaCategory)
  pub category_ids : Option (List ℕ)

-- `update_data.get("visibility")`.
abbrev pub asked : {A : Type 0} → Option (Option A) → Option A
asked none = none
asked (some a) = a

abbrev is_null : {A : Type 0} → Option (Option A) → Bool
is_null none = false
is_null (some none) = true
is_null (some (some _)) = false

-- A null for a column that is NOT NULL: the commit refuses the row.
abbrev pub has_null : MediaObjectUpdate → Bool
has_null upd = is_null upd.new_visibility || is_null upd.new_category

abbrev pub or_old : {A : Type 0} → Option A → A → A
or_old none old = old
or_old (some new) old = new

-- `obj.sqlmodel_update(update_data)` and `updated_at`.
abbrev pub sqlmodel_update : MediaObjectUpdate → ℕ → MediaObject → MediaObject
sqlmodel_update upd now o = record o {
  visibility = or_old (asked upd.new_visibility) o.visibility;
  original_filename = or_old upd.new_filename o.original_filename;
  category = or_old (asked upd.new_category) o.category;
  updated_at = now;
}

abbrev is_link_of : ℕ → MediaObjectCategoryLink → Bool
is_link_of k l = l.media_object_id == k

abbrev link_to : ℕ → Category → MediaObjectCategoryLink
link_to object_id c = record { media_object_id = object_id; category_id = c.id }

-- `obj.user_categories = list(categories)`.
abbrev pub refile : ℕ → Option (List Category) → Db → Db
refile k none d = d
refile k (some categories) d = record d {
  links = delete_row (is_link_of k) d.links ++ map (link_to k) categories;
}

abbrev chosen : Result (List Category) → Result (Option (List Category))
chosen (ok categories) = ok (some categories)
chosen (err e) = err e

abbrev pub filing : UserModel → Option (List ℕ) → Db → Result (Option (List Category))
filing u none d = ok none
filing u (some ids) d = chosen (resolve_category_ids u ids d)

abbrev pub value_of_visibility : MediaVisibility → Text
value_of_visibility MediaVisibility.public = codes "public"
value_of_visibility MediaVisibility.private = codes "private"
value_of_visibility MediaVisibility.tenant = codes "tenant"
value_of_visibility MediaVisibility.sensitive = codes "sensitive"

abbrev pub deleted_row : ℕ → MediaObject → MediaObject
deleted_row now o = record o {
  deleted_at = some now;
  status = MediaObjectStatus.deleted;
  updated_at = now;
}

-- The rows of a soft delete: the row, the debit and the event, in one transaction.
unfoldable pub deletion_rows : MediaObject → ℕ → ℕ → Db → Db
deletion_rows o event_id now d =
    record_event (codes "object.deleted") o.id
      ((codes "visibility", value_of_visibility o.visibility) ∷ []) event_id now
      (record_object_removed o.owner_user_id o.tenant_id o.size_bytes now
        (save_object (deleted_row now o) d))

module _ {S : Type 0} (storage : ObjectStorage S) (conf : Settings) where
  -- `_relocate_for_visibility`: the bucket that the bytes have left behind, and the row repointed.
  unfoldable pub relocate_for_visibility :
      MediaObject → Option MediaVisibility → Exec S (Option ℕ × MediaObject)
  relocate_for_visibility o none store = (ok (none, o), store)
  relocate_for_visibility o (some v) store =
      let new_bucket = bucket_for_visibility conf v in
      let (done, store') =
        storage.copy_object o.storage_bucket o.object_key new_bucket o.object_key store in
      if visibility_eq v o.visibility
      then (ok (none, o), store)
      else if new_bucket == o.storage_bucket
      then (ok (none, o), store)
      else if done
      then (ok (some o.storage_bucket, record o { storage_bucket = new_bucket }), store')
      else (err (http 502 relocate_failed), store')

  -- `if old_bucket is not None: _best_effort_remove(bucket, object_key)`.
  abbrev pub removed_when_moved : Option ℕ → ℕ → Text → World S → World S
  removed_when_moved none bucket key w = w
  removed_when_moved (some _) bucket key w = best_effort (storage.remove_object bucket key) w

  abbrev pub removed_from : Option ℕ → Text → World S → World S
  removed_from none key w = w
  removed_from (some bucket) key w = best_effort (storage.remove_object bucket key) w

  -- The commit of an update, which the database may refuse: `commits` is its answer.
  unfoldable pub write_update :
      MediaObjectUpdate
      → Option (List Category)
      → ℕ
      → Bool
      → Option ℕ
      → MediaObject
      → Exec (World S) MediaObject
  write_update upd categories now commits old_bucket moved w =
      let o = sqlmodel_update upd now moved in
      if commits && not (has_null upd)
      then (
        ok o,
        removed_from old_bucket o.object_key
            (commit (refile o.id categories (save_object o w.db)) w),
      )
      else raise 500 commit_failed
          (removed_when_moved old_bucket moved.storage_bucket moved.object_key w)

  -- A routine that works on storage only.
  abbrev on_store : {A : Type 0} → Exec S A → Exec (World S) A
  on_store m w = let (r, store) = m w.store in (r, record w { store = store })

  -- `ObjectsController.update_object`.
  unfoldable pub update_object :
      UserModel → ℕ → MediaObjectUpdate → ℕ → Bool → Exec (World S) MediaObject
  update_object u object_id upd now commits = do
    w ← gets (λ (w : World S). w)
    o ← lift (load_object u object_id false w.db)
    categories ← lift (filing u upd.category_ids w.db)
    moved ← on_store (relocate_for_visibility o (asked upd.new_visibility))
    write_update upd categories now commits moved.0 moved.1

  -- `_archive_deleted_bytes`: the same move into the archive, where a failed copy only stays put.
  unfoldable pub archive_deleted_bytes : MediaObject → S → (Option ℕ × MediaObject) × S
  archive_deleted_bytes o store =
      let (done, store') =
        storage.copy_object o.storage_bucket o.object_key conf.bucket_archive o.object_key store in
      if o.storage_bucket == conf.bucket_archive
      then ((none, o), store)
      else if done
      then ((some o.storage_bucket, record o { storage_bucket = conf.bucket_archive }), store')
      else ((none, o), store')

  -- What is removed after the commit.
  unfoldable pub clean_deleted : Option ℕ → MediaObject → World S → World S
  clean_deleted (some bucket) o w = best_effort (storage.remove_object bucket o.object_key) w
  clean_deleted none o w =
      if visibility_eq o.visibility MediaVisibility.public
      then best_effort (storage.remove_object o.storage_bucket o.object_key) w
      else w

  unfoldable pub delete_live : MediaObject → ℕ → ℕ → World S → World S
  delete_live o event_id now w =
      let ((source, archived), store) = archive_deleted_bytes o w.store in
      clean_deleted source archived
        (record { db = deletion_rows archived event_id now w.db; store = store })

  -- `ObjectsController.delete_object`.
  unfoldable pub delete_object : UserModel → ℕ → ℕ → ℕ → Exec (World S) (Unit {0})
  delete_object u object_id event_id now = do
    w ← gets (λ (w : World S). w)
    o ← lift (load_object u object_id true w.db)
    modify (λ (v : World S). if not (is_none o.deleted_at) then v else delete_live o event_id now v)

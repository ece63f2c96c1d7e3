-- ===== src/Objects/Deletion/Archive.antt =====
-- The bytes of `delete_object` of media_service/controllers/objects.py:
-- `_archive_deleted_bytes` and the removals after the commit.
use mathlib.Core.Path.{subst, sym}
use media_service_m.Prelude.{
  ℕ, Bool, true, false, not, ◌&&◌, none, some, ◌==◌, ◌≡◌, arith, inl, inr, Bool-cases, Text,
}
use media_service_m.Effect.{Result, ok}
use media_service_m.Model.Enums.{MediaVisibility, visibility_eq}
use media_service_m.Model.Rows.{MediaObject, UserModel}
use media_service_m.Model.Store.{ObjectStorage, Settings, World}
use media_service_m.Access.{find_object, load_object}
use media_service_m.Objects.{
  archive_deleted_bytes, clean_deleted, delete_live, delete_object, deletion_rows, deleted_row,
}
use media_service_m.Objects.Bytes.{IsStorage, HasBytes, load_object-ok}
use media_service_m.Objects.Deletion.{
  delete_object-live, clean_deleted-db, archive-same, find_object-deletion_rows,
}

module _ {S : Type 0} (storage : ObjectStorage S) (conf : Settings) (holds : S → ℕ → Text → Bool)
    (laws : IsStorage storage holds) (o : MediaObject) where
  abbrev copy : S → Bool × S
  copy s = storage.copy_object o.storage_bucket o.object_key conf.bucket_archive o.object_key s

  abbrev copies : S → Bool
  copies s = (copy s).0

  archived-bytes :
      (w : World S)
      → (o.storage_bucket == conf.bucket_archive) ≡ false
      → (visibility_eq o.visibility MediaVisibility.public && not (copies w.store)) ≡ false
      → HasBytes holds o w.store
      → let ((source, archived), store) = archive_deleted_bytes storage conf o w.store in
        HasBytes holds archived
          (clean_deleted storage conf source archived (record w { store = store })).store
  unfolding archive_deleted_bytes clean_deleted
  archived-bytes w apart kept bytes = elim (Bool-cases (copies w.store)) [
    | inl done ↦
        rw (apart, done)
          (laws.removal_elsewhere o.storage_bucket o.object_key (copy w.store).1 conf.bucket_archive
            o.object_key apart
            (laws.copied o.storage_bucket o.object_key conf.bucket_archive o.object_key w.store
              bytes done))
    | inr raised ↦
        let hidden : visibility_eq o.visibility MediaVisibility.public ≡ false = ground arith in
        rw (apart, raised, hidden)
          (laws.copy_keeps o.storage_bucket o.object_key conf.bucket_archive o.object_key w.store
            o.storage_bucket o.object_key bytes)
  ]

  module _ (k event_id now : ℕ) (w : World S) where
    abbrev archived : MediaObject
    archived = (archive_deleted_bytes storage conf o w.store).0.1

    delete_live-found :
        o.id ≡ k
        → find_object k (delete_live storage conf o event_id now w).db
          ≡ some (deleted_row now archived)
    unfolding delete_live
    delete_live-found same_id =
        let ((source, row), store) = archive_deleted_bytes storage conf o w.store in
        let rows = deletion_rows archived event_id now w.db in
        let same = archive-same storage conf o w.store in
        rw (clean_deleted-db storage conf source archived (record { db = rows; store = store }))
          (find_object-deletion_rows k archived event_id now w.db (ground arith))

    delete_live-HasBytes :
        (o.storage_bucket == conf.bucket_archive) ≡ false
        → (visibility_eq o.visibility MediaVisibility.public && not (copies w.store)) ≡ false
        → HasBytes holds o w.store
        → HasBytes holds
            (deleted_row now archived)
            (delete_live storage conf o event_id now w).store
    unfolding delete_live
    delete_live-HasBytes =
        archived-bytes (record { db = deletion_rows archived event_id now w.db; store = w.store })

  -- Deleting a live object that has bytes and is not in the archive bucket keeps its bytes for the
  -- retention window, in the bucket that its row then names, unless it is public and its copy to the
  -- archive failed.
  pub delete_object-HasBytes :
      (u : UserModel) (k event_id now : ℕ) (w : World S) (row : MediaObject)
      → load_object u k true w.db ≡ ok o
      → o.deleted_at ≡ none
      → (o.storage_bucket == conf.bucket_archive) ≡ false
      → (visibility_eq o.visibility MediaVisibility.public && not (copies w.store)) ≡ false
      → HasBytes holds o w.store
      → find_object k (delete_object storage conf u k event_id now w).1.db ≡ some row
      → HasBytes holds row (delete_object storage conf u k event_id now w).1.store
  delete_object-HasBytes u k event_id now w row l live apart kept bytes found =
      let (there, same_id, allowed) = load_object-ok u k true w.db o l in
      let live_run = delete_object-live storage conf u k event_id now w o l live in
      let seen = delete_live-found k event_id now w same_id in
      let found' =
        subst (λ (r : Result (Unit {0}) × World S). find_object k r.1.db ≡ some row) live_run
          found in
      let same_row : deleted_row now (archived k event_id now w) ≡ row = cc (seen, found') in
      subst (λ (r : Result (Unit {0}) × World S). HasBytes holds row r.1.store) (sym live_run)
        (subst
          (λ (x : MediaObject). HasBytes holds x (delete_live storage conf o event_id now w).store)
          same_row (delete_live-HasBytes k event_id now w apart kept bytes))

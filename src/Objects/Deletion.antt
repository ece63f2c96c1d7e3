-- ===== src/Objects/Deletion.antt =====
-- The rows of `delete_object` of media_service/controllers/objects.py.
pub mod Archive
pub mod Debit
use mathlib.Core.Path.{subst, sym}
use media_service_m.Prelude.{
  ℕ, ◌+◌, ◌-◌, Bool, true, false, not, ◌&&◌, ◌||◌, Option, none, some, List, [], ◌∷◌, ◌++◌, ◌==◌,
  ◌≡◌, refl, ap, ◌⊎◌, inl, inr, arith, if◌then◌else◌, Option-cases, Bool-cases, Text, codes,
  is_none, ==-refl,
}
use media_service_m.Effect.{Result, ok, err, is_ok, Result-cases, Error, http, media_not_found}
use media_service_m.Model.Enums.{MediaVisibility, MediaObjectStatus, OutboxStatus, visibility_eq}
use media_service_m.Model.Rows.{MediaObject, OutboxEvent, Db, UserModel, object_is}
use media_service_m.Model.Table.{find_row, save_row}
use media_service_m.Model.Store.{ObjectStorage, Settings, World, best_effort}
use media_service_m.Quota.{record_object_removed, bytes_of, count_of}
use media_service_m.Quota.Checks.{
  same_scope, record_object_removed-totals, record_object_removed-with_usages,
}
use media_service_m.Access.{find_object, fetch_object, load_object, load_object_for_read}
use media_service_m.Access.Reads.{load_object_iff}
use media_service_m.Objects.{
  save_object, deleted_row, deletion_rows, value_of_visibility, archive_deleted_bytes,
  clean_deleted, delete_live, delete_object,
}
use media_service_m.Objects.Bytes.{IsStorage, HasBytes, find_object-save_object, load_object-ok}

-- The event of a deletion.
abbrev pub deletion_event : MediaObject → ℕ → ℕ → OutboxEvent
deletion_event o event_id now = record {
  id = event_id;
  event_type = codes "object.deleted";
  object_id = o.id;
  payload = (codes "visibility", value_of_visibility o.visibility) ∷ [];
  status = OutboxStatus.pending;
  attempts = 0;
  next_attempt_at = now;
  created_at = now;
  delivered_at = none;
}

-- What the deletion of `o` writes: the row marked, the event, and the debit of its owner's scope.
pub record IsDeletion (k : ℕ) (o : MediaObject) (event_id now : ℕ) (before after : Db)
    : Type 0 where
  pub row : MediaObject
  pub found : find_object k after ≡ some row
  pub marked : row ≡ deleted_row now (record o { storage_bucket = row.storage_bucket })
  pub told : after.events ≡ before.events ++ deletion_event o event_id now ∷ []
  pub debited :
      (owner : ℕ) (tenant : Option ℕ)
      → (bytes_of owner tenant after ≡ (
          if same_scope o.owner_user_id o.tenant_id owner tenant
          then bytes_of owner tenant before - o.size_bytes
          else bytes_of owner tenant before))
        × (count_of owner tenant after ≡ (
            if same_scope o.owner_user_id o.tenant_id owner tenant
            then count_of owner tenant before - 1
            else count_of owner tenant before))

pub find_object-deletion_rows :
    (k : ℕ) (o : MediaObject) (event_id now : ℕ) (d : Db)
    → o.id ≡ k
    → find_object k (deletion_rows o event_id now d) ≡ some (deleted_row now o)
unfolding deletion_rows
find_object-deletion_rows k o event_id now d same_id = ground (
  arith,
  find_object-save_object (deleted_row now o) d,
  record_object_removed-with_usages o.owner_user_id o.tenant_id o.size_bytes now
      (save_object (deleted_row now o) d),
)

deletion_rows-IsDeletion :
    (k : ℕ) (o archived : MediaObject) (event_id now : ℕ) (d : Db)
    → o.id ≡ k
    → archived ≡ record o { storage_bucket = archived.storage_bucket }
    → IsDeletion k o event_id now d (deletion_rows archived event_id now d)
unfolding deletion_rows
deletion_rows-IsDeletion k o archived event_id now d same_id same =
    let saved = save_object (deleted_row now archived) d in
    record {
      row = deleted_row now archived;
      found = find_object-deletion_rows k archived event_id now d (ground arith);
      marked = ground arith;
      told = ground (
        arith,
        record_object_removed-with_usages archived.owner_user_id archived.tenant_id
            archived.size_bytes now saved,
      );
      debited = λ owner tenant. ground (
        arith,
        record_object_removed-totals archived.owner_user_id archived.tenant_id archived.size_bytes
            now saved owner tenant,
      );
    }

module _ {S : Type 0} (storage : ObjectStorage S) (conf : Settings) where
  clean_deleted-db :
      (source : Option ℕ) (o : MediaObject) (w : World S)
      → (clean_deleted storage conf source o w).db ≡ w.db
  unfolding clean_deleted
  clean_deleted-db source o w = ground arith

  archive-same :
      (o : MediaObject) (s : S)
      → let archived = (archive_deleted_bytes storage conf o s).0.1 in
        archived ≡ record o { storage_bucket = archived.storage_bucket }
  unfolding archive_deleted_bytes
  archive-same o s = ground arith

  delete_object-refused :
      (u : UserModel) (k event_id now : ℕ) (w : World S) (e : Error)
      → load_object u k true w.db ≡ err e
      → delete_object storage conf u k event_id now w ≡ (err e, w)
  unfolding delete_object
  delete_object-refused u k event_id now w e l = ground arith

  module _ (u : UserModel) (k : ℕ) (event_id now : ℕ) (w : World S) (o : MediaObject) where
    abbrev deletes : Result (Unit {0}) × World S
    deletes = delete_object storage conf u k event_id now w

    delete_object-live :
        load_object u k true w.db ≡ ok o
        → o.deleted_at ≡ none
        → deletes ≡ (ok tt, delete_live storage conf o event_id now w)
    unfolding delete_object
    delete_object-live l live = ground arith

    pub delete_object-deleted :
        (at_time : ℕ)
        → load_object u k true w.db ≡ ok o
        → o.deleted_at ≡ some at_time
        → deletes ≡ (ok tt, w)
    unfolding delete_object
    delete_object-deleted at_time l gone = ground arith

    delete_live-IsDeletion :
        o.id ≡ k → IsDeletion k o event_id now w.db (delete_live storage conf o event_id now w).db
    unfolding delete_live
    delete_live-IsDeletion same_id =
        let ((source, archived), store) = archive_deleted_bytes storage conf o w.store in
        subst (IsDeletion k o event_id now w.db)
          (sym (
            clean_deleted-db source archived
              (record { db = deletion_rows archived event_id now w.db; store = store })))
          (deletion_rows-IsDeletion k o archived event_id now w.db same_id (archive-same o w.store))

module _ {S : Type 0} (storage : ObjectStorage S) (conf : Settings) (u : UserModel) (k : ℕ)
    (event_id now : ℕ) (w : World S) where
  -- Deleting a live object that the caller may change returns, and writes what `IsDeletion` lists.
  pub delete_object-IsDeletion :
      (o : MediaObject)
      → load_object u k true w.db ≡ ok o
      → o.deleted_at ≡ none
      → ((delete_object storage conf u k event_id now w).0 ≡ ok tt)
        × IsDeletion k o event_id now w.db (delete_object storage conf u k event_id now w).1.db
  delete_object-IsDeletion o l live =
      let (found, same_id, allowed) = load_object-ok u k true w.db o l in
      subst
        (λ (r : Result (Unit {0}) × World S).
          (r.0 ≡ ok tt) × IsDeletion k o event_id now w.db r.1.db)
        (sym (delete_object-live storage conf u k event_id now w o l live))
        (refl, delete_live-IsDeletion storage conf u k event_id now w o same_id)

  -- The row that a deletion which returned leaves behind.
  record IsGone : Type 0 where
    row : MediaObject
    at_time : ℕ
    loaded : load_object u k true (delete_object storage conf u k event_id now w).1.db ≡ ok row
    gone : row.deleted_at ≡ some at_time

  delete_object-IsGone : is_ok (delete_object storage conf u k event_id now w).0 ≡ true → IsGone
  delete_object-IsGone h = elim (Result-cases (load_object u k true w.db)) [
    | inr (e, l) ↦ absurd (ground (arith, delete_object-refused storage conf u k event_id now w e))
    | inl (o, l) ↦ elim (Option-cases o.deleted_at) [
      | inr (t, gone) ↦
          let same = delete_object-deleted storage conf u k event_id now w o t l gone in
          record {
            row = o;
            at_time = t;
            loaded = rw (ap (λ (r : Result (Unit {0}) × World S). r.1.db) same) l;
            gone = gone;
          }
      | inl live ↦
          let after = (delete_object storage conf u k event_id now w).1.db in
          let done = (delete_object-IsDeletion o l live).1 in
          let mine = (load_object_iff u k true w.db o).0 l in
          record {
            row = done.row;
            at_time = now;
            loaded =
                (load_object_iff u k true after done.row).1
                  (done.found, ground (arith, done.marked), refl);
            gone = ground (arith, done.marked);
          }
    ]
  ]

  -- A second deletion, at whatever time, returns and changes nothing: no second event, no second
  -- debit, no call of the storage.
  pub delete_object-twice :
      (event_id' now' : ℕ)
      → let after = (delete_object storage conf u k event_id now w).1 in
        is_ok (delete_object storage conf u k event_id now w).0 ≡ true
        → delete_object storage conf u k event_id' now' after ≡ (ok tt, after)
  delete_object-twice event_id' now' h =
      let gone = delete_object-IsGone h in
      delete_object-deleted storage conf u k event_id' now'
        (delete_object storage conf u k event_id now w).1 gone.row gone.at_time gone.loaded
        gone.gone

  -- A deleted object is gone for every reader: 404, to its owner and to a superuser too.
  pub delete_object-unreadable :
      (reader : Option UserModel)
      → is_ok (delete_object storage conf u k event_id now w).0 ≡ true
      → load_object_for_read reader k (delete_object storage conf u k event_id now w).1.db
        ≡ err (http 404 media_not_found)
  unfolding load_object_for_read fetch_object
  delete_object-unreadable reader h =
      let gone = delete_object-IsGone h in
      let after = (delete_object storage conf u k event_id now w).1.db in
      let (found, same_id, allowed) = load_object-ok u k true after gone.row gone.loaded in
      ground (arith, gone.gone)

-- ===== src/Objects/Deletion/Debit.antt =====
-- The rows and the debit of `delete_object` in the ledger of Quota/Accounting.
use mathlib.Core.Path.{subst, sym}
use media_service_m.Prelude.{
  ◌<◌, opt_eq_refl, ==-refl, ℕ, true, false, none, some, ◌≡◌, ap, ◌∙◌, inl, inr, arith,
  Option-cases,
}
use media_service_m.Effect.{Result, ok, Result-cases}
use media_service_m.Model.Rows.{MediaObject, Db, UserModel, object_is}
use media_service_m.Model.Table.{save_row, sum_by-save_row}
use media_service_m.Model.Store.{ObjectStorage, Settings, World}
use media_service_m.Quota.{bytes_of}
use media_service_m.Quota.Checks.{record_object_removed-with_usages}
use media_service_m.Quota.Accounting.{
  IsAccounted, IsCredited, is_rejected, weight, stored_bytes, weight-le, saved-IsAccounted,
}
use media_service_m.Access.{find_object, load_object}
use media_service_m.Objects.{
  save_object, deleted_row, deletion_rows, archive_deleted_bytes, delete_live, delete_object,
}
use media_service_m.Objects.Bytes.{load_object-ok}
use media_service_m.Objects.Deletion.{
  clean_deleted-db, archive-same, delete_object-live, delete_object-deleted, delete_object-refused,
  delete_live-IsDeletion,
}

deletion_rows-objects :
    (o : MediaObject) (event_id now : ℕ) (d : Db)
    → (deletion_rows o event_id now d).objects
      ≡ save_row (object_is o.id) (deleted_row now o) d.objects
unfolding deletion_rows
deletion_rows-objects o event_id now d =
    ap (λ (e : Db). e.objects)
      (record_object_removed-with_usages o.owner_user_id o.tenant_id o.size_bytes now
        (save_object (deleted_row now o) d))

module _ {S : Type 0} (storage : ObjectStorage S) (conf : Settings) where
  module _ (u : UserModel) (k event_id now : ℕ) (w : World S) (o : MediaObject) where
    abbrev archived : MediaObject
    archived = (archive_deleted_bytes storage conf o w.store).0.1

    delete_live-objects :
        (delete_live storage conf o event_id now w).db.objects
        ≡ save_row (object_is archived.id) (deleted_row now archived) w.db.objects
    unfolding delete_live
    delete_live-objects =
        let ((source, row), store) = archive_deleted_bytes storage conf o w.store in
        ap (λ (e : Db). e.objects)
          (clean_deleted-db storage conf source row
            (record { db = deletion_rows row event_id now w.db; store = store }))
        ∙ deletion_rows-objects row event_id now w.db

    delete_live-IsAccounted :
        find_object k w.db ≡ some o
        → o.id ≡ k
        → o.deleted_at ≡ none
        → is_rejected o ≡ false
        → IsAccounted w.db
        → IsAccounted (delete_live storage conf o event_id now w).db
    delete_live-IsAccounted found same_id live accepted h =
        let same = archive-same storage conf o w.store in
        let own_id : archived.id ≡ k = ground (arith, same) in
        let done = delete_live-IsDeletion storage conf u k event_id now w o same_id in
        saved-IsAccounted w.db (delete_live storage conf o event_id now w).db o
          (deleted_row now archived) (rw own_id found) delete_live-objects
          (λ owner tenant total.
            ground (arith, done.debited owner tenant, total, weight-le owner tenant k o w.db found))
          h

  pub delete_object-IsAccounted :
      (u : UserModel) (k event_id now : ℕ) (w : World S)
      → IsCredited k w.db
      → IsAccounted w.db
      → IsAccounted (delete_object storage conf u k event_id now w).1.db
  delete_object-IsAccounted u k event_id now w credited h =
      elim (Result-cases (load_object u k true w.db)) [
        | inr (e, l) ↦
            subst After (sym (delete_object-refused storage conf u k event_id now w e l)) h
        | inl (o, l) ↦
            let (found, same_id, allowed) = load_object-ok u k true w.db o l in
            elim (Option-cases o.deleted_at) [
              | inr (t, gone) ↦
                  subst After
                    (sym (delete_object-deleted storage conf u k event_id now w o t l gone)) h
              | inl live ↦
                  subst After (sym (delete_object-live storage conf u k event_id now w o l live)) (
                    delete_live-IsAccounted u k event_id now w o found same_id live
                      (credited o found) h)
            ]
      ]
    where
      After : Result (Unit {0}) × World S → Type 0
      After r = IsAccounted r.1.db

  -- Deleting a live rejected object debits what was never credited: a scope that stored something is
  -- then recorded as storing less than it does.
  pub delete_object-undercounts :
      (u : UserModel) (k event_id now : ℕ) (w : World S) (o : MediaObject)
      → load_object u k true w.db ≡ ok o
      → o.deleted_at ≡ none
      → is_rejected o ≡ true
      → 0 < o.size_bytes
      → IsAccounted w.db
      → 0 < stored_bytes o.owner_user_id o.tenant_id w.db
      → let after = (delete_object storage conf u k event_id now w).1.db in
        bytes_of o.owner_user_id o.tenant_id after < stored_bytes o.owner_user_id o.tenant_id after
  delete_object-undercounts u k event_id now w o l live rejected size h stored =
      let (found, same_id, allowed) = load_object-ok u k true w.db o l in
      let same = archive-same storage conf o w.store in
      let row = archived u k event_id now w o in
      let own_id : row.id ≡ k = ground (arith, same) in
      let owner = o.owner_user_id in
      let tenant = o.tenant_id in
      let done = delete_live-IsDeletion storage conf u k event_id now w o same_id in
      let objects = delete_live-objects u k event_id now w o in
      let moved =
        sum_by-save_row (weight owner tenant) (object_is row.id) (deleted_row now row) o
          w.db.objects (rw own_id found) in
      subst
        (λ (r : Result (Unit {0}) × World S).
          bytes_of owner tenant r.1.db < stored_bytes owner tenant r.1.db)
        (sym (delete_object-live storage conf u k event_id now w o l live))
        (rw objects (
          ground (
            arith,
            done.debited owner tenant,
            h owner tenant,
            moved,
            rejected,
            opt_eq_refl tenant,
            ==-refl owner,
          )))

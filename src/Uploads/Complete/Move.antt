-- ===== src/Uploads/Complete/Move.antt =====
-- What `complete_upload` does to the upload sessions, branch by branch.
use mathlib.Core.Path.{subst, sym}
use media_service_m.Prelude.{ℕ, Option, some, List, ◌≡◌, refl, ap, inl, inr, arith, Bool-cases}
use media_service_m.Effect.{Result, Result-cases, RejectReason}
use media_service_m.Model.Enums.{UploadSessionStatus}
use media_service_m.Model.Rows.{MediaObject, UploadSession, Category, Db, UserModel, upload_is}
use media_service_m.Model.Table.{save_row}
use media_service_m.Model.Store.{ObjectStorage, ObjectStat, Externals, Settings, World}
use media_service_m.Quota.{reserve_storage_for_object}
use media_service_m.Quota.Checks.{reserve-with_usages}
use media_service_m.Uploads.{find_upload, with_status}
use media_service_m.Uploads.Moves.{IsAllowed, leave_open, IsMove, stays, moves}
use media_service_m.Uploads.Complete.{
  UploadCompleteRequest, inspect, reject_upload, finalize, complete_upload, concluded, Verdict,
  accepted, refused, failed, reason_of,
}
use media_service_m.Uploads.Complete.Outcome.{load_owned_session-ok}
use media_service_m.Uploads.Complete.Checks.{complete_upload-cases}

module _ {S : Type 0} (storage : ObjectStorage S) (conf : Settings) (ext : Externals) where
  module _ (j : ℕ) (s : UploadSession) (w : World S) (found : find_upload j w.db ≡ some s)
      (same_id : s.id ≡ j) (initiated : s.status ≡ UploadSessionStatus.initiated) where
    closes :
        (s' : UploadSession) (e : Db)
        → s'.id ≡ s.id
        → e.uploads ≡ save_row (upload_is s'.id) s' w.db.uploads
        → IsMove j w.db e
    closes s' e own rows =
        moves s s' found (ground arith)
          (subst (λ (x : UploadSessionStatus). IsAllowed x s'.status) (sym initiated) leave_open)
          rows

    reject_upload-IsMove :
        (reason : RejectReason) (stat : ObjectStat) (now : ℕ) (staged : Db) (v : World S)
        → staged.uploads ≡ w.db.uploads
        → IsMove j w.db
            (reject_upload storage conf ext {A = MediaObject} s reason stat now staged v).1.db
    unfolding reject_upload
    reject_upload-IsMove reason stat now staged v rows =
        closes (with_status UploadSessionStatus.aborted s) _ refl
          (ap (save_row (upload_is s.id) (with_status UploadSessionStatus.aborted s)) rows)

    module _ (sha256 : Option (List ℕ)) (stat : ObjectStat) (categories : List Category)
        (now : ℕ) where
      abbrev reservation : Result (Unit {0}) × Db
      reservation = reserve_storage_for_object conf s.owner_user_id s.tenant_id stat.size now w.db

      reserved_uploads : reservation.1.uploads ≡ w.db.uploads
      reserved_uploads =
          ap (λ (d : Db). d.uploads)
            (reserve-with_usages conf s.owner_user_id s.tenant_id stat.size now w.db)

      finalize-IsMove :
          IsMove j w.db (finalize storage conf ext s sha256 stat categories now w).1.db
      unfolding finalize
      finalize-IsMove =
          elim (Bool-cases
            (storage.set_object_content_type s.storage_bucket s.object_key s.expected_mime_type
              w.store).0) [
                | inr raised ↦ rw raised (stays refl)
                | inl done ↦ elim (Result-cases reservation.0) [
                  | inl (t, reserved) ↦
                      rw (done, reserved)
                        (closes
                          (record s {
                            status = UploadSessionStatus.completed;
                            completed_at = some now;
                          })
                          _ refl
                          (ap
                            (save_row (upload_is s.id) (record s {
                              status = UploadSessionStatus.completed;
                              completed_at = some now;
                            }))
                            reserved_uploads))
                  | inr (e, over) ↦
                      rw (done, over)
                        (reject_upload-IsMove (reason_of e.detail) stat now reservation.1
                          (record w {
                            store =
                                (storage.set_object_content_type s.storage_bucket s.object_key
                                  s.expected_mime_type w.store).1;
                          })
                          reserved_uploads)
                ]
              ]

      concluded-IsMove :
          (v : Verdict)
          → IsMove j w.db (concluded storage conf ext s sha256 stat categories now v w).1.db
      concluded-IsMove accepted = finalize-IsMove
      concluded-IsMove (refused reason) = reject_upload-IsMove reason stat now w.db w refl
      concluded-IsMove (failed e) = stays refl

  pub complete_upload-IsMove :
      (u : UserModel) (j : ℕ) (req : UploadCompleteRequest) (now : ℕ) (w : World S)
      → IsMove j w.db (complete_upload storage conf ext u j req now w).1.db
  complete_upload-IsMove u j req now w =
      elim (complete_upload-cases storage conf ext u j req now w) [
        | inl r ↦
            let (found, allowed, same_id) = load_owned_session-ok u j w.db r.session r.loaded in
            subst (λ (p : Result MediaObject × World S). IsMove j w.db p.1.db) (sym r.concludes)
              (concluded-IsMove j r.session w found same_id r.initiated req.sha256 r.stat
                r.categories now (inspect storage conf ext r.session req.sha256 r.stat w.store))
        | inr (objects, usages, raised, inl rows) ↦ stays rows
        | inr (objects, usages, raised, inr late) ↦
            let (found, allowed, same_id) =
              load_owned_session-ok u j w.db late.session late.loaded in
            closes j late.session w found same_id late.initiated
              (with_status UploadSessionStatus.expired late.session) _ refl late.marked
      ]

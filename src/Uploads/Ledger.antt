-- ===== src/Uploads/Ledger.antt =====
-- The operations of media_service/controllers/uploads.py that touch neither objects nor totals, and the
-- stale purge of media_service/controllers/admin.py.
use media_service_m.Prelude.{ℕ, List, [], ◌∷◌, ◌≡◌, refl, inl, inr, arith, Option-cases, filter}
use media_service_m.Effect.{Result-cases}
use media_service_m.Model.Enums.{UploadSessionStatus}
use media_service_m.Model.Rows.{UploadSession, Db, UserModel}
use media_service_m.Model.Store.{ObjectStorage, Externals, Settings, World}
use media_service_m.Uploads.{
  load_owned_session, save_upload, with_status, UploadInitiateRequest, stage_upload,
  initiate_upload, signed_max_bytes, abort_upload, is_stale, purge_each, purge_stale_uploads,
}

-- The objects and the totals are those of before.
abbrev pub SameLedger : Db → Db → Type 0
SameLedger d e = (e.objects ≡ d.objects) × (e.usages ≡ d.usages)

module _ {S : Type 0} (storage : ObjectStorage S) (conf : Settings) (ext : Externals) where
  pub initiate_upload-SameLedger :
      (u : UserModel) (req : UploadInitiateRequest) (media_id now : ℕ) (w : World S)
      → SameLedger w.db (initiate_upload storage conf ext u req media_id now w).1.db
  unfolding initiate_upload
  initiate_upload-SameLedger u req media_id now w =
      elim (Result-cases (stage_upload conf ext u req media_id w.db).0) [
        | inr (e, refused) ↦ ground arith
        | inl (staged, done) ↦
            elim (Option-cases (
              storage.presigned_post_object staged.bucket staged.object_key req.mime_type
                (signed_max_bytes conf ext req) conf.presigned_url_expire_seconds)) [
                  | inl failed ↦ ground arith
                  | inr (form, signed) ↦ ground arith
                ]
      ]

  pub abort_upload-SameLedger :
      (u : UserModel) (j : ℕ) (w : World S)
      → SameLedger w.db (abort_upload storage conf ext u j w).1.db
  unfolding abort_upload
  abort_upload-SameLedger u j w = elim (Result-cases (load_owned_session u j w.db)) [
    | inr (e, refused) ↦ ground arith
    | inl (s, loaded) ↦ ground arith
  ]

  purge_each-SameLedger :
      (stale : List UploadSession) (d : Db) (store : S)
      → SameLedger d (purge_each storage conf ext stale d store).0
  unfolding purge_each
  purge_each-SameLedger [] d store = (refl, refl)
  purge_each-SameLedger (s ∷ stale) d store =
      purge_each-SameLedger stale (save_upload (with_status UploadSessionStatus.expired s) d)
        (storage.remove_object s.storage_bucket s.object_key store).1

  pub purge_stale_uploads-SameLedger :
      (now : ℕ) (w : World S) → SameLedger w.db (purge_stale_uploads storage conf ext now w).1.db
  unfolding purge_stale_uploads
  purge_stale_uploads-SameLedger now w =
      purge_each-SameLedger (filter (is_stale storage conf ext now) w.db.uploads) w.db w.store

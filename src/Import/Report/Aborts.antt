-- ===== src/Import/Report/Aborts.antt =====
-- A row whose upload session is already there: `_import_one_file` of
-- media_service/controllers/transfer_import.py.
use mathlib.Core.Path.{subst}
use media_service_m.Prelude.{
  ℕ, ◌+◌, true, false, none, some, List, ◌∷◌, map, Text, ltb, ◌≡◌, refl, ◌∙◌, ap, arith, inl, inr,
  Option-cases,
}
use media_service_m.Effect.{Result, Error, ok, err, http, integrity_error}
use media_service_m.Model.Enums.{UploadSessionStatus}
use media_service_m.Model.Rows.{MediaObject, UploadSession, Category, Db, UserModel, object_is}
use media_service_m.Model.Table.{find_row}
use media_service_m.Model.Store.{ObjectStorage, Externals, Settings, World, commit}
use media_service_m.Validation.{is_allowed_declared_mime, max_size_for_category}
use media_service_m.Category.Walk.{category_id}
use media_service_m.Uploads.{
  find_upload, status_of_upload, UploadInitiateRequest, StagedUpload, stage_upload,
  record_upload_session,
}
use media_service_m.Uploads.Moves.{move-IsFrom}
use media_service_m.Uploads.Complete.{complete_upload}
use media_service_m.Uploads.Complete.Move.{complete_upload-IsMove}
use media_service_m.Import.Paths.{ImportObjectEntry}
use media_service_m.Import.Tree.{RecreatedTree}
use media_service_m.Import.Rows.{
  ZipInfo, RowOutcome, ImportObjectResult, importable_match, upload_request,
}
use media_service_m.Import.OneFile.{complete_request, stored, put_and_complete, import_one_file}
use media_service_m.Import.Entries.{EntryMap, entry_at, filing_for}
use media_service_m.Import.Run.{archive_rows}
use media_service_m.Import.Ledger.Runs.{entry_on, archive_rows-onward}
use media_service_m.Import.Report.Created.{recorded-found}

-- The upload of an entry is reached, and its bytes are stored.
pub record IsStored {S : Type 0} (storage : ObjectStorage S) (conf : Settings) (ext : Externals)
    (u : UserModel) (info : ZipInfo) (entry : ImportObjectEntry) (categories : List Category)
    (w : World S) (req : UploadInitiateRequest) (staged : StagedUpload) : Type 0 where
  pub is_new : find_row (object_is entry.id) w.db.objects ≡ none
  pub allowed : is_allowed_declared_mime entry.mime_type ≡ true
  pub fits : ltb (max_size_for_category conf entry.category) info.file_size ≡ false
  pub requested :
      upload_request conf ext entry info.file_size (map category_id categories) ≡ some req
  pub staged_as : (stage_upload conf ext u req entry.id w.db).0 ≡ ok staged
  pub done :
      (storage.put_object_stream staged.bucket staged.object_key info.content info.file_size
        entry.mime_type w.store).0
      ≡ true

-- An upload session has the id.
abbrev IsHeld : ℕ → Db → Type 0
IsHeld k d = (held : UploadSession) × (find_upload k d ≡ some held)

status-IsHeld :
    (k : ℕ) (d : Db) (status : UploadSessionStatus)
    → status_of_upload k d ≡ some status
    → IsHeld k d
status-IsHeld k d status h = elim (Option-cases (find_upload k d)) [
  | inl missing ↦ absurd (ground arith)
  | inr found ↦ found
]

module _ {S : Type 0} (storage : ObjectStorage S) (conf : Settings) (ext : Externals) where
  stage_upload-key :
      (u : UserModel) (req : UploadInitiateRequest) (k : ℕ) (d : Db) (staged : StagedUpload)
      → (stage_upload conf ext u req k d).0 ≡ ok staged
      → staged.media_id ≡ k
  unfolding stage_upload
  stage_upload-key u req k d staged h = ground arith

  put-raises :
      (u : UserModel) (info : ZipInfo) (entry : ImportObjectEntry) (categories : List Category)
      (paths : List Text) (now : ℕ) (w : World S) (req : UploadInitiateRequest)
      (staged : StagedUpload) (held : UploadSession)
      → (storage.put_object_stream staged.bucket staged.object_key info.content info.file_size
          entry.mime_type w.store).0
        ≡ true
      → find_upload staged.media_id w.db ≡ some held
      → (put_and_complete storage conf ext u info entry categories paths now req staged w).0
        ≡ err (http 500 integrity_error)
  put-raises u info entry categories paths now w req staged held done taken = rw (done, taken) refl

  import_one_file-raises :
      (u : UserModel) (info : ZipInfo) (entry : ImportObjectEntry) (categories : List Category)
      (paths : List Text) (now : ℕ) (w : World S) (req : UploadInitiateRequest)
      (staged : StagedUpload) (held : UploadSession)
      → IsStored storage conf ext u info entry categories w req staged
      → find_upload entry.id w.db ≡ some held
      → (import_one_file storage conf ext u (some info) entry categories paths now w).0
        ≡ err (http 500 integrity_error)
  unfolding import_one_file importable_match
  import_one_file-raises u info entry categories paths now w req staged held s taken =
      rw (s.is_new, s.allowed, s.fits, s.requested, s.staged_as)
        (put-raises u info entry categories paths now w req staged held s.done
          (rw (stage_upload-key u req entry.id w.db staged s.staged_as) taken))

  -- A completion, whatever comes of it, leaves the session that was recorded for it.
  stored-holds :
      (u : UserModel) (entry : ImportObjectEntry) (categories : List Category) (paths : List Text)
      (now : ℕ) (req : UploadInitiateRequest) (staged : StagedUpload) (w : World S)
      → find_upload staged.media_id w.db ≡ none
      → IsHeld staged.media_id
          (stored storage conf ext u entry categories paths now req staged none w).1.db
  stored-holds u entry categories paths now req staged w free =
      let k = staged.media_id in
      let expires_at = now + conf.presigned_url_expire_seconds in
      let recorded = commit (record_upload_session conf ext staged req expires_at now w.db) w in
      let completed =
        complete_upload storage conf ext u k (complete_request storage conf ext entry categories)
          now recorded in
      let open_there : status_of_upload k recorded.db ≡ some UploadSessionStatus.initiated =
        rw (recorded-found conf ext staged req expires_at now w.db free) refl in
      let moved =
        move-IsFrom k k UploadSessionStatus.initiated recorded.db completed.1.db
          (complete_upload-IsMove storage conf ext u k
            (complete_request storage conf ext entry categories) now recorded)
          open_there in
      status-IsHeld k completed.1.db moved.status moved.found

  put-holds :
      (u : UserModel) (info : ZipInfo) (entry : ImportObjectEntry) (categories : List Category)
      (paths : List Text) (now : ℕ) (w : World S) (req : UploadInitiateRequest)
      (staged : StagedUpload)
      → (storage.put_object_stream staged.bucket staged.object_key info.content info.file_size
          entry.mime_type w.store).0
        ≡ true
      → find_upload staged.media_id w.db ≡ none
      → IsHeld staged.media_id
          (put_and_complete storage conf ext u info entry categories paths now req staged w).1.db
  put-holds u info entry categories paths now w req staged done free =
      let call =
        storage.put_object_stream staged.bucket staged.object_key info.content info.file_size
          entry.mime_type w.store in
      rw (done, free)
        (stored-holds u entry categories paths now req staged (record w { store = call.1 }) free)

  import_one_file-holds :
      (u : UserModel) (info : ZipInfo) (entry : ImportObjectEntry) (categories : List Category)
      (paths : List Text) (now : ℕ) (w : World S) (req : UploadInitiateRequest)
      (staged : StagedUpload)
      → IsStored storage conf ext u info entry categories w req staged
      → find_upload entry.id w.db ≡ none
      → IsHeld entry.id
          (import_one_file storage conf ext u (some info) entry categories paths now w).1.db
  unfolding import_one_file importable_match
  import_one_file-holds u info entry categories paths now w req staged s free =
      let own = stage_upload-key u req entry.id w.db staged s.staged_as in
      rw (s.is_new, s.allowed, s.fits, s.requested, s.staged_as)
        (subst
          (λ (k : ℕ).
            IsHeld k
              (put_and_complete storage conf ext u info entry categories paths now req staged
                w).1.db)
          own (put-holds u info entry categories paths now w req staged s.done (rw own free)))

module _ {S : Type 0} (storage : ObjectStorage S) (conf : Settings) (ext : Externals)
    (fresh : Db → ℕ) where
  -- A row that raises ends the loop.
  entry_on-err :
      (u : UserModel) (tree : RecreatedTree) (files : EntryMap) (entries : List ImportObjectEntry)
      (now : ℕ) (rows : List ImportObjectResult) (objects : List MediaObject)
      (r : Result RowOutcome) (v : World S) (e : Error)
      → r ≡ err e
      → entry_on storage conf ext fresh u tree files entries now rows objects (r, v) ≡ (err e, v)
  entry_on-err u tree files entries now rows objects (ok outcome) v e h = absurd (ground arith)
  entry_on-err u tree files entries now rows objects (err x) v e h =
      ap (λ (y : Error). (err y, v)) (ground arith)

  -- If an import stores the bytes of an entry whose id no object and no upload session has, and leaves
  -- no object for it, then an import of the same user that next comes to store them again does not
  -- report the row as failed: it raises, and imports nothing more of the archive.
  pub archive_rows_again-raises :
      (u : UserModel) (info : ZipInfo) (entry : ImportObjectEntry) (categories : List Category)
      (paths : List Text) (now : ℕ) (w : World S) (req : UploadInitiateRequest)
      (staged : StagedUpload) (v : World S)
      → IsStored storage conf ext u info entry categories w req staged
      → find_upload entry.id w.db ≡ none
      → (import_one_file storage conf ext u (some info) entry categories paths now w).1 ≡ v
      → (tree : RecreatedTree) (files : EntryMap) (entries : List ImportObjectEntry) (later : ℕ)
        (rows : List ImportObjectResult) (objects : List MediaObject) (again : ZipInfo)
        (categories' : List Category) (paths' : List Text) (req' : UploadInitiateRequest)
        (staged' : StagedUpload)
      → entry_at entry.id files ≡ some again
      → filing_for conf ext tree entry ≡ ok (categories', paths')
      → IsStored storage conf ext u again entry categories' v req' staged'
      → archive_rows storage conf ext fresh u tree files (entry ∷ entries) later rows objects v ≡ (
        err (http 500 integrity_error),
        (import_one_file storage conf ext u (some again) entry categories' paths' later v).1,
      )
  archive_rows_again-raises u info entry categories paths now w req staged v s free left tree files
        entries later rows objects again categories' paths' req' staged' bytes filing t =
      let (held, taken) =
        subst (λ (x : World S). IsHeld entry.id x.db) left
          (import_one_file-holds storage conf ext u info entry categories paths now w req staged s
            free) in
      let call = import_one_file storage conf ext u (some again) entry categories' paths' later v in
      let raised : call.0 ≡ err (http 500 integrity_error) =
        import_one_file-raises storage conf ext u again entry categories' paths' later v req'
          staged' held t taken in
      archive_rows-onward storage conf ext fresh u tree files entry entries later rows objects v
      ∙ rw (bytes, filing)
          (entry_on-err u tree files entries later rows objects call.0 call.1
            (http 500 integrity_error) raised)

-- ===== src/Import/Report/Created.antt =====
-- What one row of an archive import reports and creates: `_import_one_file` of
-- media_service/controllers/transfer_import.py.
use media_service_m.Prelude.{
  ℕ, ◌+◌, false, Option, none, some, List, [], ◌∷◌, map, Text, ltb, ◌≡◌, refl, ◌∙◌, inl, inr, arith,
  Bool-cases, Option-cases, ==-refl,
}
use media_service_m.Effect.{Result, ok, err}
use media_service_m.Model.Enums.{MediaObjectStatus, ScanStatus}
use media_service_m.Model.Rows.{MediaObject, Category, Db, UserModel, upload_is}
use media_service_m.Model.Table.{find_row-append_none}
use media_service_m.Model.Store.{ObjectStorage, Externals, Settings, World, commit}
use media_service_m.Validation.{is_allowed_declared_mime, max_size_for_category}
use media_service_m.Category.Walk.{category_id}
use media_service_m.Uploads.{
  find_upload, UploadInitiateRequest, StagedUpload, stage_upload, session_of, record_upload_session,
}
use media_service_m.Uploads.Complete.{complete_upload}
use media_service_m.Uploads.Complete.Outcome.{IsCompletion, complete_upload-IsCompletion}
use media_service_m.Import.Paths.{ImportObjectEntry}
use media_service_m.Import.Rows.{
  ImportRowStatus, created, ZipInfo, RowOutcome, Match, absent, held, usable, importable_match,
  upload_request,
}
use media_service_m.Import.OneFile.{
  complete_request, reported, stored, held_session, put_and_complete, staged_row, requested_row,
  carried_row, matched_row, import_one_file,
}
use media_service_m.Import.Entries.{status_eq}

-- An object of the importer's own, whose bytes nobody has scanned yet.
abbrev pub IsImported : UserModel → MediaObject → Type 0
IsImported u o =
    (o.owner_user_id ≡ u.id)
    × (o.tenant_id ≡ u.tenant_id)
    × (o.status ≡ MediaObjectStatus.uploaded)
    × (o.scan_status ≡ ScanStatus.pending)

-- There is an object to scan exactly where the row says `created`.
abbrev pub Creates : UserModel → ImportRowStatus → Option MediaObject → Type 0
Creates u s none = status_eq s created ≡ false
Creates u s (some o) = (s ≡ created) × IsImported u o

-- A row that was reported is about its entry, and creates what it says.
abbrev pub IsRow : UserModel → ImportObjectEntry → Result RowOutcome → Type 0
IsRow u entry (err e) = Unit
IsRow u entry (ok (row, o)) = (row.source_id ≡ entry.id) × Creates u row.status o

module _ (conf : Settings) (ext : Externals) where
  stage_upload-own :
      (u : UserModel) (req : UploadInitiateRequest) (k : ℕ) (d : Db) (staged : StagedUpload)
      → (stage_upload conf ext u req k d).0 ≡ ok staged
      → (staged.owner_id ≡ u.id) × (staged.tenant_id ≡ u.tenant_id)
  unfolding stage_upload
  stage_upload-own u req k d staged h = ground arith

  -- A session that is recorded under a free key is the one that the key finds.
  pub recorded-found :
      (staged : StagedUpload) (req : UploadInitiateRequest) (expires_at now : ℕ) (d : Db)
      → find_upload staged.media_id d ≡ none
      → find_upload staged.media_id (record_upload_session conf ext staged req expires_at now d)
        ≡ some (session_of conf ext staged req expires_at now)
  recorded-found staged req expires_at now d free =
      find_row-append_none (upload_is staged.media_id) d.uploads
        (session_of conf ext staged req expires_at now ∷ []) free
      ∙ rw (==-refl staged.media_id) refl

module _ {S : Type 0} (storage : ObjectStorage S) (conf : Settings) (ext : Externals) where
  completed-IsImported :
      (u : UserModel) (staged : StagedUpload) (req : UploadInitiateRequest) (expires_at now : ℕ)
      (w : World S) (o : MediaObject) (after : Db)
      → find_upload staged.media_id w.db ≡ none
      → (staged.owner_id ≡ u.id) × (staged.tenant_id ≡ u.tenant_id)
      → IsCompletion storage conf ext u staged.media_id now
          (commit (record_upload_session conf ext staged req expires_at now w.db) w)
          o
          after
      → IsImported u o
  completed-IsImported u staged req expires_at now w o after free own c =
      let same = recorded-found conf ext staged req expires_at now w.db free in
      ground (arith, c.found, c.promoted_to, same, own.0, own.1)

  reported-IsRow :
      (u : UserModel) (entry : ImportObjectEntry) (paths : List Text) (r : Result MediaObject)
      → ((o : MediaObject) → r ≡ ok o → IsImported u o)
      → IsRow u entry (reported storage conf ext entry paths r)
  reported-IsRow u entry paths (ok o) made = (refl, (refl, made o refl))
  reported-IsRow u entry paths (err e) made = (refl, refl)

  stored-IsRow :
      (u : UserModel) (entry : ImportObjectEntry) (categories : List Category) (paths : List Text)
      (now : ℕ) (req : UploadInitiateRequest) (staged : StagedUpload) (w : World S)
      → (staged.owner_id ≡ u.id) × (staged.tenant_id ≡ u.tenant_id)
      → find_upload staged.media_id w.db ≡ none
      → IsRow u entry (stored storage conf ext u entry categories paths now req staged none w).0
  stored-IsRow u entry categories paths now req staged w own free =
      let expires_at = now + conf.presigned_url_expire_seconds in
      let recorded = commit (record_upload_session conf ext staged req expires_at now w.db) w in
      let completed =
        complete_upload storage conf ext u staged.media_id
          (complete_request storage conf ext entry categories) now recorded in
      reported-IsRow u entry paths completed.0 (λ o returned.
        completed-IsImported u staged req expires_at now w o completed.1.db free own (
          complete_upload-IsCompletion storage conf ext u staged.media_id
            (complete_request storage conf ext entry categories) now recorded o returned))

  -- With the key of the session held or free.
  keyed-IsRow :
      (u : UserModel) (entry : ImportObjectEntry) (categories : List Category) (paths : List Text)
      (now : ℕ) (req : UploadInitiateRequest) (staged : StagedUpload) (w : World S)
      → (staged.owner_id ≡ u.id) × (staged.tenant_id ≡ u.tenant_id)
      → IsRow u entry
          (stored storage conf ext u entry categories paths now req staged
            (held_session storage conf ext staged w.db)
            w).0
  keyed-IsRow u entry categories paths now req staged w own =
      elim (Option-cases (find_upload staged.media_id w.db)) [
        | inl free ↦ rw free (stored-IsRow u entry categories paths now req staged w own free)
        | inr (s, taken) ↦ rw taken tt
      ]

  put-IsRow :
      (u : UserModel) (info : ZipInfo) (entry : ImportObjectEntry) (categories : List Category)
      (paths : List Text) (now : ℕ) (req : UploadInitiateRequest) (staged : StagedUpload)
      (w : World S)
      → (staged.owner_id ≡ u.id) × (staged.tenant_id ≡ u.tenant_id)
      → IsRow u entry
          (put_and_complete storage conf ext u info entry categories paths now req staged w).0
  put-IsRow u info entry categories paths now req staged w own =
      let call =
        storage.put_object_stream staged.bucket staged.object_key info.content info.file_size
          entry.mime_type w.store in
      elim (Bool-cases call.0) [
        | inl done ↦
            rw done (
              keyed-IsRow u entry categories paths now req staged (record w { store = call.1 }) own)
        | inr raised ↦ rw raised (refl, refl)
      ]

  staged_row-IsRow :
      (u : UserModel) (info : ZipInfo) (entry : ImportObjectEntry) (categories : List Category)
      (paths : List Text) (now : ℕ) (req : UploadInitiateRequest) (done : Result StagedUpload)
      (w : World S)
      → ((staged : StagedUpload)
          → done ≡ ok staged
          → (staged.owner_id ≡ u.id) × (staged.tenant_id ≡ u.tenant_id))
      → IsRow u entry (staged_row storage conf ext u info entry categories paths now req done w).0
  staged_row-IsRow u info entry categories paths now req (err e) w own = (refl, refl)
  staged_row-IsRow u info entry categories paths now req (ok staged) w own =
      put-IsRow u info entry categories paths now req staged w (own staged refl)

  requested_row-IsRow :
      (u : UserModel) (info : ZipInfo) (entry : ImportObjectEntry) (categories : List Category)
      (paths : List Text) (now : ℕ) (req : Option UploadInitiateRequest) (w : World S)
      → IsRow u entry (requested_row storage conf ext u info entry categories paths now req w).0
  requested_row-IsRow u info entry categories paths now none w = (refl, refl)
  requested_row-IsRow u info entry categories paths now (some req) w =
      staged_row-IsRow u info entry categories paths now req
        (stage_upload conf ext u req entry.id w.db).0 w
        (λ staged returned. stage_upload-own conf ext u req entry.id w.db staged returned)

  carried_row-IsRow :
      (u : UserModel) (info : Option ZipInfo) (entry : ImportObjectEntry)
      (categories : List Category) (paths : List Text) (now : ℕ) (w : World S)
      → IsRow u entry (carried_row storage conf ext u info entry categories paths now w).0
  carried_row-IsRow u none entry categories paths now w = (refl, refl)
  carried_row-IsRow u (some info) entry categories paths now w =
      elim (Bool-cases (is_allowed_declared_mime entry.mime_type)) [
        | inr refused ↦ rw refused (refl, refl)
        | inl allowed ↦
            elim (Bool-cases (ltb (max_size_for_category conf entry.category) info.file_size)) [
              | inl large ↦ rw (allowed, large) (refl, refl)
              | inr fits ↦
                  rw (allowed, fits)
                    (requested_row-IsRow u info entry categories paths now
                      (upload_request conf ext entry info.file_size (map category_id categories)) w)
            ]
      ]

  matched_row-IsRow :
      (u : UserModel) (info : Option ZipInfo) (entry : ImportObjectEntry)
      (categories : List Category) (paths : List Text) (now : ℕ) (m : Match) (w : World S)
      → IsRow u entry (matched_row storage conf ext u info entry categories paths now m w).0
  matched_row-IsRow u info entry categories paths now held w = (refl, refl)
  matched_row-IsRow u info entry categories paths now (usable o) w = (refl, refl)
  matched_row-IsRow u info entry categories paths now absent w =
      carried_row-IsRow u info entry categories paths now w

  pub import_one_file-IsRow :
      (u : UserModel) (info : Option ZipInfo) (entry : ImportObjectEntry)
      (categories : List Category) (paths : List Text) (now : ℕ) (w : World S)
      → IsRow u entry (import_one_file storage conf ext u info entry categories paths now w).0
  unfolding import_one_file
  import_one_file-IsRow u info entry categories paths now w =
      matched_row-IsRow u info entry categories paths now (importable_match u entry.id w.db) w

-- ===== src/Import/Ledger.antt =====
-- The imports of media_service/controllers/transfer_import.py in the ledger of Quota/Accounting.
pub mod Runs
pub mod Manifests
use media_service_m.Prelude.{
  ℕ, ◌+◌, Bool, true, false, not, Option, none, some, List, [], ◌∷◌, ◌++◌, map, Text, ltb, ◌≡◌,
  refl, sym, ap, ◌∙◌, inl, inr, arith, Option-cases, Bool-cases, ==_iff,
}
use media_service_m.Effect.{Result, ok, err, Error, Result-cases}
use media_service_m.Model.Rows.{MediaObject, Category, Db, UserModel, object_is}
use media_service_m.Model.Table.{find_row, find_row-passes}
use media_service_m.Model.Store.{ObjectStorage, Externals, Settings, World, commit, best_effort}
use media_service_m.Validation.{is_allowed_declared_mime, max_size_for_category}
use media_service_m.Category.Walk.{category_id}
use media_service_m.Uploads.{
  UploadInitiateRequest, StagedUpload, stage_upload, record_upload_session,
}
use media_service_m.Uploads.Complete.{complete_upload}
use media_service_m.Uploads.Complete.Credit.{complete_upload-IsAccounted}
use media_service_m.Quota.{bytes_of}
use media_service_m.Quota.Accounting.{IsAccounted, same-IsAccounted, saved-IsAccounted, weight}
use media_service_m.Import.Paths.{ImportObjectEntry}
use media_service_m.Import.Rows.{
  ZipInfo, Match, absent, held, usable, match_of, usable_by, importable_match, filed, unfiled,
  file_into, upload_request,
}
use media_service_m.Import.OneFile.{
  complete_request, stored, held_session, put_and_complete, staged_row, requested_row, carried_row,
  matched_row, import_one_file,
}

abbrev usable_row : Match → Option MediaObject
usable_row absent = none
usable_row held = none
usable_row (usable o) = some o

match_of-held :
    (u : UserModel) (x o : MediaObject) → usable_by u x ≡ false → match_of u (some x) ≡ usable o → ⊥
match_of-held u x o h m = ground arith

usable_of : (u : UserModel) (x o : MediaObject) → match_of u (some x) ≡ usable o → some x ≡ some o
usable_of u x o m = elim (Bool-cases (usable_by u x)) [
  | inl mine ↦ sym (ap usable_row (taken u x mine)) ∙ ap usable_row m
  | inr foreign ↦ elim (match_of-held u x o foreign m) [ ]
]
  where
    taken :
        (u : UserModel) (x : MediaObject) → usable_by u x ≡ true → match_of u (some x) ≡ usable x
    taken u x mine = rw mine refl

-- The usable match is the row that its own key finds.
pub match_of-usable :
    (u : UserModel) (k : ℕ) (d : Db) (found : Option MediaObject) (o : MediaObject)
    → find_row (object_is k) d.objects ≡ found
    → match_of u found ≡ usable o
    → find_row (object_is o.id) d.objects ≡ some o
match_of-usable u k d none o h m = ground arith
match_of-usable u k d (some x) o h m =
    let same = h ∙ usable_of u x o m in
    let own = (==_iff o.id k).0 (find_row-passes (object_is k) d.objects o same) in
    ap (λ (j : ℕ). find_row (object_is j) d.objects) own ∙ same

pub importable_match-found :
    (u : UserModel) (k : ℕ) (d : Db) (o : MediaObject)
    → importable_match u k d ≡ usable o
    → find_row (object_is o.id) d.objects ≡ some o
unfolding importable_match
importable_match-found u k d o m = match_of-usable u k d (find_row (object_is k) d.objects) o refl m

filed-IsAccounted :
    (o : MediaObject) (now : ℕ) (added : List Category) (d : Db)
    → find_row (object_is o.id) d.objects ≡ some o
    → IsAccounted d
    → IsAccounted (filed o now added d)
filed-IsAccounted o now [] d found h = h
filed-IsAccounted o now (c ∷ more) d found h =
    saved-IsAccounted d (filed o now (c ∷ more) d) o (record o { updated_at = now }) found refl
      (λ owner tenant k. refl) h

pub file_into-IsAccounted :
    (o : MediaObject) (categories : List Category) (now : ℕ) (d : Db)
    → find_row (object_is o.id) d.objects ≡ some o
    → IsAccounted d
    → IsAccounted (file_into o categories now d)
unfolding file_into
file_into-IsAccounted o categories now d found h =
    filed-IsAccounted o now (unfiled o.id d categories) d found h

module _ {S : Type 0} (storage : ObjectStorage S) (conf : Settings) (ext : Externals) where
  stored-IsAccounted :
      (u : UserModel) (entry : ImportObjectEntry) (categories : List Category) (paths : List Text)
      (now : ℕ) (req : UploadInitiateRequest) (staged : StagedUpload) (holder : Option ℕ)
      (w : World S)
      → IsAccounted w.db
      → IsAccounted (stored storage conf ext u entry categories paths now req staged holder w).1.db
  stored-IsAccounted u entry categories paths now req staged (some k) w h = h
  stored-IsAccounted u entry categories paths now req staged none w h =
      complete_upload-IsAccounted storage conf ext u staged.media_id
        (complete_request storage conf ext entry categories) now
        (commit
          (record_upload_session conf ext staged req (now + conf.presigned_url_expire_seconds) now
            w.db)
          w)
        (same-IsAccounted w.db
          (record_upload_session conf ext staged req (now + conf.presigned_url_expire_seconds) now
            w.db)
          refl (λ owner tenant. refl) h)

  put-IsAccounted :
      (u : UserModel) (info : ZipInfo) (entry : ImportObjectEntry) (categories : List Category)
      (paths : List Text) (now : ℕ) (req : UploadInitiateRequest) (staged : StagedUpload)
      (w : World S)
      → IsAccounted w.db
      → IsAccounted
          (put_and_complete storage conf ext u info entry categories paths now req staged w).1.db
  put-IsAccounted u info entry categories paths now req staged w h =
      let call =
        storage.put_object_stream staged.bucket staged.object_key info.content info.file_size
          entry.mime_type w.store in
      elim (Bool-cases call.0) [
        | inl done ↦ rw done (
            stored-IsAccounted u entry categories paths now req staged
              (held_session storage conf ext staged w.db) (record w { store = call.1 }) h)
        | inr raised ↦ rw raised h
      ]

  staged_row-IsAccounted :
      (u : UserModel) (info : ZipInfo) (entry : ImportObjectEntry) (categories : List Category)
      (paths : List Text) (now : ℕ) (req : UploadInitiateRequest) (done : Result StagedUpload)
      (w : World S)
      → IsAccounted w.db
      → IsAccounted (staged_row storage conf ext u info entry categories paths now req done w).1.db
  staged_row-IsAccounted u info entry categories paths now req (err e) w h = h
  staged_row-IsAccounted u info entry categories paths now req (ok staged) w h =
      put-IsAccounted u info entry categories paths now req staged w h

  requested_row-IsAccounted :
      (u : UserModel) (info : ZipInfo) (entry : ImportObjectEntry) (categories : List Category)
      (paths : List Text) (now : ℕ) (req : Option UploadInitiateRequest) (w : World S)
      → IsAccounted w.db
      → IsAccounted (requested_row storage conf ext u info entry categories paths now req w).1.db
  requested_row-IsAccounted u info entry categories paths now none w h = h
  requested_row-IsAccounted u info entry categories paths now (some req) w h =
      staged_row-IsAccounted u info entry categories paths now req
        (stage_upload conf ext u req entry.id w.db).0 w h

  carried_row-IsAccounted :
      (u : UserModel) (info : Option ZipInfo) (entry : ImportObjectEntry)
      (categories : List Category) (paths : List Text) (now : ℕ) (w : World S)
      → IsAccounted w.db
      → IsAccounted (carried_row storage conf ext u info entry categories paths now w).1.db
  carried_row-IsAccounted u none entry categories paths now w h = h
  carried_row-IsAccounted u (some info) entry categories paths now w h =
      elim (Bool-cases (is_allowed_declared_mime entry.mime_type)) [
        | inr refused ↦ rw refused h
        | inl allowed ↦
            elim (Bool-cases (ltb (max_size_for_category conf entry.category) info.file_size)) [
              | inl large ↦ rw (allowed, large) h
              | inr fits ↦
                  rw (allowed, fits)
                    (requested_row-IsAccounted u info entry categories paths now
                      (upload_request conf ext entry info.file_size (map category_id categories)) w
                      h)
            ]
      ]

  matched_row-IsAccounted :
      (u : UserModel) (info : Option ZipInfo) (entry : ImportObjectEntry)
      (categories : List Category) (paths : List Text) (now : ℕ) (m : Match) (w : World S)
      → ((o : MediaObject) → m ≡ usable o → find_row (object_is o.id) w.db.objects ≡ some o)
      → IsAccounted w.db
      → IsAccounted (matched_row storage conf ext u info entry categories paths now m w).1.db
  matched_row-IsAccounted u info entry categories paths now held w found h = h
  matched_row-IsAccounted u info entry categories paths now (usable o) w found h =
      file_into-IsAccounted o categories now w.db (found o refl) h
  matched_row-IsAccounted u info entry categories paths now absent w found h =
      carried_row-IsAccounted u info entry categories paths now w h

  -- Whatever becomes of an imported file, the totals stay what the scopes store.
  pub import_one_file-IsAccounted :
      (u : UserModel) (info : Option ZipInfo) (entry : ImportObjectEntry)
      (categories : List Category) (paths : List Text) (now : ℕ) (w : World S)
      → IsAccounted w.db
      → IsAccounted (import_one_file storage conf ext u info entry categories paths now w).1.db
  unfolding import_one_file
  import_one_file-IsAccounted u info entry categories paths now w h =
      matched_row-IsAccounted u info entry categories paths now (importable_match u entry.id w.db) w
        (importable_match-found u entry.id w.db) h

-- ===== src/Uploads/Lifecycle.antt =====
-- The status of an upload session under the operations of media_service/controllers/uploads.py
-- and the purge of media_service/controllers/admin.py.
use mathlib.Core.Path.{subst, sym}
use media_service_m.Prelude.{
  ℕ, ◌+◌, some, List, [], ◌∷◌, ◌++◌, ◌≡◌, refl, ◌⊎◌, inl, inr, arith, Option-cases, Bool-cases, In,
  filter,
}
use media_service_m.Effect.{Result-cases}
use media_service_m.Model.Enums.{UploadSessionStatus, session_status_eq, session_status_eq_iff}
use media_service_m.Model.Rows.{UploadSession, Db, UserModel, upload_is}
use media_service_m.Model.Table.{find_row, find_row-append_some}
use media_service_m.Model.Store.{ObjectStorage, Externals, Settings, World}
use media_service_m.Uploads.{
  find_upload, status_of_upload, load_owned_session, save_upload, UploadInitiateRequest,
  initiate_upload, stage_upload, session_of, abort_upload, is_stale, purge_each,
  purge_stale_uploads, with_status, signed_max_bytes,
}
use media_service_m.Uploads.Moves.{
  IsAllowed, same, leave_open, abort_settled, IsFrom, IsMove, stays, moves, move-IsFrom,
  save_upload-IsFrom,
}
use media_service_m.Uploads.Complete.{UploadCompleteRequest, complete_upload}
use media_service_m.Uploads.Complete.Move.{complete_upload-IsMove}
use media_service_m.Uploads.Complete.Outcome.{load_owned_session-ok}

-- The primary key: the row that an id finds is the one that bears it.
abbrev pub IsKeyed : List UploadSession → Type 0
IsKeyed rows = (s : UploadSession) → In s rows → find_row (upload_is s.id) rows ≡ some s

module _ {S : Type 0} (storage : ObjectStorage S) (conf : Settings) (ext : Externals) where
  abort_upload-IsMove :
      (u : UserModel) (j : ℕ) (w : World S)
      → IsMove j w.db (abort_upload storage conf ext u j w).1.db
  unfolding abort_upload
  abort_upload-IsMove u j w = elim (Result-cases (load_owned_session u j w.db)) [
    | inr (e, l) ↦ stays (ground arith)
    | inl (s, l) ↦
        let (found, allowed, same_id) = load_owned_session-ok u j w.db s l in
        elim (Bool-cases (session_status_eq s.status UploadSessionStatus.completed)) [
          | inl done ↦ stays (ground arith)
          | inr other ↦
              moves s (with_status UploadSessionStatus.aborted s) found same_id
                (abort_settled (λ c.
                  ground (arith, session_status_eq_iff s.status UploadSessionStatus.completed)))
                (ground arith)
        ]
  ]

  -- What an initiation does: nothing on a refusal, otherwise one more row.
  initiate_upload-cases :
      (u : UserModel) (req : UploadInitiateRequest) (media_id now : ℕ) (w : World S)
      → ((initiate_upload storage conf ext u req media_id now w).1 ≡ w)
        ⊎ ((s : UploadSession) × (s.status ≡ UploadSessionStatus.initiated)
            × ((initiate_upload storage conf ext u req media_id now w).1.db.uploads
                ≡ w.db.uploads ++ s ∷ []))
  unfolding initiate_upload
  initiate_upload-cases u req media_id now w =
      elim (Result-cases (stage_upload conf ext u req media_id w.db).0) [
        | inr (e, st) ↦ inl (ground arith)
        | inl (staged, st) ↦
            elim (Option-cases (
              storage.presigned_post_object staged.bucket staged.object_key req.mime_type
                (signed_max_bytes conf ext req) conf.presigned_url_expire_seconds)) [
                  | inl failed ↦ inl (ground arith)
                  | inr (form, signed) ↦ inr (
                    session_of conf ext staged req (now + conf.presigned_url_expire_seconds) now,
                    refl,
                    ground arith,
                  )
                ]
      ]

  append-IsFrom :
      (k : ℕ) (a : UploadSessionStatus) (s : UploadSession) (d e : Db)
      → e.uploads ≡ d.uploads ++ s ∷ []
      → status_of_upload k d ≡ some a
      → IsFrom k a e
  append-IsFrom k a s d e rows h = elim (Option-cases (find_upload k d)) [
    | inl missing ↦ absurd (ground arith)
    | inr (x, found) ↦ record {
      status = a;
      found = ground (arith, find_row-append_some (upload_is k) d.uploads (s ∷ []) x found);
      allowed = same;
    }
  ]

  initiate_upload-IsFrom :
      (k : ℕ) (a : UploadSessionStatus) (u : UserModel) (req : UploadInitiateRequest)
      (media_id now : ℕ) (w : World S)
      → status_of_upload k w.db ≡ some a
      → IsFrom k a (initiate_upload storage conf ext u req media_id now w).1.db
  initiate_upload-IsFrom k a u req media_id now w h =
      elim (initiate_upload-cases u req media_id now w) [
        | inl nothing ↦ record { status = a; found = rw nothing h; allowed = same }
        | inr (s, fresh, rows) ↦ append-IsFrom k a s w.db _ rows h
      ]

  -- Every session that the purge selects was open.
  IsOpenAll : ℕ → UploadSessionStatus → List UploadSession → Type 0
  IsOpenAll k a [] = Unit
  IsOpenAll k a (s ∷ stale) = (s.id ≡ k → a ≡ UploadSessionStatus.initiated) × IsOpenAll k a stale

  purge_each-IsFrom :
      (k : ℕ) (a : UploadSessionStatus) (stale : List UploadSession) (d : Db) (store : S)
      → IsOpenAll k a stale
      → IsFrom k a d
      → IsFrom k a (purge_each storage conf ext stale d store).0
  unfolding purge_each IsOpenAll
  purge_each-IsFrom k a [] d store all h = h
  purge_each-IsFrom k a (s ∷ stale) d store all h =
      purge_each-IsFrom k a stale (save_upload (with_status UploadSessionStatus.expired s) d)
        (storage.remove_object s.storage_bucket s.object_key store).1 all.1
        (save_upload-IsFrom k a (with_status UploadSessionStatus.expired s) d
          (save_upload (with_status UploadSessionStatus.expired s) d) refl
          (λ own.
            subst (λ (x : UploadSessionStatus). IsAllowed x UploadSessionStatus.expired)
              (sym (all.0 own)) leave_open)
          h)

  stale-IsOpenAll :
      (k : ℕ) (a : UploadSessionStatus) (now : ℕ) (d : Db) (rows : List UploadSession)
      → ((s : UploadSession) → In s rows → find_upload s.id d ≡ some s)
      → status_of_upload k d ≡ some a
      → IsOpenAll k a (filter (is_stale storage conf ext now) rows)
  unfolding IsOpenAll
  stale-IsOpenAll k a now d [] keyed h = tt
  stale-IsOpenAll k a now d (s ∷ rows) keyed h =
      let rest = stale-IsOpenAll k a now d rows (λ x m. keyed x (inr m)) h in
      elim (Bool-cases (is_stale storage conf ext now s)) [
        | inr current ↦ rw current rest
        | inl late ↦ rw late (
          λ own. ground (
            arith,
            keyed s (inl refl),
            session_status_eq_iff s.status UploadSessionStatus.initiated,
          ),
          rest,
        )
      ]

  -- One operation of the upload flow, of any caller, in any order with the others.
  pub data UploadStep (w : World S) : World S → Type 0 where
    initiates :
        (u : UserModel) (req : UploadInitiateRequest) (media_id now : ℕ)
        → UploadStep w (initiate_upload storage conf ext u req media_id now w).1
    completes :
        (u : UserModel) (j : ℕ) (req : UploadCompleteRequest) (now : ℕ)
        → UploadStep w (complete_upload storage conf ext u j req now w).1
    aborts : (u : UserModel) (j : ℕ) → UploadStep w (abort_upload storage conf ext u j w).1
    purges : (now : ℕ) → UploadStep w (purge_stale_uploads storage conf ext now w).1

  -- Whatever operation of the upload flow runs, on whatever session, a session is still there after
  -- it, and its status has moved along `IsAllowed`: never out of completed, and to completed or
  -- expired only from initiated. The rows are found by a primary key.
  pub step-IsFrom :
      (w v : World S) (k : ℕ) (a : UploadSessionStatus)
      → UploadStep w v
      → IsKeyed w.db.uploads
      → status_of_upload k w.db ≡ some a
      → IsFrom k a v.db
  unfolding purge_stale_uploads
  step-IsFrom w v k a (initiates u req media_id now) keyed h =
      initiate_upload-IsFrom k a u req media_id now w h
  step-IsFrom w v k a (completes u j req now) keyed h =
      move-IsFrom j k a w.db _ (complete_upload-IsMove storage conf ext u j req now w) h
  step-IsFrom w v k a (aborts u j) keyed h = move-IsFrom j k a w.db _ (abort_upload-IsMove u j w) h
  step-IsFrom w v k a (purges now) keyed h =
      purge_each-IsFrom k a (filter (is_stale storage conf ext now) w.db.uploads) w.db w.store
        (stale-IsOpenAll k a now w.db w.db.uploads keyed h)
        (record { status = a; found = h; allowed = same })

-- ===== src/Uploads/Moves.antt =====
-- The moves of an upload session's status, and what one saved session does to the others.
use mathlib.Core.Path.{subst}
use media_service_m.Prelude.{ℕ, some, ◌==◌, ◌≡◌, ◌≢◌, inl, inr, arith, Bool-cases, ==-refl}
use media_service_m.Model.Enums.{UploadSessionStatus}
use media_service_m.Model.Rows.{UploadSession, Db, upload_is}
use media_service_m.Model.Table.{save_row, find_row-save_row_self, find_row-save_row_other}
use media_service_m.Uploads.{find_upload, status_of_upload}

-- The moves of a session: an open one goes anywhere, an expired one may still be aborted.
pub data IsAllowed : UploadSessionStatus → UploadSessionStatus → Type 0 where
  same : {a : UploadSessionStatus} → IsAllowed a a
  leave_open : {b : UploadSessionStatus} → IsAllowed UploadSessionStatus.initiated b
  abort_settled :
      {a : UploadSessionStatus}
      → a ≢ UploadSessionStatus.completed
      → IsAllowed a UploadSessionStatus.aborted

-- Where the session `k` is, when it was at `a`.
pub record IsFrom (k : ℕ) (a : UploadSessionStatus) (d : Db) : Type 0 where
  pub status : UploadSessionStatus
  pub found : status_of_upload k d ≡ some status
  pub allowed : IsAllowed a status

pub IsFrom-uploads :
    (k : ℕ) (a : UploadSessionStatus) (d e : Db)
    → e.uploads ≡ d.uploads
    → IsFrom k a d
    → IsFrom k a e
IsFrom-uploads k a d e same_rows h = record {
  status = h.status;
  found = ground (arith, h.found);
  allowed = h.allowed;
}

-- Saving a session moves it alone.
pub save_upload-IsFrom :
    (k : ℕ) (a : UploadSessionStatus) (s : UploadSession) (d e : Db)
    → e.uploads ≡ save_row (upload_is s.id) s d.uploads
    → (s.id ≡ k → IsAllowed a s.status)
    → IsFrom k a d
    → IsFrom k a e
save_upload-IsFrom k a s d e rows mine h = elim (Bool-cases (s.id == k)) [
  | inl own ↦ record {
    status = s.status;
    found = ground (arith, find_row-save_row_self (upload_is s.id) s d.uploads (==-refl s.id));
    allowed = mine (ground arith);
  }
  | inr other ↦ record {
    status = h.status;
    found = ground (
      arith,
      h.found,
      find_row-save_row_other (upload_is s.id) (upload_is k) s d.uploads (λ x p. ground arith)
          other,
    );
    allowed = h.allowed;
  }
]

-- What an operation on the session `j` does to the sessions: nothing, or one saved session that was
-- loaded at a status that lets it move.
pub data IsMove (j : ℕ) (d e : Db) : Type 0 where
  stays : e.uploads ≡ d.uploads → IsMove j d e
  moves :
      (s s' : UploadSession)
      → find_upload j d ≡ some s
      → s'.id ≡ j
      → IsAllowed s.status s'.status
      → e.uploads ≡ save_row (upload_is s'.id) s' d.uploads
      → IsMove j d e

pub move-IsFrom :
    (j k : ℕ) (a : UploadSessionStatus) (d e : Db)
    → IsMove j d e
    → status_of_upload k d ≡ some a
    → IsFrom k a e
move-IsFrom j k a d e (stays rows) h =
    IsFrom-uploads k a d e rows (record { status = a; found = h; allowed = same })
move-IsFrom j k a d e (moves s s' found same_id allowed rows) h =
    save_upload-IsFrom k a s' d e rows
      (λ own. subst (λ (x : UploadSessionStatus). IsAllowed x s'.status) (ground arith) allowed)
      (record { status = a; found = h; allowed = same })

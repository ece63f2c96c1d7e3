-- ===== src/Accounting.antt =====
-- The requests of media_service/controllers/uploads.py, objects.py, transfer_import.py and
-- admin.py as one step relation, for the ledger of Quota/Accounting.
use media_service_m.Prelude.{ℕ, Option, Bool, List, ◌≡◌, arith, In}
use media_service_m.Model.Enums.{ScanStatus}
use media_service_m.Model.Rows.{UserModel, MediaObject, Db}
use media_service_m.Model.Store.{ObjectStorage, Externals, Settings, World}
use media_service_m.Quota.Accounting.{IsAccounted, IsCredited, same-IsAccounted}
use media_service_m.Quota.{QuotaUpdateRequest, get_quota, set_quota}
use media_service_m.Quota.Overrides.{get_quota-IsAccounted, set_quota-IsAccounted}
use media_service_m.Uploads.{
  UploadInitiateRequest, initiate_upload, abort_upload, purge_stale_uploads,
}
use media_service_m.Uploads.Ledger.{
  SameLedger, initiate_upload-SameLedger, abort_upload-SameLedger, purge_stale_uploads-SameLedger,
}
use media_service_m.Uploads.Complete.{UploadCompleteRequest, complete_upload}
use media_service_m.Uploads.Complete.Credit.{complete_upload-IsAccounted}
use media_service_m.Objects.{MediaObjectUpdate, update_object, delete_object}
use media_service_m.Objects.Scans.{apply_scan_result}
use media_service_m.Objects.Bytes.Rows.{update_object-IsAccounted}
use media_service_m.Objects.Deletion.Debit.{delete_object-IsAccounted}
use media_service_m.Objects.Downloads.Rows.{apply_scan_result-IsAccounted}
use media_service_m.Maintenance.{hard_purge_expired}
use media_service_m.Maintenance.Ledger.{hard_purge_expired-IsAccounted}
use media_service_m.Import.Paths.{ImportManifest}
use media_service_m.Import.Rows.{ZipInfo}
use media_service_m.Import.Run.{import_manifest, import_open_archive}
use media_service_m.Import.Ledger.Runs.{import_open_archive-IsAccounted}
use media_service_m.Import.Ledger.Manifests.{import_manifest-IsAccounted}

kept-IsAccounted : (d e : Db) → SameLedger d e → IsAccounted d → IsAccounted e
kept-IsAccounted d e same = same-IsAccounted d e same.0 (λ owner tenant. ground (arith, same.1))

module _ {S : Type 0} (storage : ObjectStorage S) (conf : Settings) (ext : Externals) where
  -- One request, of any caller, or one run of a purge. A deletion and a verdict are of an object
  -- that was not rejected; the hard
  -- purge reads rows whose id is a key.
  pub data ServiceStep (w : World S) : World S → Type 0 where
    completes :
        (u : UserModel) (k : ℕ) (req : UploadCompleteRequest) (now : ℕ)
        → ServiceStep w (complete_upload storage conf ext u k req now w).1
    updates :
        (u : UserModel) (k : ℕ) (upd : MediaObjectUpdate) (now : ℕ) (commits : Bool)
        → ServiceStep w (update_object storage conf u k upd now commits w).1
    deletes :
        (u : UserModel) (k event_id now : ℕ)
        → IsCredited k w.db
        → ServiceStep w (delete_object storage conf u k event_id now w).1
    scans :
        (k : ℕ) (verdict : ScanStatus) (event_id now : ℕ)
        → IsCredited k w.db
        → ServiceStep w (record w { db = (apply_scan_result k verdict event_id now w.db).1 })
    purges :
        (now older_than limit : ℕ)
        → ((a b : MediaObject) → In a w.db.objects → In b w.db.objects → a.id ≡ b.id → a ≡ b)
        → ServiceStep w (hard_purge_expired storage now older_than limit w).1
    imports :
        (fresh : Db → ℕ) (u : UserModel) (manifest : ImportManifest) (infos : List ZipInfo)
        (now : ℕ)
        → ServiceStep w (import_open_archive storage conf ext fresh u manifest infos now w).1
    imports_manifest :
        (fresh : Db → ℕ) (u : UserModel) (manifest : ImportManifest) (now : ℕ)
        → ServiceStep w (import_manifest conf ext fresh u manifest now w).1
    sets_quota :
        (owner : ℕ) (tenant : Option ℕ) (update : QuotaUpdateRequest) (now : ℕ)
        → ServiceStep w (record w { db = set_quota owner tenant update now w.db })
    gets_quota :
        (owner : ℕ) (tenant : Option ℕ) (now : ℕ)
        → ServiceStep w (record w { db = get_quota owner tenant now w.db })
    initiates :
        (u : UserModel) (req : UploadInitiateRequest) (media_id now : ℕ)
        → ServiceStep w (initiate_upload storage conf ext u req media_id now w).1
    aborts : (u : UserModel) (j : ℕ) → ServiceStep w (abort_upload storage conf ext u j w).1
    purges_stale : (now : ℕ) → ServiceStep w (purge_stale_uploads storage conf ext now w).1
    -- what is no request of these and writes neither objects nor usage rows
    elsewhere :
        (v : World S) → v.db.objects ≡ w.db.objects → v.db.usages ≡ w.db.usages → ServiceStep w v

  pub data ServiceHistory (w : World S) : World S → Type 0 where
    start : ServiceHistory w w
    next : {v x : World S} → ServiceHistory w v → ServiceStep v x → ServiceHistory w x

  step-IsAccounted : (w v : World S) → ServiceStep w v → IsAccounted w.db → IsAccounted v.db
  step-IsAccounted w v (completes u k req now) h =
      complete_upload-IsAccounted storage conf ext u k req now w h
  step-IsAccounted w v (updates u k upd now commits) h =
      update_object-IsAccounted storage conf u k upd now commits w h
  step-IsAccounted w v (deletes u k event_id now credited) h =
      delete_object-IsAccounted storage conf u k event_id now w credited h
  step-IsAccounted w v (scans k verdict event_id now credited) h =
      apply_scan_result-IsAccounted k verdict event_id now w.db credited h
  step-IsAccounted w v (purges now older_than limit keyed) h =
      hard_purge_expired-IsAccounted storage now older_than limit w keyed h
  step-IsAccounted w v (imports fresh u manifest infos now) h =
      import_open_archive-IsAccounted storage conf ext fresh u manifest infos now w h
  step-IsAccounted w v (imports_manifest fresh u manifest now) h =
      import_manifest-IsAccounted conf ext fresh u manifest now w h
  step-IsAccounted w v (sets_quota owner tenant update now) h =
      set_quota-IsAccounted owner tenant update now w.db h
  step-IsAccounted w v (gets_quota owner tenant now) h =
      get_quota-IsAccounted owner tenant now w.db h
  step-IsAccounted w v (initiates u req media_id now) h =
      kept-IsAccounted w.db (initiate_upload storage conf ext u req media_id now w).1.db
        (initiate_upload-SameLedger storage conf ext u req media_id now w) h
  step-IsAccounted w v (aborts u j) h =
      kept-IsAccounted w.db (abort_upload storage conf ext u j w).1.db
        (abort_upload-SameLedger storage conf ext u j w) h
  step-IsAccounted w v (purges_stale now) h =
      kept-IsAccounted w.db (purge_stale_uploads storage conf ext now w).1.db
        (purge_stale_uploads-SameLedger storage conf ext now w) h
  step-IsAccounted w _ (elsewhere v objects usages) h =
      kept-IsAccounted w.db v.db (objects, usages) h

  -- Over any sequence of initiations, completions and aborts of uploads, updates, deletions, verdicts,
  -- imports, readings and overrides of a quota, and both purges, accepted or refused, and of steps
  -- that write neither objects nor usage rows, in which only objects that were not rejected are
  -- deleted or scanned and no two object rows share an id at a hard purge, every scope's total of
  -- bytes stays the sum of the sizes of its objects that are neither deleted nor rejected.
  pub history-IsAccounted :
      (w v : World S) → ServiceHistory w v → IsAccounted w.db → IsAccounted v.db
  history-IsAccounted w v start h = h
  history-IsAccounted w x (next {v = v} before step) h =
      step-IsAccounted v x step (history-IsAccounted w v before h)

-- ===== src/Objects/Scans.antt =====
-- The antivirus verdict and the download URL: `apply_scan_result` and `download_url` of
-- media_service/controllers/objects.py.
use media_service_m.Prelude.{ℕ, ◌+◌, true, not, ◌||◌, Option, [], ◌∷◌, if◌then◌else◌, Text, codes}
use media_service_m.Effect.{
  Exec, Result, ok, err, pure, raise_if, or_raise, lift, gets, ◌>>=◌, ◌>>◌, download_not_available,
  presign_failed,
}
use media_service_m.Model.Enums.{MediaObjectStatus, ScanStatus, scan_eq}
use media_service_m.Model.Rows.{MediaObject, Db, UserModel}
use media_service_m.Model.Store.{ObjectStorage, Externals, Settings}
use media_service_m.Outbox.{record_event}
use media_service_m.Disposition.{create_download_url}
use media_service_m.Access.{fetch_object, load_object_for_read}
use media_service_m.Objects.{save_object}

abbrev pub value_of_scan : ScanStatus → Text
value_of_scan ScanStatus.pending = codes "pending"
value_of_scan ScanStatus.clean = codes "clean"
value_of_scan ScanStatus.infected = codes "infected"
value_of_scan ScanStatus.quarantined = codes "quarantined"
value_of_scan ScanStatus.skipped = codes "skipped"

unfoldable pub scan_verdict : MediaObject → ScanStatus → ℕ → ℕ → Db → MediaObject × Db
scan_verdict o scan_status event_id now d =
    let cleared = record o {
      scan_status = ScanStatus.clean;
      status = MediaObjectStatus.ready;
      updated_at = now;
    } in
    let barred = record o { scan_status = ScanStatus.quarantined; updated_at = now } in
    if scan_eq scan_status ScanStatus.clean
    then (
      cleared,
      record_event (codes "object.ready") o.id
          ((codes "status", codes "ready") ∷ (codes "scan_status", codes "clean") ∷ []) event_id now
          (save_object cleared d),
    )
    else (
      barred,
      record_event (codes "scan.failed") o.id ((codes "scan_status", codes "quarantined") ∷ [])
          event_id now (save_object barred d),
    )

abbrev scanned : ScanStatus → ℕ → ℕ → Db → Result MediaObject → Result MediaObject × Db
scanned scan_status event_id now d (err e) = (err e, d)
scanned scan_status event_id now d (ok o) =
    let (o', d') = scan_verdict o scan_status event_id now d in (ok o', d')

-- `ObjectsController.apply_scan_result`.
unfoldable pub apply_scan_result : ℕ → ScanStatus → ℕ → ℕ → Exec Db MediaObject
apply_scan_result object_id scan_status event_id now d =
    scanned scan_status event_id now d (fetch_object object_id true d)

-- `_download_not_available_message`.
abbrev pub download_not_available_message : ScanStatus → Text
download_not_available_message scan_status =
    if scan_eq scan_status ScanStatus.infected || scan_eq scan_status ScanStatus.quarantined
    then codes "Object is not available for download: it failed the virus scan."
    else codes "Object is not available for download until it passes scanning."

pub record DownloadUrlResponse : Type 0 where
  pub url : Text
  pub expires_at : ℕ

-- `ObjectsController.download_url`; it writes nothing.
unfoldable pub download_url :
    {S : Type 0}
    → ObjectStorage S
    → Settings
    → Externals
    → Option UserModel
    → ℕ
    → ℕ
    → Exec Db DownloadUrlResponse
download_url storage conf ext u object_id now = do
  d ← gets (λ (d : Db). d)
  o ← lift (load_object_for_read u object_id d)
  raise_if (not (scan_eq o.scan_status ScanStatus.clean)) 409
      (download_not_available o.scan_status (download_not_available_message o.scan_status))
  url ←
      or_raise
        (create_download_url storage ext o.storage_bucket o.object_key
          conf.presigned_url_expire_seconds o.original_filename)
        500 presign_failed
  pure (record { url = url; expires_at = now + conf.presigned_url_expire_seconds })

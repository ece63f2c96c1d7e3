-- ===== src/Objects/Downloads/Rows.antt =====
-- The rows of `apply_scan_result` in the ledger of Quota/Accounting.
use media_service_m.Prelude.{ℕ, true, false, some, ◌≡◌, inl, inr, arith}
use media_service_m.Effect.{Result-cases}
use media_service_m.Model.Enums.{ScanStatus}
use media_service_m.Model.Rows.{MediaObject, Db}
use media_service_m.Quota.Accounting.{IsAccounted, IsCredited, is_rejected, saved-IsAccounted}
use media_service_m.Access.{find_object, fetch_object}
use media_service_m.Objects.Scans.{scan_verdict, apply_scan_result}
use media_service_m.Objects.Downloads.{fetch_object-ok}

scan_verdict-IsAccounted :
    (k : ℕ) (o : MediaObject) (verdict : ScanStatus) (event_id now : ℕ) (d : Db)
    → find_object k d ≡ some o
    → o.id ≡ k
    → is_rejected o ≡ false
    → IsAccounted d
    → IsAccounted (scan_verdict o verdict event_id now d).1
unfolding scan_verdict
scan_verdict-IsAccounted k o verdict event_id now d found same_id accepted h =
    saved-IsAccounted d (scan_verdict o verdict event_id now d).1 o
      (scan_verdict o verdict event_id now d).0 (ground arith) (ground arith)
      (λ owner tenant total. ground arith) h

pub apply_scan_result-IsAccounted :
    (k : ℕ) (verdict : ScanStatus) (event_id now : ℕ) (d : Db)
    → IsCredited k d
    → IsAccounted d
    → IsAccounted (apply_scan_result k verdict event_id now d).1
unfolding apply_scan_result
apply_scan_result-IsAccounted k verdict event_id now d credited h =
    elim (Result-cases (fetch_object k true d)) [
      | inl (o, f) ↦
          let (found, same_id) = fetch_object-ok k d o f in
          rw f
            (scan_verdict-IsAccounted k o verdict event_id now d found same_id (credited o found) h)
      | inr (e, f) ↦ rw f h
    ]

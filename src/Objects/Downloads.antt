-- ===== src/Objects/Downloads.antt =====
-- `download_url` and `apply_scan_result` of media_service/controllers/objects.py.
pub mod Rows
use media_service_m.Prelude.{
  ℕ, ◌+◌, true, Option, none, some, ◌≡◌, refl, ◌⊎◌, inl, inr, arith, if◌then◌else◌, Option-cases,
  Bool-cases, length, length-append,
}
use media_service_m.Effect.{ok, err, Result-cases, Error, http, media_not_found}
use media_service_m.Model.Enums.{MediaObjectStatus, ScanStatus, scan_eq, scan_eq_iff}
use media_service_m.Model.Rows.{MediaObject, Db, UserModel, object_is}
use media_service_m.Model.Table.{find_row-passes}
use media_service_m.Model.Store.{ObjectStorage, Externals, Settings}
use media_service_m.Quota.{bytes_of, count_of}
use media_service_m.Disposition.{create_download_url}
use media_service_m.Access.{
  find_object, fetch_object, require_visibility_access, load_object_for_read,
}
use media_service_m.Objects.Scans.{
  scan_verdict, apply_scan_result, DownloadUrlResponse, download_url,
}
use media_service_m.Objects.Bytes.{find_object-save_object}

-- What a download that got its URL has passed.
pub record IsServed {S : Type 0} (storage : ObjectStorage S) (conf : Settings) (ext : Externals)
    (u : Option UserModel) (k now : ℕ) (d : Db) (r : DownloadUrlResponse) : Type 0 where
  pub object : MediaObject
  pub found : find_object k d ≡ some object
  pub live : object.deleted_at ≡ none
  pub visible : require_visibility_access object u ≡ ok tt
  pub clean : object.scan_status ≡ ScanStatus.clean
  -- the URL is signed for the object's own bytes, and its expiry is the one that is told
  pub signed :
      create_download_url storage ext object.storage_bucket object.object_key
        conf.presigned_url_expire_seconds object.original_filename
      ≡ some r.url
  pub expiry : r.expires_at ≡ now + conf.presigned_url_expire_seconds

load_object_for_read-ok :
    (u : Option UserModel) (k : ℕ) (d : Db) (o : MediaObject)
    → load_object_for_read u k d ≡ ok o
    → (find_object k d ≡ some o) × (o.deleted_at ≡ none) × (require_visibility_access o u ≡ ok tt)
unfolding load_object_for_read
load_object_for_read-ok u k d o h = elim (Option-cases (find_object k d)) [
  | inl missing ↦ absurd (ground arith)
  | inr (x, e) ↦ elim (Option-cases x.deleted_at) [
    | inr (t, gone) ↦ absurd (ground arith)
    | inl live ↦ elim (Result-cases (require_visibility_access x u)) [
      | inr (r, denied) ↦ absurd (ground arith)
      | inl (t, passed) ↦ ground arith
    ]
  ]
]

-- A download URL is handed out only for a live object that the caller may read and that an
-- antivirus scan has cleared, for its own bytes and the configured lifetime.
pub download_url-IsServed :
    {S : Type 0} (storage : ObjectStorage S) (conf : Settings) (ext : Externals)
    (u : Option UserModel) (k now : ℕ) (d : Db) (r : DownloadUrlResponse)
    → (download_url storage conf ext u k now d).0 ≡ ok r
    → IsServed storage conf ext u k now d r
unfolding download_url
download_url-IsServed storage conf ext u k now d r h =
    elim (Result-cases (load_object_for_read u k d)) [
      | inr (e, l) ↦ absurd (ground arith)
      | inl (o, l) ↦
          let (found, live, visible) = load_object_for_read-ok u k d o l in
          elim (Option-cases (
            create_download_url storage ext o.storage_bucket o.object_key
              conf.presigned_url_expire_seconds o.original_filename)) [
                | inl failed ↦ absurd (ground arith)
                | inr (url, signed) ↦ record {
                  object = o;
                  found = found;
                  live = live;
                  visible = visible;
                  clean = ground (arith, scan_eq_iff o.scan_status ScanStatus.clean);
                  signed = ground arith;
                  expiry = ground arith;
                }
              ]
    ]

-- What a verdict on the object `k` leaves: the row is cleared or barred, one event tells of it, and
-- nobody's totals move.
pub record IsVerdict (k : ℕ) (verdict : ScanStatus) (before after : Db) (o : MediaObject)
    : Type 0 where
  pub old : MediaObject
  pub was : find_object k before ≡ some old
  pub found : find_object k after ≡ some o
  -- a deletion is not undone, whatever the status says
  pub still : o.deleted_at ≡ old.deleted_at
  pub decided :
      o.scan_status
      ≡ (if scan_eq verdict ScanStatus.clean then ScanStatus.clean else ScanStatus.quarantined)
  pub cleared : verdict ≡ ScanStatus.clean → o.status ≡ MediaObjectStatus.ready
  pub one_event : length after.events ≡ length before.events + 1
  pub same_totals :
      (owner : ℕ) (tenant : Option ℕ)
      → (bytes_of owner tenant after ≡ bytes_of owner tenant before)
        × (count_of owner tenant after ≡ count_of owner tenant before)

scan_verdict-IsVerdict :
    (k : ℕ) (o : MediaObject) (verdict : ScanStatus) (event_id now : ℕ) (d : Db)
    → o.id ≡ k
    → find_object k d ≡ some o
    → IsVerdict k verdict d
        (scan_verdict o verdict event_id now d).1
        (scan_verdict o verdict event_id now d).0
unfolding scan_verdict
scan_verdict-IsVerdict k o verdict event_id now d same_id was =
    let row = (scan_verdict o verdict event_id now d).0 in
    record {
      old = o;
      was = was;
      found = ground (arith, find_object-save_object row d);
      still = ground arith;
      decided = ground arith;
      cleared = λ c. ground arith;
      one_event = elim (Bool-cases (scan_eq verdict ScanStatus.clean)) [
        | inl c ↦ rw c (length-append d.events _)
        | inr b ↦ rw b (length-append d.events _)
      ];
      same_totals = λ owner tenant. ground arith;
    }

fetch_object-ok :
    (k : ℕ) (d : Db) (o : MediaObject)
    → fetch_object k true d ≡ ok o
    → (find_object k d ≡ some o) × (o.id ≡ k)
unfolding fetch_object
fetch_object-ok k d o h = elim (Option-cases (find_object k d)) [
  | inl missing ↦ absurd (ground arith)
  | inr (x, e) ↦ ground (arith, find_row-passes (object_is k) d.objects x e)
]

fetch_object-missing :
    (k : ℕ) (d : Db) (e : Error)
    → fetch_object k true d ≡ err e
    → (find_object k d ≡ none) × (e ≡ http 404 media_not_found)
unfolding fetch_object
fetch_object-missing k d e h = ground arith

-- A verdict for an object that exists, deleted or not, returns and writes what `IsVerdict` lists;
-- for a missing one it is 404 and nothing is written.
pub apply_scan_result-IsVerdict :
    (k : ℕ) (verdict : ScanStatus) (event_id now : ℕ) (d : Db)
    → ((o : MediaObject) × ((apply_scan_result k verdict event_id now d).0 ≡ ok o)
        × IsVerdict k verdict d (apply_scan_result k verdict event_id now d).1 o)
      ⊎ ((find_object k d ≡ none)
          × (apply_scan_result k verdict event_id now d ≡ (err (http 404 media_not_found), d)))
unfolding apply_scan_result
apply_scan_result-IsVerdict k verdict event_id now d = elim (Result-cases (fetch_object k true d)) [
  | inl (o, f) ↦ inl (
    (scan_verdict o verdict event_id now d).0,
    rw f refl,
    rw f (
        scan_verdict-IsVerdict k o verdict event_id now d (fetch_object-ok k d o f).1
          (fetch_object-ok k d o f).0),
  )
  | inr (e, f) ↦
      let (missing, same) = fetch_object-missing k d e f in inr (missing, rw (f, same) refl)
]

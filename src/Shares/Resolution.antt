-- ===== src/Shares/Resolution.antt =====
-- `create` and `resolve` of media_service/controllers/shares.py.
use media_service_m.Prelude.{
  ℕ, ◌+◌, ◌≤◌, ◌<◌, true, false, ◌&&◌, ◌||◌, none, some, ◌==◌, ◌≡◌, inl, inr, arith, Option-cases,
  Bool-cases, Text, max, is_none,
}
use media_service_m.Effect.{ok, Result-cases}
use media_service_m.Model.Enums.{ScanStatus, scan_eq, scan_eq_iff}
use media_service_m.Model.Rows.{MediaObject, ShareToken, Db, UserModel, share_is}
use media_service_m.Model.Store.{ObjectStorage, Externals, Settings}
use media_service_m.Model.Table.{find_row-passes}
use media_service_m.Disposition.{create_download_url}
use media_service_m.Access.{find_object, load_object}
use media_service_m.Objects.Scans.{DownloadUrlResponse}
use media_service_m.Objects.Bytes.{load_object-ok}
use media_service_m.Shares.{
  Signer, verify, find_share, ShareTokenCreate, too_long, share_of, add_share, create, has_use_left,
  load_active_share, consume_use, resolve,
}

-- A new link: its object is live and the caller's, its lifetime is within the operator's bounds, and
-- it starts unused.
pub record IsNewLink (conf : Settings) (u : UserModel) (object_id token_id now : ℕ)
    (body : ShareTokenCreate) (before after : Db) (s : ShareToken) : Type 0 where
  pub object : MediaObject
  pub found : find_object object_id before ≡ some object
  pub allowed : (u.is_superuser || object.owner_user_id == u.id) ≡ true
  pub row : s ≡ share_of conf object body token_id now
  pub bounded :
      s.expires_at ≤ now + max conf.share_max_expires_seconds conf.share_default_expires_seconds
  pub added : after ≡ add_share s before

-- A link that was created is for an object of the caller's, and lives no longer than the longer of
-- the two configured lifetimes.
pub create-IsNewLink :
    (conf : Settings) (u : UserModel) (object_id : ℕ) (body : ShareTokenCreate) (token_id now : ℕ)
    (d : Db) (s : ShareToken)
    → (create conf u object_id body token_id now d).0 ≡ ok s
    → IsNewLink conf u object_id token_id now body d
        (create conf u object_id body token_id now d).1
        s
unfolding create
create-IsNewLink conf u object_id body token_id now d s h =
    elim (Result-cases (load_object u object_id false d)) [
      | inr (e, l) ↦ absurd (ground arith)
      | inl (o, l) ↦
          let (found, same_id, allowed) = load_object-ok u object_id false d o l in
          elim (Bool-cases (too_long conf.share_max_expires_seconds body.expires_in)) [
            | inl refused ↦ absurd (ground arith)
            | inr fits ↦ record {
              object = o;
              found = found;
              allowed = allowed;
              row = ground arith;
              bounded = ground arith;
              added = ground arith;
            }
          ]
    ]

-- What a resolution that got its URL has passed and consumed.
pub record IsResolved {S : Type 0} (storage : ObjectStorage S) (conf : Settings) (ext : Externals)
    (signer : Signer) (token : Text) (now : ℕ) (before after : Db) (r : DownloadUrlResponse)
    : Type 0 where
  pub link : ShareToken
  pub verified : verify signer token ≡ ok link.id
  pub found : find_share link.id before ≡ some link
  pub unrevoked : link.revoked ≡ false
  pub in_time : now < link.expires_at
  pub unused : has_use_left link ≡ true
  pub object : MediaObject
  pub object_found : find_object link.media_object_id before ≡ some object
  pub live : object.deleted_at ≡ none
  pub clean : object.scan_status ≡ ScanStatus.clean
  -- the use is one that the conditional update won
  pub won : (consume_use link.id now before).0 ≡ true
  pub consumes : after ≡ (consume_use link.id now before).1
  pub signed :
      create_download_url storage ext object.storage_bucket object.object_key
        conf.presigned_url_expire_seconds object.original_filename
      ≡ some r.url
  pub expiry : r.expires_at ≡ now + conf.presigned_url_expire_seconds

-- A link that is loaded as active.
record IsActive (signer : Signer) (token : Text) (now : ℕ) (d : Db) (s : ShareToken) : Type 0 where
  verified : verify signer token ≡ ok s.id
  found : find_share s.id d ≡ some s
  unrevoked : s.revoked ≡ false
  in_time : now < s.expires_at
  unused : has_use_left s ≡ true

load_active_share-IsActive :
    (signer : Signer) (token : Text) (now : ℕ) (d : Db) (s : ShareToken)
    → load_active_share signer token now d ≡ ok s
    → IsActive signer token now d s
unfolding load_active_share
load_active_share-IsActive signer token now d s h = elim (Result-cases (verify signer token)) [
  | inr (e, v) ↦ absurd (ground arith)
  | inl (k, v) ↦ elim (Option-cases (find_share k d)) [
    | inl missing ↦ absurd (ground arith)
    | inr (x, f) ↦
        let same_id = find_row-passes (share_is k) d.shares x f in
        record {
          verified = ground arith;
          found = ground arith;
          unrevoked = ground arith;
          in_time = ground arith;
          unused = ground arith;
        }
  ]
]

-- A resolution that returns a URL had a token with the service's own signature, for a link that was
-- not revoked, not expired and not exhausted, of a live object that a scan has cleared; it won one
-- use by the conditional update and wrote nothing else.
pub resolve-IsResolved :
    {S : Type 0} (storage : ObjectStorage S) (conf : Settings) (ext : Externals) (signer : Signer)
    (token : Text) (now : ℕ) (d : Db) (r : DownloadUrlResponse)
    → (resolve storage conf ext signer token now d).0 ≡ ok r
    → IsResolved storage conf ext signer token now d
        (resolve storage conf ext signer token now d).1
        r
unfolding resolve
resolve-IsResolved storage conf ext signer token now d r h =
    elim (Result-cases (load_active_share signer token now d)) [
      | inr (e, l) ↦ absurd (ground arith)
      | inl (s, l) ↦
          let active = load_active_share-IsActive signer token now d s l in
          elim (Option-cases (find_object s.media_object_id d)) [
            | inl missing ↦ absurd (ground arith)
            | inr (o, f) ↦
                elim (Bool-cases (
                  is_none o.deleted_at
                  && (scan_eq o.scan_status ScanStatus.clean && (consume_use s.id now d).0))) [
                    | inr stopped ↦ absurd (ground arith)
                    | inl passed ↦
                        elim (Option-cases (
                          create_download_url storage ext o.storage_bucket o.object_key
                            conf.presigned_url_expire_seconds o.original_filename)) [
                              | inl failed ↦ absurd (ground arith)
                              | inr (url, signed) ↦ record {
                                link = s;
                                verified = active.verified;
                                found = active.found;
                                unrevoked = active.unrevoked;
                                in_time = active.in_time;
                                unused = active.unused;
                                object = o;
                                object_found = f;
                                live = ground arith;
                                clean = ground (arith, scan_eq_iff o.scan_status ScanStatus.clean);
                                won = ground arith;
                                consumes = ground arith;
                                signed = ground arith;
                                expiry = ground arith;
                              }
                            ]
                  ]
          ]
    ]

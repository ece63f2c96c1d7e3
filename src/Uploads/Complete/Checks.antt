-- ===== src/Uploads/Complete/Checks.antt =====
-- What the checks of `complete_upload` (media_service/controllers/uploads.py) conclude when they pass.
use media_service_m.Prelude.{
  ℕ, ◌≤◌, true, false, Option, some, List, ◌≡◌, ◌⊎◌, inl, inr, arith, Option-cases, Bool-cases,
  Text, ==-refl, ltb,
}
use media_service_m.Effect.{Result, ok, is_ok, Result-cases}
use media_service_m.Model.Enums.{MediaObjectStatus, UploadSessionStatus, session_status_eq}
use media_service_m.Model.Rows.{MediaObject, UploadSession, Category, Db, UserModel, upload_is}
use media_service_m.Model.Store.{ObjectStorage, ObjectStat, Externals, Settings, World}
use media_service_m.Validation.{mime_consistent, sniff_mime}
use media_service_m.Quota.{reserve_storage_for_object}
use media_service_m.Model.Table.{save_row, find_row-save_row_self}
use media_service_m.Uploads.{
  status_of_upload, load_owned_session, ensure_completable, save_upload, with_status,
}
use media_service_m.Uploads.Complete.{
  UploadCompleteRequest, object_of, filing_of, size_ceiling, inspect, reject_upload, finalize,
  complete_upload, concluded, accepted, promoted, head_of,
}

module _ {S : Type 0} (storage : ObjectStorage S) (conf : Settings) (ext : Externals) where
  abbrev pub head_bytes : UploadSession → S → Text
  head_bytes s store = head_of (storage.get_object_head store s.storage_bucket s.object_key)

  pub inspect-accepted :
      (s : UploadSession) (sha256 : Option Text) (stat : ObjectStat) (store : S)
      → inspect storage conf ext s sha256 stat store ≡ accepted
      → (stat.size ≤ size_ceiling storage conf ext s)
        × (mime_consistent s.expected_mime_type (sniff_mime ext (head_bytes s store)) ≡ true)
  unfolding inspect
  inspect-accepted s sha256 stat store h = (ground arith, ground arith)

module _ {S : Type 0} (storage : ObjectStorage S) (conf : Settings) (ext : Externals)
    (u : UserModel) (session_id : ℕ) (req : UploadCompleteRequest) (now : ℕ) (w : World S) where
  abbrev pub completes : Result MediaObject × World S
  completes = complete_upload storage conf ext u session_id req now w

  -- A completion that returns has passed its loader, its session's state and its filing, found the
  -- bytes, and gone on to the checks.
  pub record Reaches : Type 0 where
    pub session : UploadSession
    pub categories : List Category
    pub stat : ObjectStat
    pub loaded : load_owned_session u session_id w.db ≡ ok session
    pub initiated : session.status ≡ UploadSessionStatus.initiated
    pub in_time : now ≤ session.expires_at
    pub filed : filing_of u req.category_ids session.category_ids w.db ≡ ok categories
    pub stored : storage.stat_object w.store session.storage_bucket session.object_key ≡ some stat
    pub concludes :
        completes
        ≡ concluded storage conf ext session req.sha256 stat categories now
            (inspect storage conf ext session req.sha256 stat w.store)
            w

  -- The session was open and late: it is marked.
  pub record Expires : Type 0 where
    pub session : UploadSession
    pub loaded : load_owned_session u session_id w.db ≡ ok session
    pub initiated : session.status ≡ UploadSessionStatus.initiated
    pub marked :
        completes.1.db.uploads
        ≡ save_row
            (upload_is session.id)
            (with_status UploadSessionStatus.expired session)
            w.db.uploads

  -- Otherwise it stops before the checks, having written at most the session's expiry.
  pub complete_upload-cases :
      Reaches
      ⊎ ((completes.1.db.objects ≡ w.db.objects)
          × (completes.1.db.usages ≡ w.db.usages)
          × (is_ok completes.0 ≡ false)
          × (((completes.1.db.uploads ≡ w.db.uploads)) ⊎ Expires))
  unfolding complete_upload ensure_completable
  complete_upload-cases = elim (Result-cases (load_owned_session u session_id w.db)) [
    | inr (e, l) ↦ inr (ground arith, ground arith, ground arith, inl (ground arith))
    | inl (s, l) ↦ elim (Bool-cases (session_status_eq s.status UploadSessionStatus.initiated)) [
      | inr closed ↦ inr (ground arith, ground arith, ground arith, inl (ground arith))
      | inl open_session ↦ elim (Bool-cases (ltb s.expires_at now)) [
        | inl late ↦ inr (
          ground arith,
          ground arith,
          ground arith,
          inr (record { session = s; loaded = l; initiated = ground arith; marked = ground arith }),
        )
        | inr early ↦ elim (Result-cases (filing_of u req.category_ids s.category_ids w.db)) [
          | inr (e, f) ↦ inr (ground arith, ground arith, ground arith, inl (ground arith))
          | inl (cats, f) ↦
              elim (Option-cases (storage.stat_object w.store s.storage_bucket s.object_key)) [
                | inl missing ↦ inr (ground arith, ground arith, ground arith, inl (ground arith))
                | inr (stat, st) ↦ inl (record {
                  session = s;
                  categories = cats;
                  stat = stat;
                  loaded = l;
                  initiated = ground arith;
                  in_time = ground arith;
                  filed = f;
                  stored = st;
                  concludes = ground arith;
                })
              ]
        ]
      ]
    ]
  ]

  pub complete_upload-Reaches : is_ok completes.0 ≡ true → Reaches
  complete_upload-Reaches h = elim complete_upload-cases [
    | inl r ↦ r
    | inr (objects, usages, raised, uploads) ↦ absurd (ground arith)
  ]

module _ {S : Type 0} (storage : ObjectStorage S) (conf : Settings) (ext : Externals) where
  module _ (s : UploadSession) (sha256 : Option Text) (stat : ObjectStat)
      (categories : List Category) (now : ℕ) (w : World S) where
    abbrev reservation : Result (Unit {0}) × Db
    reservation = reserve_storage_for_object conf s.owner_user_id s.tenant_id stat.size now w.db

    pub finalize-ok :
        (o : MediaObject)
        → (finalize storage conf ext s sha256 stat categories now w).0 ≡ ok o
        → (o ≡ object_of s MediaObjectStatus.uploaded stat sha256 now)
          × (reservation.0 ≡ ok tt)
          × ((finalize storage conf ext s sha256 stat categories now w).1.db
              ≡ promoted storage conf ext s sha256 stat categories now reservation.1)
    unfolding finalize reject_upload
    finalize-ok o h =
        elim (Bool-cases
          (storage.set_object_content_type s.storage_bucket s.object_key s.expected_mime_type
            w.store).0) [
              | inl done ↦ elim (Result-cases reservation.0) [
                | inl (t, r) ↦ (ground arith, r, ground arith)
                | inr (e, r) ↦ absurd (ground arith)
              ]
              | inr raised ↦ absurd (ground arith)
            ]

pub status_of-save_upload :
    (k : ℕ) (s : UploadSession) (d : Db)
    → s.id ≡ k
    → status_of_upload k (save_upload s d) ≡ some s.status
status_of-save_upload k s d e =
    ground (arith, find_row-save_row_self (upload_is s.id) s d.uploads, ==-refl s.id)

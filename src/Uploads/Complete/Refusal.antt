-- ===== src/Uploads/Complete/Refusal.antt =====
-- The completions of media_service/controllers/uploads.py that raise: `_reject_upload` and the
-- early errors.
use mathlib.Core.Path.{subst}
use media_service_m.Prelude.{
  ℕ, Bool, true, false, Option, none, some, List, [], ◌∷◌, ◌++◌, ◌≡◌, refl, sym, ap, ◌⊎◌, inl, inr,
  arith, Bool-cases,
}
use media_service_m.Effect.{Result, err, is_ok, Result-cases, RejectReason, Error}
use media_service_m.Model.Enums.{MediaObjectStatus, UploadSessionStatus}
use media_service_m.Model.Rows.{MediaObject, UploadSession, Category, Db, UserModel}
use media_service_m.Model.Store.{ObjectStorage, ObjectStat, Externals, Settings, World}
use media_service_m.Quota.{reserve_storage_for_object, bytes_of, count_of}
use media_service_m.Quota.Checks.{reserve-totals, reserve-with_usages}
use media_service_m.Uploads.{find_upload, status_of_upload}
use media_service_m.Uploads.Complete.{
  UploadCompleteRequest, object_of, inspect, reject_upload, finalize, complete_upload, concluded,
  Verdict, accepted, refused, failed, reason_of,
}
use media_service_m.Uploads.Complete.Outcome.{load_owned_session-ok}
use media_service_m.Uploads.Complete.Checks.{Reaches, complete_upload-cases, status_of-save_upload}

-- Nobody's totals moved.
abbrev pub SameTotals : Db → Db → Type 0
SameTotals before after =
    (owner : ℕ) (tenant : Option ℕ)
    → (bytes_of owner tenant after ≡ bytes_of owner tenant before)
      × (count_of owner tenant after ≡ count_of owner tenant before)

-- The session was aborted, and its object is kept as rejected.
pub record IsRejection (session_id now : ℕ) (before after : Db) : Type 0 where
  pub session : UploadSession
  pub stat : ObjectStat
  pub found : find_upload session_id before ≡ some session
  pub kept :
      after.objects
      ≡ before.objects ++ object_of session MediaObjectStatus.rejected stat none now ∷ []
  pub closed : status_of_upload session_id after ≡ some UploadSessionStatus.aborted

abbrev pub IsHarmless : ℕ → ℕ → Db → Db → Type 0
IsHarmless session_id now before after =
    SameTotals before after
    × ((after.objects ≡ before.objects) ⊎ IsRejection session_id now before after)

module _ {S : Type 0} (storage : ObjectStorage S) (conf : Settings) (ext : Externals) where
  reject_upload-IsHarmless :
      (k : ℕ) (s : UploadSession) (reason : RejectReason) (stat : ObjectStat) (now : ℕ)
      (before staged : Db) (w : World S)
      → find_upload k before ≡ some s
      → s.id ≡ k
      → staged.objects ≡ before.objects
      → SameTotals before staged
      → IsHarmless k now before
          (reject_upload storage conf ext {A = MediaObject} s reason stat now staged w).1.db
  unfolding reject_upload
  reject_upload-IsHarmless k s reason stat now before staged w found same_id objects totals = (
    totals,
    inr (record {
      session = s;
      stat = stat;
      found = found;
      kept = rw objects;
      closed =
          status_of-save_upload k (record s { status = UploadSessionStatus.aborted }) staged
            same_id;
    }),
  )

  module _ (s : UploadSession) (sha256 : Option (List ℕ)) (stat : ObjectStat)
      (categories : List Category) (now : ℕ) (w : World S) where
    abbrev pinned : Bool × S
    pinned =
        storage.set_object_content_type s.storage_bucket s.object_key s.expected_mime_type w.store

    abbrev reservation : Result (Unit {0}) × Db
    reservation = reserve_storage_for_object conf s.owner_user_id s.tenant_id stat.size now w.db

    finalize-over_quota :
        (e : Error)
        → pinned.0 ≡ true
        → reservation.0 ≡ err e
        → finalize storage conf ext s sha256 stat categories now w
          ≡ reject_upload storage conf ext s
              (reason_of e.detail)
              stat
              now
              reservation.1
              (record w { store = pinned.1 })
    unfolding finalize
    finalize-over_quota e done over = ground arith

    finalize-IsHarmless :
        (k : ℕ)
        → find_upload k w.db ≡ some s
        → s.id ≡ k
        → is_ok (finalize storage conf ext s sha256 stat categories now w).0 ≡ false
        → IsHarmless k now w.db (finalize storage conf ext s sha256 stat categories now w).1.db
    unfolding finalize
    finalize-IsHarmless k found same_id h = elim (Bool-cases pinned.0) [
      | inr raised ↦ rw raised (λ o t. (refl, refl), inl refl)
      | inl done ↦ elim (Result-cases reservation.0) [
        | inl (t, reserved) ↦ absurd (ground arith)
        | inr (e, over) ↦
            subst (λ (p : Result MediaObject × World S). IsHarmless k now w.db p.1.db)
              (sym (finalize-over_quota e done over))
              (reject_upload-IsHarmless k s (reason_of e.detail) stat now w.db reservation.1
                (record w { store = pinned.1 }) found same_id
                (ap (λ (d : Db). d.objects)
                  (reserve-with_usages conf s.owner_user_id s.tenant_id stat.size now w.db))
                (λ o t.
                  ground (
                    arith,
                    reserve-totals s.owner_user_id s.tenant_id stat.size now w.db conf o t,
                  )))
      ]
    ]

module _ {S : Type 0} (storage : ObjectStorage S) (conf : Settings) (ext : Externals)
    (u : UserModel) (session_id : ℕ) (req : UploadCompleteRequest) (now : ℕ) (w : World S) where
  concluded-IsHarmless :
      (r : Reaches storage conf ext u session_id req now w) (v : Verdict)
      → is_ok (concluded storage conf ext r.session req.sha256 r.stat r.categories now v w).0
        ≡ false
      → IsHarmless session_id now w.db
          (concluded storage conf ext r.session req.sha256 r.stat r.categories now v w).1.db
  concluded-IsHarmless r accepted h =
      let owned = load_owned_session-ok u session_id w.db r.session r.loaded in
      finalize-IsHarmless storage conf ext r.session req.sha256 r.stat r.categories now w session_id
        owned.0 owned.2 h
  concluded-IsHarmless r (refused reason) h =
      let owned = load_owned_session-ok u session_id w.db r.session r.loaded in
      reject_upload-IsHarmless storage conf ext session_id r.session reason r.stat now w.db w.db w
        owned.0 owned.2 refl (λ o t. (refl, refl))
  concluded-IsHarmless r (failed e) h = (λ o t. (refl, refl), inl refl)

  pub complete_upload-IsHarmless :
      is_ok (complete_upload storage conf ext u session_id req now w).0 ≡ false
      → IsHarmless session_id now w.db
          (complete_upload storage conf ext u session_id req now w).1.db
  complete_upload-IsHarmless h =
      elim (complete_upload-cases storage conf ext u session_id req now w) [
        | inl r ↦
            subst (λ (p : Result MediaObject × World S). IsHarmless session_id now w.db p.1.db)
              (sym r.concludes)
              (concluded-IsHarmless r (inspect storage conf ext r.session req.sha256 r.stat w.store)
                (subst (λ (p : Result MediaObject × World S). is_ok p.0 ≡ false) r.concludes h))
        | inr (objects, usages, raised, uploads) ↦ (λ o t. ground arith, inl objects)
      ]

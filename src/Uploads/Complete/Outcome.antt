-- ===== src/Uploads/Complete/Outcome.antt =====
-- The completions of media_service/controllers/uploads.py that return, and the cases in which
-- one stops early.
use media_service_m.Uploads.Complete.Checks.{
  Reaches, complete_upload-Reaches, finalize-ok, head_bytes, inspect-accepted,
  status_of-save_upload,
}
use media_service_m.Prelude.{
  ℕ, ◌+◌, ◌≤◌, true, ◌||◌, Option, some, [], ◌∷◌, ◌++◌, ◌==◌, ◌≡◌, refl, inl, inr, arith,
  if◌then◌else◌, Option-cases,
}
use media_service_m.Effect.{Result, ok}
use media_service_m.Model.Enums.{MediaObjectStatus, UploadSessionStatus}
use media_service_m.Model.Rows.{MediaObject, UploadSession, Db, UserModel, upload_is}
use media_service_m.Model.Store.{ObjectStorage, ObjectStat, Externals, Settings, World}
use media_service_m.Validation.{mime_consistent, sniff_mime}
use media_service_m.Quota.{reserve_storage_for_object, bytes_of}
use media_service_m.Quota.Checks.{
  same_scope, HasRoom, reserve-HasRoom, reserve-totals, reserve-with_usages,
}
use mathlib.Core.Path.{subst, sym}
use media_service_m.Model.Table.{find_row-passes}
use media_service_m.Uploads.{find_upload, status_of_upload, load_owned_session}
use media_service_m.Uploads.Complete.{
  UploadCompleteRequest, object_of, size_ceiling, inspect, reject_upload, finalize, complete_upload,
  concluded, Verdict, accepted, refused, failed,
}

-- What a completion of `session_id` that returned `o` stands for, between two worlds.
pub record IsCompletion {S : Type 0} (storage : ObjectStorage S) (conf : Settings) (ext : Externals)
    (u : UserModel) (session_id : ℕ) (now : ℕ) (w : World S) (o : MediaObject) (after : Db)
    : Type 0 where
  pub session : UploadSession
  pub stat : ObjectStat
  -- the session was open and the caller's
  pub found : find_upload session_id w.db ≡ some session
  pub allowed : (u.is_superuser || session.owner_user_id == u.id) ≡ true
  pub initiated : session.status ≡ UploadSessionStatus.initiated
  pub in_time : now ≤ session.expires_at
  -- the stored bytes are within the declared size and the cap, and are what was declared
  pub stored : storage.stat_object w.store session.storage_bucket session.object_key ≡ some stat
  pub fits : stat.size ≤ size_ceiling storage conf ext session
  pub consistent :
      mime_consistent session.expected_mime_type
        (sniff_mime ext (head_bytes storage conf ext session w.store))
      ≡ true
  -- the scope had room for the actual size
  pub room : HasRoom session.owner_user_id session.tenant_id stat.size now w.db conf
  -- the object is the session's, of the actual size, and waits for its scan
  pub promoted_to : o ≡ object_of session MediaObjectStatus.uploaded stat o.sha256 now
  pub added : after.objects ≡ w.db.objects ++ o ∷ []
  pub closed : status_of_upload session_id after ≡ some UploadSessionStatus.completed
  -- the actual size is credited to the owner's scope and to no other
  pub credited :
      (owner : ℕ) (tenant : Option ℕ)
      → bytes_of owner tenant after ≡ (
          if same_scope session.owner_user_id session.tenant_id owner tenant
          then bytes_of owner tenant w.db + stat.size
          else bytes_of owner tenant w.db)

pub load_owned_session-ok :
    (u : UserModel) (k : ℕ) (d : Db) (s : UploadSession)
    → load_owned_session u k d ≡ ok s
    → (find_upload k d ≡ some s) × ((u.is_superuser || s.owner_user_id == u.id) ≡ true) × (s.id ≡ k)
unfolding load_owned_session
load_owned_session-ok u k d s h = elim (Option-cases (find_upload k d)) [
  | inl missing ↦ absurd (ground arith)
  | inr (r, e) ↦ ground (arith, find_row-passes (upload_is k) d.uploads r e)
]

module _ {S : Type 0} (storage : ObjectStorage S) (conf : Settings) (ext : Externals)
    (u : UserModel) (session_id : ℕ) (req : UploadCompleteRequest) (now : ℕ) (w : World S)
    (o : MediaObject) where
  accepted-IsCompletion :
      (r : Reaches storage conf ext u session_id req now w)
      → inspect storage conf ext r.session req.sha256 r.stat w.store ≡ accepted
      → (finalize storage conf ext r.session req.sha256 r.stat r.categories now w).0 ≡ ok o
      → IsCompletion storage conf ext u session_id now w o
          (finalize storage conf ext r.session req.sha256 r.stat r.categories now w).1.db
  accepted-IsCompletion r e h =
      let s = r.session in
      let checks = inspect-accepted storage conf ext s req.sha256 r.stat w.store e in
      let (object, reserved, rows) =
        finalize-ok storage conf ext s req.sha256 r.stat r.categories now w o h in
      let (found, allowed, same_id) = load_owned_session-ok u session_id w.db s r.loaded in
      let others = reserve-with_usages conf s.owner_user_id s.tenant_id r.stat.size now w.db in
      subst (IsCompletion storage conf ext u session_id now w o) (sym rows) (record {
        session = s;
        stat = r.stat;
        found = found;
        allowed = allowed;
        initiated = r.initiated;
        in_time = r.in_time;
        stored = r.stored;
        fits = checks.0;
        consistent = checks.1;
        room = (reserve-HasRoom s.owner_user_id s.tenant_id r.stat.size now w.db conf).0 reserved;
        promoted_to = ground arith;
        added = ground arith;
        closed =
            status_of-save_upload session_id
              (record s { status = UploadSessionStatus.completed; completed_at = some now })
              (reserve_storage_for_object conf s.owner_user_id s.tenant_id r.stat.size now w.db).1
              same_id;
        credited = λ owner tenant. ground (
          arith,
          reserve-totals s.owner_user_id s.tenant_id r.stat.size now w.db conf owner tenant,
        );
      })

  concluded-IsCompletion :
      (r : Reaches storage conf ext u session_id req now w) (v : Verdict)
      → inspect storage conf ext r.session req.sha256 r.stat w.store ≡ v
      → (concluded storage conf ext r.session req.sha256 r.stat r.categories now v w).0 ≡ ok o
      → IsCompletion storage conf ext u session_id now w o
          (concluded storage conf ext r.session req.sha256 r.stat r.categories now v w).1.db
  unfolding reject_upload
  concluded-IsCompletion r accepted e h = accepted-IsCompletion r e h
  concluded-IsCompletion r (refused reason) e h = absurd (ground arith)
  concluded-IsCompletion r (failed x) e h = absurd (ground arith)

  -- A completion that returns an object has checked all that `IsCompletion` lists, and left the rows
  -- so.
  pub complete_upload-IsCompletion :
      (complete_upload storage conf ext u session_id req now w).0 ≡ ok o
      → IsCompletion storage conf ext u session_id now w o
          (complete_upload storage conf ext u session_id req now w).1.db
  complete_upload-IsCompletion h =
      let r = complete_upload-Reaches storage conf ext u session_id req now w (ground arith) in
      let v = inspect storage conf ext r.session req.sha256 r.stat w.store in
      subst
        (λ (p : Result MediaObject × World S).
          IsCompletion storage conf ext u session_id now w o p.1.db)
        (sym r.concludes)
        (concluded-IsCompletion r v refl
          (subst (λ (p : Result MediaObject × World S). p.0 ≡ ok o) r.concludes h))

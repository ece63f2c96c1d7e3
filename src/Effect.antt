-- ===== src/Effect.antt =====
-- What a controller method returns: a value, or the exception that it raised. A method runs against
-- a world and hands the world back beside either, since what it committed or stored before a raise
-- stays (the `HTTPException`s of media_service/controllers/*.py).
use media_service_m.Prelude.{
  ℕ, Bool, true, false, Option, none, some, ◌≡◌, refl, ◌⊎◌, inl, inr, Text,
}
use media_service_m.Model.Enums.{ScanStatus}

-- `UploadRejectReason` of media_service/schemas/uploads.py.
pub data RejectReason : Type 0 where
  size_exceeded mime_mismatch sha256_mismatch quota_bytes_exceeded quota_objects_exceeded :
      RejectReason

-- The refusals of a whole document by an import, of media_service/controllers/transfer_import.py.
pub data ImportRefusal : Type 0 where
  no_usable_slug empty_path path_too_deep too_many_paths too_many_files too_many_bytes :
      ImportRefusal

-- The `detail` of an `HTTPException`, one constructor for each text of the source.
pub data Detail : Type 0 where
  session_not_found not_enough_permissions session_already_settled session_expired : Detail
  unsupported_content_type object_not_in_storage sha256_read_failed content_type_failed : Detail
  completed_cannot_abort byte_quota_exceeded object_quota_exceeded : Detail
  media_not_found scan_not_clean relocate_failed invalid_cursor : Detail
  share_not_found share_revoked share_expired share_exhausted expires_in_too_long : Detail
  category_not_found parent_not_found parent_other_tenant would_be_cycle : Detail
  tree_too_deep sibling_slug_taken has_children : Detail
  preset_not_found preset_exists too_many_outputs too_much_area invalid_spec : Detail
  variant_not_found variant_job_not_found not_ready not_processable unknown_preset : Detail
  rate_limited limiter_unavailable presign_failed commit_failed integrity_error : Detail
  key_error value_error type_error : Detail
  rejected : RejectReason → Detail
  import_refused : ImportRefusal → Detail
  -- `DownloadNotAvailableDetail`, with its message
  download_not_available : ScanStatus → Text → Detail

-- `HTTPException(status_code, detail)`.
pub record Error : Type 0 where
  pub status_code : ℕ
  pub detail : Detail

pub data Result {ℓ} (A : Type ℓ) : Type ℓ where
  ok : A → Result A
  err : Error → Result A

abbrev pub Exec : Type 0 → Type 0 → Type 0
Exec W A = W → Result A × W

abbrev pub http : ℕ → Detail → Error
http code d = record { status_code = code; detail = d }

module _ {W A : Type 0} where
  abbrev pub pure : A → Exec W A
  pure a w = (ok a, w)

  abbrev pub raise : ℕ → Detail → Exec W A
  raise code d w = (err (http code d), w)

  abbrev pub lift : Result A → Exec W A
  lift r w = (r, w)

  abbrev pub gets : (W → A) → Exec W A
  gets f w = (ok (f w), w)

infixl 5 ◌>>=◌ ◌>>◌
abbrev pub ◌>>=◌ : {W A B : Type 0} → Exec W A → (A → Exec W B) → Exec W B
◌>>=◌ m f w = let (r, w') = m w in elim r [ ok a ↦ f a w' | err e ↦ (err e, w') ]

abbrev pub ◌>>◌ : {W A B : Type 0} → Exec W A → Exec W B → Exec W B
m >> k = m >>= λ _. k

abbrev pub modify : {W : Type 0} → (W → W) → Exec W (Unit {0})
modify f w = (ok tt, f w)

-- `if c: raise HTTPException(code, d)`.
abbrev pub raise_if : {W : Type 0} → Bool → ℕ → Detail → Exec W (Unit {0})
raise_if true code d = raise code d
raise_if false code d = pure tt

-- A row that must be there.
abbrev pub or_raise : {W A : Type 0} → Option A → ℕ → Detail → Exec W A
or_raise none code d = raise code d
or_raise (some a) code d = pure a

abbrev pub is_ok : {A : Type 0} → Result A → Bool
is_ok (ok _) = true
is_ok (err _) = false

-- Whether a call returned.
abbrev pub Returned : {A : Type 0} → Result A → Type 0
Returned (ok _) = Unit
Returned (err _) = ⊥

pub Result-cases :
    {A : Type 0} (r : Result A) → ((a : A) × (r ≡ ok a)) ⊎ ((e : Error) × (r ≡ err e))
Result-cases (ok a) = inl (a, refl)
Result-cases (err e) = inr (e, refl)

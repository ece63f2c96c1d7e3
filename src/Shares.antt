-- ===== src/Shares.antt =====
-- The signed share links of media_service/controllers/shares.py: the token, its creation, listing
-- and revocation by the owner, and the public resolution that consumes a use.
pub mod Tokens
pub mod Uses
pub mod Resolution
use media_service_m.Prelude.{
  ℕ, ◌+◌, Bool, true, false, not, ◌&&◌, ◌||◌, Option, none, some, List, [], ◌∷◌, ◌++◌, map, ◌==◌,
  if◌then◌else◌, filter, length, all, Text, text_eq, is_none, ltb, leb,
}
use media_service_m.Effect.{
  Exec, Result, ok, err, http, pure, raise, raise_if, or_raise, lift, gets, modify, ◌>>=◌, ◌>>◌,
  share_not_found, share_revoked, share_expired, share_exhausted, expires_in_too_long,
  scan_not_clean, not_enough_permissions, presign_failed, type_error,
}
use media_service_m.Model.Enums.{ScanStatus, scan_eq}
use media_service_m.Model.Rows.{MediaObject, ShareToken, Db, UserModel, share_is}
use media_service_m.Model.Table.{find_row, save_row}
use media_service_m.Model.Store.{ObjectStorage, Externals, Settings}
use media_service_m.Disposition.{create_download_url}
use media_service_m.Access.{find_object, load_object}
use media_service_m.Objects.Scans.{DownloadUrlResponse}

-- `token_id.hex`, `uuid.UUID(hex=…)` with none for a `ValueError`, and `_b64` of the HMAC-SHA256 of a
-- text under the service's own key.
pub record Signer : Type 0 where
  pub hex : ℕ → Text
  pub parse : Text → Option ℕ
  pub digest : Text → Text

-- The first part of a split, extended by a character.
abbrev pub cons_part : ℕ → List Text → List Text
cons_part c [] = (c ∷ []) ∷ []
cons_part c (part ∷ parts) = (c ∷ part) ∷ parts

-- `text.split(separator)`.
unfoldable pub split : ℕ → Text → List Text
split separator [] = [] ∷ []
split separator (c ∷ t) =
    let rest = split separator t in if c == separator then [] ∷ rest else cons_part c rest

abbrev pub is_ascii : ℕ → Bool
is_ascii c = ltb c 128

-- `secrets.compare_digest` of two texts: a `TypeError` where one of them is not ASCII.
abbrev pub compare_digest : Text → Text → Result Bool
compare_digest a b =
    if all is_ascii a && all is_ascii b then ok (text_eq a b) else err (http 500 type_error)

abbrev matched : ℕ → Result Bool → Result ℕ
matched token_id (ok true) = ok token_id
matched token_id (ok false) = err (http 404 share_not_found)
matched token_id (err e) = err e

module _ (signer : Signer) where
  -- `_sign`.
  unfoldable pub sign : ℕ → Text
  sign token_id = signer.hex token_id ++ b'.' ∷ signer.digest (signer.hex token_id)

  abbrev compared : Text → Option ℕ → Result ℕ
  compared signature none = err (http 404 share_not_found)
  compared signature (some token_id) =
      matched token_id (compare_digest signature (signer.digest (signer.hex token_id)))

  abbrev of_parts : List Text → Result ℕ
  of_parts (raw_id ∷ signature ∷ []) = compared signature (signer.parse raw_id)
  of_parts [] = err (http 404 share_not_found)
  of_parts (_ ∷ []) = err (http 404 share_not_found)
  of_parts (_ ∷ _ ∷ _ ∷ _) = err (http 404 share_not_found)

  -- `_verify`.
  unfoldable pub verify : Text → Result ℕ
  verify token = of_parts (split b'.' token)

abbrev pub find_share : ℕ → Db → Option ShareToken
find_share k d = find_row (share_is k) d.shares

pub record ShareTokenCreate : Type 0 where
  pub expires_in : Option ℕ
  pub max_uses : Option ℕ

-- `body.expires_in is not None and body.expires_in > max_expires`.
abbrev too_long : ℕ → Option ℕ → Bool
too_long limit none = false
too_long limit (some seconds) = ltb limit seconds

-- `body.expires_in or default`.
abbrev or_seconds : Option ℕ → ℕ → ℕ
or_seconds none default = default
or_seconds (some seconds) default = if seconds == 0 then default else seconds

abbrev pub add_share : ShareToken → Db → Db
add_share s d = record d { shares = d.shares ++ s ∷ [] }

-- The row of a new link.
abbrev pub share_of : Settings → MediaObject → ShareTokenCreate → ℕ → ℕ → ShareToken
share_of conf o body token_id now = record {
  id = token_id;
  media_object_id = o.id;
  owner_user_id = o.owner_user_id;
  tenant_id = o.tenant_id;
  expires_at = now + or_seconds body.expires_in conf.share_default_expires_seconds;
  max_uses = body.max_uses;
  uses = 0;
  revoked = false;
  created_at = now;
}

-- `SharesController.create`.
unfoldable pub create : Settings → UserModel → ℕ → ShareTokenCreate → ℕ → ℕ → Exec Db ShareToken
create conf u object_id body token_id now = do
  d ← gets (λ (d : Db). d)
  o ← lift (load_object u object_id false d)
  raise_if (too_long conf.share_max_expires_seconds body.expires_in) 422 expires_in_too_long
  let share = share_of conf o body token_id now
  modify (add_share share)
  pure share

-- `ORDER BY created_at`.
abbrev insert_by_created : ShareToken → List ShareToken → List ShareToken
insert_by_created s [] = s ∷ []
insert_by_created s (x ∷ rest) =
    let deeper = insert_by_created s rest in
    if leb s.created_at x.created_at then s ∷ x ∷ rest else x ∷ deeper

abbrev sort_by_created : List ShareToken → List ShareToken
sort_by_created [] = []
sort_by_created (s ∷ rest) = insert_by_created s (sort_by_created rest)

abbrev of_object : ℕ → ShareToken → Bool
of_object k s = s.media_object_id == k

-- `SharesController.list_for_object`.
unfoldable pub list_for_object : UserModel → ℕ → Exec Db (List ShareToken)
list_for_object u object_id = do
  d ← gets (λ (d : Db). d)
  o ← lift (load_object u object_id false d)
  pure (sort_by_created (filter (of_object object_id) d.shares))

abbrev owned_share : UserModel → Option ShareToken → Result ShareToken
owned_share u none = err (http 404 share_not_found)
owned_share u (some s) =
    if not u.is_superuser && not (s.owner_user_id == u.id)
    then err (http 403 not_enough_permissions)
    else ok s

-- `_load_owned_share`.
unfoldable pub load_owned_share : UserModel → ℕ → Db → Result ShareToken
load_owned_share u token_id d = owned_share u (find_share token_id d)

abbrev pub save_share : ShareToken → Db → Db
save_share s d = record d { shares = save_row (share_is s.id) s d.shares }

abbrev revoked_share : ShareToken → Db → Db
revoked_share s d = if s.revoked then d else save_share (record s { revoked = true }) d

-- `SharesController.revoke`.
unfoldable pub revoke : UserModel → ℕ → Exec Db (Unit {0})
revoke u token_id = do
  d ← gets (λ (d : Db). d)
  s ← lift (load_owned_share u token_id d)
  modify (revoked_share s)

-- `max_uses is None or uses < max_uses`.
abbrev pub has_use_left : ShareToken → Bool
has_use_left s = elim s.max_uses [ none ↦ true | some limit ↦ ltb s.uses limit ]

abbrev active : ℕ → Option ShareToken → Result ShareToken
active now none = err (http 404 share_not_found)
active now (some s) =
    if s.revoked
    then err (http 403 share_revoked)
    else if leb s.expires_at now
    then err (http 403 share_expired)
    else if not (has_use_left s)
    then err (http 403 share_exhausted)
    else ok s

abbrev active_of : ℕ → Db → Result ℕ → Result ShareToken
active_of now d (err e) = err e
active_of now d (ok token_id) = active now (find_share token_id d)

-- `_load_active_share`.
unfoldable pub load_active_share : Signer → Text → ℕ → Db → Result ShareToken
load_active_share signer token now d = active_of now d (verify signer token)

-- The `WHERE` of `_consume_use`.
abbrev pub is_consumable : ℕ → ℕ → ShareToken → Bool
is_consumable k now s = share_is k s && (not s.revoked && (ltb now s.expires_at && has_use_left s))

abbrev one_more_use : ShareToken → ShareToken
one_more_use s = record s { uses = s.uses + 1 }

abbrev pub consumed : ℕ → ℕ → List ShareToken → List ShareToken
consumed k now [] = []
consumed k now (s ∷ rows) =
    let rest = consumed k now rows in
    if is_consumable k now s then one_more_use s ∷ rest else s ∷ rest

-- `_consume_use`: one `UPDATE`, and whether it matched exactly one row.
unfoldable pub consume_use : ℕ → ℕ → Db → Bool × Db
consume_use token_id now d = (
  length (filter (is_consumable token_id now) d.shares) == 1,
  record d { shares = consumed token_id now d.shares },
)

abbrev consume : ℕ → ℕ → Exec Db Bool
consume token_id now d = let (won, d') = consume_use token_id now d in (ok won, d')

-- `obj is None or obj.deleted_at is not None`.
abbrev live_object : Option MediaObject → Result MediaObject
live_object none = err (http 404 share_not_found)
live_object (some o) = if not (is_none o.deleted_at) then err (http 404 share_not_found) else ok o

-- `SharesController.resolve`; the use is committed before the URL is signed.
unfoldable pub resolve :
    {S : Type 0}
    → ObjectStorage S
    → Settings
    → Externals
    → Signer
    → Text
    → ℕ
    → Exec Db DownloadUrlResponse
resolve storage conf ext signer token now = do
  d ← gets (λ (d : Db). d)
  s ← lift (load_active_share signer token now d)
  o ← lift (live_object (find_object s.media_object_id d))
  raise_if (not (scan_eq o.scan_status ScanStatus.clean)) 409 scan_not_clean
  won ← consume s.id now
  raise_if (not won) 403 share_exhausted
  url ←
      or_raise
        (create_download_url storage ext o.storage_bucket o.object_key
          conf.presigned_url_expire_seconds o.original_filename)
        500 presign_failed
  pure (record { url = url; expires_at = now + conf.presigned_url_expire_seconds })

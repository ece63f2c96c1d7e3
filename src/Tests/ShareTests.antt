-- ===== src/Tests/ShareTests.antt =====
-- The share theorems on a link with a bound of two, one of them used.
use media_service_m.Prelude.{
  ℕ, zero, suc, ap, ◌==◌, ◌+◌, ◌≤◌, false, ◌≡◌, ◌⊎◌, refl, some, Option, [], ◌∷◌, ◌++◌, all, true,
  All, codes, arith, Text, text_eq, length,
}
use media_service_m.Effect.{ok, err, http, type_error, Error}
use media_service_m.Model.Rows.{Db}
use media_service_m.Disposition.{create_download_url}
use media_service_m.Objects.Scans.{DownloadUrlResponse}
use media_service_m.Shares.{
  Signer, is_ascii, split, sign, verify, ShareTokenCreate, load_active_share, consume_use, resolve,
}
use media_service_m.Shares.Tokens.{IsSigner, IsSigned, IsRefused, verify-sign, verify-IsSigned}
use media_service_m.Shares.Uses.{uses_of, start, next, consume_own, history-limit}
use media_service_m.Shares.Resolution.{IsResolved, resolve-IsResolved}
use media_service_m.Tests.Data.{conf, ext, rows, link}
use media_service_m.Tests.Storage.{blobs_storage}

-- Ids in unary and a digest of one letter.
abbrev unary : ℕ → Text
unary zero = []
unary (suc n) = b'1' ∷ unary n

abbrev parse : Text → Option ℕ
parse t = some (length t)

abbrev digest : Text → Text
digest t = b'd' ∷ unary (length t)

abbrev signer : Signer
signer = record { hex = unary; parse = parse; digest = digest }

length-unary : (k : ℕ) → length (unary k) ≡ k
length-unary zero = refl
length-unary (suc k) = omega (arith, length-unary k)

unary-no_dot : (k : ℕ) → All (λ (c : ℕ). (c == b'.') ≡ false) (unary k)
unary-no_dot zero = tt
unary-no_dot (suc k) = (refl, unary-no_dot k)

unary-is_ascii : (k : ℕ) → all is_ascii (unary k) ≡ true
unary-is_ascii zero = refl
unary-is_ascii (suc k) = unary-is_ascii k

signer-IsSigner : IsSigner signer
signer-IsSigner = record {
  parse-hex = λ k. ap some (length-unary k);
  hex_no_dot = unary-no_dot;
  digest_no_dot = λ t. (refl, unary-no_dot (length t));
  digest_ascii = λ t. unary-is_ascii (length t);
}

verify-sign_example : verify signer (sign signer 5) ≡ ok 5
verify-sign_example = verify-sign signer 5 signer-IsSigner

-- A signature with an e acute.
abbrev foreign : Text
foreign = codes "11." ++ 233 ∷ []

verify-foreign : verify signer foreign ≡ err (http 500 type_error)
unfolding verify split text_eq
verify-foreign = refl

verify-IsSigned_example :
    ((k : ℕ) × (verify signer foreign ≡ ok k) × IsSigned signer foreign k)
    ⊎ ((e : Error) × (verify signer foreign ≡ err e) × IsRefused signer foreign e)
verify-IsSigned_example = verify-IsSigned signer foreign signer-IsSigner

abbrev after_one : Db
after_one = (consume_use 5 20 rows).1

-- The loser of a race for the last use.
abbrev after_two : Db
after_two = (consume_use 5 21 after_one).1

history-limit_example : uses_of 5 rows.shares + 1 ≤ 2
unfolding consume_use
history-limit_example =
    history-limit 5 rows after_two 1 (record link { uses = 2 }) 2
      (next (next start (consume_own 20)) (consume_own 21)) (ground arith) refl refl

abbrev short : ShareTokenCreate
short = record { expires_in = some 60; max_uses = some 1 }

abbrev served : DownloadUrlResponse
served = record { url = codes "k7"; expires_at = 620 }

resolve-IsResolved_example :
    IsResolved blobs_storage conf ext signer
      (sign signer 5)
      20
      rows
      (resolve blobs_storage conf ext signer (sign signer 5) 20 rows).1
      served
unfolding resolve load_active_share verify sign split text_eq consume_use create_download_url
resolve-IsResolved_example =
    resolve-IsResolved blobs_storage conf ext signer (sign signer 5) 20 rows served refl

-- ===== src/Uploads/Complete/Credit.antt =====
-- `complete_upload` in the ledger of Quota/Accounting.
use media_service_m.Prelude.{ℕ, inl, inr, arith}
use media_service_m.Effect.{Result-cases}
use media_service_m.Model.Rows.{MediaObject, UserModel, Db}
use media_service_m.Model.Store.{ObjectStorage, Externals, Settings, World}
use media_service_m.Quota.Accounting.{IsAccounted, same-IsAccounted, added-IsAccounted}
use media_service_m.Uploads.Complete.{UploadCompleteRequest, complete_upload}
use media_service_m.Uploads.Complete.Outcome.{IsCompletion, complete_upload-IsCompletion}
use media_service_m.Uploads.Complete.Refusal.{IsHarmless, complete_upload-IsHarmless}

module _ {S : Type 0} (storage : ObjectStorage S) (conf : Settings) (ext : Externals) where
  completion-IsAccounted :
      (u : UserModel) (k now : ℕ) (w : World S) (o : MediaObject) (after : Db)
      → IsCompletion storage conf ext u k now w o after
      → IsAccounted w.db
      → IsAccounted after
  completion-IsAccounted u k now w o after c =
      added-IsAccounted w.db after o c.added
        (λ owner tenant. ground (arith, c.credited owner tenant, c.promoted_to))

  harmless-IsAccounted :
      (k now : ℕ) (before after : Db)
      → IsHarmless k now before after
      → IsAccounted before
      → IsAccounted after
  harmless-IsAccounted k now before after (totals, inl same) =
      same-IsAccounted before after same (λ owner tenant. (totals owner tenant).0)
  harmless-IsAccounted k now before after (totals, inr r) =
      added-IsAccounted before after _ r.kept (λ owner tenant. ground (arith, totals owner tenant))

  pub complete_upload-IsAccounted :
      (u : UserModel) (k : ℕ) (req : UploadCompleteRequest) (now : ℕ) (w : World S)
      → IsAccounted w.db
      → IsAccounted (complete_upload storage conf ext u k req now w).1.db
  complete_upload-IsAccounted u k req now w h =
      elim (Result-cases (complete_upload storage conf ext u k req now w).0) [
        | inl (o, returned) ↦
            completion-IsAccounted u k now w o _
              (complete_upload-IsCompletion storage conf ext u k req now w o returned) h
        | inr (e, raised) ↦
            harmless-IsAccounted k now w.db _
              (complete_upload-IsHarmless storage conf ext u k req now w (ground arith)) h
      ]

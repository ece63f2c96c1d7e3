-- ===== src/Import/Report.antt =====
-- What the report of an import says: the rows and the counters of `_import_manifest` and
-- `_import_open_archive` of media_service/controllers/transfer_import.py.
pub mod Created
pub mod Archive
pub mod Rows
pub mod Aborts
use media_service_m.Prelude.{
  ℕ, suc, ◌+◌, Bool, true, false, Option, none, some, List, [], ◌∷◌, ◌++◌, map, length, Text, ◌≡◌,
  refl, sym, ap, ◌∙◌, inl, inr, arith, Bool-cases, Option-cases, All,
}
use media_service_m.Effect.{Result, ok, err, Error, Result-cases}
use media_service_m.Model.Enums.{MediaObjectStatus, ScanStatus}
use media_service_m.Model.Rows.{MediaObject, Category, Db, UserModel}
use media_service_m.Model.Store.{ObjectStorage, Externals, Settings, World, commit}
use media_service_m.Import.Paths.{ImportObjectEntry, ImportManifest}
use media_service_m.Import.Tree.{RecreatedTree, recreate_tree}
use media_service_m.Import.Rows.{
  ImportRowStatus, created, linked, skipped, failed, ImportObjectResult, ZipInfo, RowOutcome,
}
use media_service_m.Import.Entries.{ImportReport, count_status, tallied}

-- Each row has one of the four statuses.
pub count_status-sum :
    (rows : List ImportObjectResult)
    → count_status created rows
        + (count_status linked rows + (count_status skipped rows + count_status failed rows))
      ≡ length rows
count_status-sum [] = refl
count_status-sum (row ∷ rows) = one row.status row rows refl (count_status-sum rows)
  where
    one :
        (s : ImportRowStatus) (row : ImportObjectResult) (rows : List ImportObjectResult)
        → row.status ≡ s
        → count_status created rows
            + (count_status linked rows + (count_status skipped rows + count_status failed rows))
          ≡ length rows
        → count_status created (row ∷ rows)
            + (count_status linked (row ∷ rows)
                + (count_status skipped (row ∷ rows) + count_status failed (row ∷ rows)))
          ≡ suc (length rows)
    one created row rows h k = rw h (omega (arith, k))
    one linked row rows h k = rw h (omega (arith, k))
    one skipped row rows h k = rw h (omega (arith, k))
    one failed row rows h k = rw h (omega (arith, k))

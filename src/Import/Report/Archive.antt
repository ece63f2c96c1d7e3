-- ===== src/Import/Report/Archive.antt =====
-- The report of a whole archive import: `_import_open_archive` of
-- media_service/controllers/transfer_import.py.
use media_service_m.Import.Report.Rows.{
  Reports, archive_rows-Reports, keys, length-keys, length-sources, sources,
}
use mathlib.Core.Path.{subst}
use media_service_m.Prelude.{ℕ, ◌+◌, List, [], length, ◌≡◌, sym, ap, ◌∙◌, arith, All}
use media_service_m.Effect.{Result, ok, err}
use media_service_m.Model.Rows.{MediaObject, Db, UserModel}
use media_service_m.Model.Store.{ObjectStorage, Externals, Settings, World, commit}
use media_service_m.Import.Paths.{ImportManifest}
use media_service_m.Import.Tree.{RecreatedTree, recreate_tree}
use media_service_m.Import.Rows.{ImportObjectResult, ZipInfo}
use media_service_m.Import.Run.{
  archive_rows, archive_report, archive_under, archive_within, import_open_archive,
}
use media_service_m.Import.Entries.{
  ImportOutcome, tallied, EntryMap, file_entries, assert_archive_within_ceilings,
}
use media_service_m.Import.Report.{count_status-sum}
use media_service_m.Import.Report.Created.{IsImported}

-- What the outcome of an import says of a manifest.
pub record IsReport (u : UserModel) (manifest : ImportManifest) (outcome : ImportOutcome)
    : Type 0 where
  -- a row for each entry, in their order
  pub rows : sources outcome.report.objects ≡ keys manifest.objects
  -- each counted under one status
  pub counted :
      outcome.report.created
        + (outcome.report.linked + (outcome.report.skipped + outcome.report.failed))
      ≡ length manifest.objects
  -- an object to scan for each row that says `created`
  pub to_scan : length outcome.created_objects ≡ outcome.report.created
  -- each the importer's own, and waiting for its scan
  pub imported : All (IsImported u) outcome.created_objects

abbrev Described : UserModel → ImportManifest → Result ImportOutcome → Type 0
Described u manifest (err e) = Unit
Described u manifest (ok outcome) = IsReport u manifest outcome

tallied-IsReport :
    (u : UserModel) (manifest : ImportManifest) (tree : RecreatedTree)
    (rows : List ImportObjectResult) (objects : List MediaObject)
    → Reports u manifest.objects [] [] (ok (rows, objects))
    → IsReport u manifest (record { report = tallied tree rows; created_objects = objects })
unfolding tallied
tallied-IsReport u manifest tree rows objects h = record {
  rows = h.0;
  counted =
      count_status-sum rows
      ∙ sym (length-sources rows)
      ∙ ap length h.0
      ∙ length-keys manifest.objects;
  to_scan = omega (arith, h.1);
  imported = h.2 tt;
}

described :
    (u : UserModel) (manifest : ImportManifest) (r : Result ImportOutcome) (outcome : ImportOutcome)
    → Described u manifest r
    → r ≡ ok outcome
    → IsReport u manifest outcome
described u manifest r outcome h returned = subst (Described u manifest) returned h

module _ {S : Type 0} (storage : ObjectStorage S) (conf : Settings) (ext : Externals)
    (fresh : Db → ℕ) where
  report-Described :
      (u : UserModel) (manifest : ImportManifest) (tree : RecreatedTree)
      (r : Result (List ImportObjectResult × List MediaObject)) (v : World S)
      → Reports u manifest.objects [] [] r
      → Described u manifest (archive_report storage conf ext fresh tree (r, v)).0
  report-Described u manifest tree (err e) v h = tt
  report-Described u manifest tree (ok (rows, objects)) v h =
      tallied-IsReport u manifest tree rows objects h

  under-Described :
      (u : UserModel) (manifest : ImportManifest) (files : EntryMap) (now : ℕ) (w : World S)
      (r : Result RecreatedTree) (d : Db)
      → Described u manifest
          (archive_under storage conf ext fresh u files manifest.objects now w (r, d)).0
  under-Described u manifest files now w (err e) d = tt
  under-Described u manifest files now w (ok tree) d =
      let call =
        archive_rows storage conf ext fresh u tree files manifest.objects now [] [] (commit d w) in
      report-Described u manifest tree call.0 call.1 (
        archive_rows-Reports storage conf ext fresh u tree files manifest.objects now [] []
          (commit d w))

  within-Described :
      (u : UserModel) (manifest : ImportManifest) (files : EntryMap) (now : ℕ)
      (r : Result (Unit {0})) (w : World S)
      → Described u manifest (archive_within storage conf ext fresh u manifest files now r w).0
  within-Described u manifest files now (err e) w = tt
  within-Described u manifest files now (ok _) w =
      let made = recreate_tree fresh conf ext u manifest w.db in
      under-Described u manifest files now w made.0 made.1

  -- An archive import that returns has a row for each entry of its manifest, in order, and counts
  -- each row once; it hands over for a scan as many objects as it calls created, and every one is
  -- the importer's own, uploaded and pending, whatever the archive claimed of it.
  pub import_open_archive-IsReport :
      (u : UserModel) (manifest : ImportManifest) (infos : List ZipInfo) (now : ℕ) (w : World S)
      (outcome : ImportOutcome)
      → (import_open_archive storage conf ext fresh u manifest infos now w).0 ≡ ok outcome
      → IsReport u manifest outcome
  unfolding import_open_archive
  import_open_archive-IsReport u manifest infos now w outcome returned =
      let files = file_entries ext infos [] in
      described u manifest (import_open_archive storage conf ext fresh u manifest infos now w).0
        outcome
        (within-Described u manifest files now (assert_archive_within_ceilings conf manifest files)
          w)
        returned

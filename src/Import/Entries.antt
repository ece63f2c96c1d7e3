-- ===== src/Import/Entries.antt =====
-- What an import reads and reports: `_file_entries`, `_assert_archive_within_ceilings` and `_tallied`
-- of media_service/controllers/transfer_import.py.
use media_service_m.Prelude.{
  ℕ, Bool, true, false, Option, none, some, List, [], ◌∷◌, filter, length, ◌==◌, ltb, if◌then◌else◌,
  Text, codes, text_eq, sum_by,
}
use media_service_m.Effect.{Result, ok, too_many_files, too_many_bytes}
use media_service_m.Model.Rows.{MediaObject, Category}
use media_service_m.Model.Table.{save_row}
use media_service_m.Model.Store.{Externals, Settings}
use media_service_m.Shares.{split}
use media_service_m.Import.Paths.{
  refusal, ImportObjectEntry, ImportManifest, then_ok, path_chain, chain_key,
}
use media_service_m.Import.Tree.{RecreatedTree, categories_for}
use media_service_m.Import.Rows.{ImportRowStatus, ImportObjectResult, ZipInfo}

pub record ImportReport : Type 0 where
  pub categories_created : ℕ
  pub categories_reused : ℕ
  pub objects : List ImportObjectResult
  pub created : ℕ
  pub linked : ℕ
  pub skipped : ℕ
  pub failed : ℕ

pub record ImportOutcome : Type 0 where
  pub report : ImportReport
  pub created_objects : List MediaObject

abbrev pub status_eq : ImportRowStatus → ImportRowStatus → Bool
status_eq ImportRowStatus.created ImportRowStatus.created = true
status_eq ImportRowStatus.linked ImportRowStatus.linked = true
status_eq ImportRowStatus.skipped ImportRowStatus.skipped = true
status_eq ImportRowStatus.failed ImportRowStatus.failed = true
status_eq _ _ = false

abbrev pub count_status : ImportRowStatus → List ImportObjectResult → ℕ
count_status status rows =
    length (filter (λ (r : ImportObjectResult). status_eq r.status status) rows)

-- `_tallied`, over the rows of the report.
unfoldable pub tallied : RecreatedTree → List ImportObjectResult → ImportReport
tallied tree rows = record {
  categories_created = tree.created;
  categories_reused = tree.reused;
  objects = rows;
  created = count_status ImportRowStatus.created rows;
  linked = count_status ImportRowStatus.linked rows;
  skipped = count_status ImportRowStatus.skipped rows;
  failed = count_status ImportRowStatus.failed rows;
}

-- `[_chain_key(path_chain(path)) for path in entry.category_paths]`.
unfoldable pub paths_of : Settings → Externals → List Text → Result (List Text)
unfolding path_chain chain_key
paths_of conf ext [] = ok []
paths_of conf ext (path ∷ paths) =
    then_ok (path_chain conf ext path)
      (λ chain. then_ok (paths_of conf ext paths) (λ rest. ok (chain_key chain ∷ rest)))

-- What a row is filed into: its categories and their paths.
abbrev pub filing_for :
    Settings → Externals → RecreatedTree → ImportObjectEntry → Result (List Category × List Text)
filing_for conf ext tree entry = then_ok (categories_for conf ext tree entry) (λ categories.
    then_ok (paths_of conf ext entry.category_paths) (λ paths. ok (categories, paths)))

abbrev pub EntryMap : Type 0
EntryMap = List (ℕ × ZipInfo)

abbrev pub entry_at : ℕ → EntryMap → Option ZipInfo
entry_at k [] = none
entry_at k ((key, info) ∷ rest) = if key == k then some info else entry_at k rest

abbrev has_key : ℕ → ℕ × ZipInfo → Bool
has_key k (key, info) = key == k

abbrev under_key : Option ℕ → ZipInfo → EntryMap → EntryMap
under_key none info entries = entries
under_key (some k) info entries = save_row (has_key k) (k, info) entries

abbrev by_parts : Externals → List Text → ZipInfo → EntryMap → EntryMap
by_parts ext (prefix ∷ object_id ∷ name ∷ []) info entries =
    if text_eq prefix (codes "files")
    then under_key (ext.parse_uuid object_id) info entries
    else entries
by_parts ext _ info entries = entries

abbrev with_entry : Externals → ZipInfo → EntryMap → EntryMap
with_entry ext info entries =
    if info.is_dir then entries else by_parts ext (split b'/' info.filename) info entries

-- `_file_entries`: of two entries for one object the later counts.
unfoldable pub file_entries : Externals → List ZipInfo → EntryMap → EntryMap
unfolding split
file_entries ext [] entries = entries
file_entries ext (info ∷ infos) entries = file_entries ext infos (with_entry ext info entries)

abbrev size_at : Option ZipInfo → ℕ
size_at none = 0
size_at (some info) = info.file_size

abbrev pub declared_bytes : List ImportObjectEntry → EntryMap → ℕ
declared_bytes objects entries =
    sum_by (λ (e : ImportObjectEntry). size_at (entry_at e.id entries)) objects

-- `_assert_archive_within_ceilings`.
unfoldable pub assert_archive_within_ceilings :
    Settings → ImportManifest → EntryMap → Result (Unit {0})
assert_archive_within_ceilings conf manifest entries =
    if ltb conf.import_max_objects (length entries)
    then refusal too_many_files
    else if ltb conf.import_max_total_bytes (declared_bytes manifest.objects entries)
    then refusal too_many_bytes
    else ok tt

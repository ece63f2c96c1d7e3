-- ===== src/Tests/ImportTests.antt =====
-- The import theorems on a document that files a new object under a new path.
use media_service_m.Prelude.{
  ℕ, ◌+◌, ◌++◌, ◌≡◌, refl, none, some, [], ◌∷◌, length, false, codes, text_eq, text_elem, text_lt,
}
use media_service_m.Prelude.Sorting.{sort_rows, insert_row}
use media_service_m.Effect.{Result, ok, err, http, integrity_error}
use media_service_m.Model.Enums.{MediaCategory, MediaVisibility}
use media_service_m.Model.Rows.{Db}
use media_service_m.Model.Store.{World, ObjectStorage}
use media_service_m.Validation.{mime_consistent, is_allowed_declared_mime, max_size_for_category}
use media_service_m.Keys.{
  strip, lstrip, last_segment, build_object_key, owner_prefix, safe_category, key_segment,
  safe_filename,
}
use media_service_m.Shares.{split}
use media_service_m.Filenames.{validate_filename, sanitize_filename, trimmed}
use media_service_m.Uploads.{
  UploadInitiateRequest, StagedUpload, stage_upload, load_owned_session, ensure_completable,
}
use media_service_m.Quota.{
  check_quota, reserve_storage_for_object, effective_quota_bytes, effective_quota_objects,
}
use media_service_m.Category.Scope.{
  scoped_query, categories_in_scope, unique_ids, unique_loop, keep_found, resolve_category_ids,
}
use media_service_m.Uploads.Complete.{complete_upload, inspect, finalize}
use media_service_m.Category.Crud.{sibling_with_slug}
use media_service_m.Import.Paths.{
  ImportCategoryNode, node, no_more, child, ImportObjectEntry, ImportManifest, slug_of, tree_chains,
  slug_chain, path_chain, chain_key, collect_prefixes, named_paths,
}
use media_service_m.Import.Tree.{
  path_lt, RecreatedTree, ensure_levels, ensure_category_path, recreate_each, recreate_tree,
  categories_for,
}
use media_service_m.Import.Reuse.Again.{recreate_tree-again}
use media_service_m.Import.Ledger.Manifests.{SameContent, import_manifest-SameContent}
use media_service_m.Import.Rows.{
  RowOutcome, refused_row, storage_error, ZipInfo, importable_match, upload_request, reason_for,
}
use media_service_m.Import.OneFile.{import_one_file}
use media_service_m.Import.Run.{import_manifest, import_open_archive, archive_rows}
use media_service_m.Import.Entries.{
  ImportOutcome, file_entries, assert_archive_within_ceilings, tallied, paths_of,
}
use media_service_m.Import.Report.Archive.{IsReport, import_open_archive-IsReport}
use media_service_m.Import.Report.Aborts.{archive_rows_again-raises}
use media_service_m.Tests.Data.{alice, conf, ext, rows}
use media_service_m.Tests.Storage.{Blobs, blobs_storage, world}

abbrev next_category : Db → ℕ
next_category d = 100 + length d.categories

abbrev home : ImportCategoryNode
home =
    node (codes "Home") (codes "home")
      (child (node (codes "Bills") (codes "bills") no_more) no_more)

abbrev entry : ImportObjectEntry
entry = record {
  id = 12;
  filename = some (codes "a.txt");
  category = MediaCategory.document;
  category_paths = codes "home/bills" ∷ codes "home" ∷ [];
  visibility = MediaVisibility.private;
  size_bytes = 3;
  sha256 = none;
  mime_type = codes "text/plain";
}

abbrev document : ImportManifest
document = record { category_tree = child home no_more; objects = entry ∷ [] }

abbrev tree_of : Result RecreatedTree → RecreatedTree
tree_of (ok t) = t
tree_of (err e) = record { by_path = []; created = 0; reused = 0 }

abbrev first : Result RecreatedTree × Db
first = recreate_tree next_category conf ext alice document rows

-- Two categories are created.
first-created : (tree_of first.0).created ≡ 2
unfolding recreate_tree named_paths tree_chains slug_of path_chain slug_chain split strip lstrip
    collect_prefixes chain_key text_eq recreate_each sort_rows insert_row path_lt text_lt
    ensure_category_path ensure_levels sibling_with_slug
first-created = refl

recreate_tree-again_example : recreate_tree next_category conf ext alice document first.1 ≡ (
  ok (record {
    by_path = (tree_of first.0).by_path;
    created = 0;
    reused = length (tree_of first.0).by_path;
  }),
  first.1,
)
unfolding recreate_tree named_paths tree_chains slug_of path_chain slug_chain split strip lstrip
    collect_prefixes chain_key text_eq recreate_each sort_rows insert_row path_lt text_lt
    ensure_category_path ensure_levels sibling_with_slug
recreate_tree-again_example =
    recreate_tree-again next_category conf ext alice document (tree_of first.0) rows first.1 refl
      ([], refl)

import_manifest-SameContent_example :
    ((import_manifest conf ext next_category alice document 100 world).1.store ≡ world.store)
    × SameContent world.db (import_manifest conf ext next_category alice document 100 world).1.db
import_manifest-SameContent_example =
    import_manifest-SameContent conf ext next_category alice document 100 world

abbrev member : ZipInfo
member = record {
  filename = codes "files/" ++ 12 ∷ codes "/a.txt";
  is_dir = false;
  file_size = 3;
  content = some (codes "abc");
}

abbrev archive : Result ImportOutcome × World Blobs
archive =
    import_open_archive blobs_storage conf ext next_category alice document (member ∷ []) 100 world

abbrev no_outcome : ImportOutcome
no_outcome = record {
  report = tallied (tree_of (err (http 0 integrity_error))) [];
  created_objects = [];
}

abbrev outcome_of : Result ImportOutcome → ImportOutcome
outcome_of (ok outcome) = outcome
outcome_of (err e) = no_outcome

-- The object is created.
archive-created : (outcome_of archive.0).report.created ≡ 1
unfolding import_open_archive file_entries assert_archive_within_ceilings tallied archive_rows
    categories_for paths_of import_one_file importable_match upload_request reason_for
    validate_filename sanitize_filename trimmed last_segment stage_upload check_quota
    resolve_category_ids build_object_key owner_prefix safe_category key_segment safe_filename
    recreate_tree named_paths tree_chains slug_of path_chain slug_chain split strip lstrip
    collect_prefixes chain_key text_eq recreate_each sort_rows insert_row path_lt text_lt
    ensure_category_path ensure_levels sibling_with_slug complete_upload load_owned_session
    ensure_completable categories_in_scope unique_ids unique_loop keep_found scoped_query inspect
    mime_consistent is_allowed_declared_mime text_elem max_size_for_category finalize
    reserve_storage_for_object effective_quota_bytes effective_quota_objects
archive-created = refl

import_open_archive-IsReport_example : IsReport alice document (outcome_of archive.0)
unfolding import_open_archive file_entries assert_archive_within_ceilings tallied archive_rows
    categories_for paths_of import_one_file importable_match upload_request reason_for
    validate_filename sanitize_filename trimmed last_segment stage_upload check_quota
    resolve_category_ids build_object_key owner_prefix safe_category key_segment safe_filename
    recreate_tree named_paths tree_chains slug_of path_chain slug_chain split strip lstrip
    collect_prefixes chain_key text_eq recreate_each sort_rows insert_row path_lt text_lt
    ensure_category_path ensure_levels sibling_with_slug complete_upload load_owned_session
    ensure_completable categories_in_scope unique_ids unique_loop keep_found scoped_query inspect
    mime_consistent is_allowed_declared_mime text_elem max_size_for_category finalize
    reserve_storage_for_object effective_quota_bytes effective_quota_objects
import_open_archive-IsReport_example =
    import_open_archive-IsReport blobs_storage conf ext next_category alice document (member ∷ [])
      100 world (outcome_of archive.0) refl

-- A storage in which no content type can be set, so that a completion fails.
abbrev flaky : ObjectStorage Blobs
flaky = record blobs_storage { set_object_content_type = λ bucket key mime s. (false, s) }

abbrev loose : ImportObjectEntry
loose = record entry { category_paths = [] }

abbrev attempt : Result RowOutcome × World Blobs
attempt = import_one_file flaky conf ext alice (some member) loose [] [] 100 world

abbrev request : UploadInitiateRequest
request = record {
  category = MediaCategory.document;
  visibility = MediaVisibility.private;
  original_filename = codes "a.txt";
  mime_type = codes "text/plain";
  expected_size_bytes = 3;
  category_ids = [];
}

abbrev staged : StagedUpload
staged = record {
  media_id = 12;
  owner_id = 1;
  tenant_id = none;
  bucket = 20;
  object_key = build_object_key ext 1 12 MediaCategory.document (codes "a.txt") none;
  category_ids = [];
}

-- The first attempt is reported as a failed row.
attempt-reported : attempt.0 ≡ ok (refused_row loose [] storage_error, none)
unfolding reason_for import_one_file importable_match upload_request validate_filename
    sanitize_filename trimmed last_segment strip lstrip stage_upload check_quota
    resolve_category_ids unique_ids unique_loop keep_found scoped_query categories_in_scope
    is_allowed_declared_mime text_elem text_eq max_size_for_category effective_quota_bytes
    effective_quota_objects complete_upload load_owned_session ensure_completable inspect
    mime_consistent finalize build_object_key owner_prefix safe_category key_segment safe_filename
attempt-reported = refl

archive_rows_again-raises_example :
    archive_rows flaky conf ext next_category alice
      (tree_of first.0)
      ((12, member) ∷ [])
      (loose ∷ entry ∷ [])
      900
      []
      []
      attempt.1
    ≡ (
      err (http 500 integrity_error),
      (import_one_file flaky conf ext alice (some member) loose [] [] 900 attempt.1).1,
    )
unfolding categories_for paths_of import_one_file importable_match upload_request validate_filename
    sanitize_filename trimmed last_segment strip lstrip stage_upload check_quota
    resolve_category_ids unique_ids unique_loop keep_found scoped_query categories_in_scope
    is_allowed_declared_mime text_elem text_eq max_size_for_category effective_quota_bytes
    effective_quota_objects complete_upload load_owned_session ensure_completable inspect
    mime_consistent finalize build_object_key owner_prefix safe_category key_segment safe_filename
archive_rows_again-raises_example =
    archive_rows_again-raises flaky conf ext next_category alice member loose [] [] 100 world
      request staged attempt.1
      (record {
        is_new = refl;
        allowed = refl;
        fits = refl;
        requested = refl;
        staged_as = refl;
        done = refl;
      })
      refl refl (tree_of first.0) ((12, member) ∷ []) (entry ∷ []) 900 [] [] member [] [] request
      staged refl refl
      (record {
        is_new = refl;
        allowed = refl;
        fits = refl;
        requested = refl;
        staged_as = refl;
        done = refl;
      })

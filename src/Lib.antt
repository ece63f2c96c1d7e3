-- ===== src/Lib.antt =====
-- A model of media_service, the media-object service of this repository, and theorems about its
-- operations.
--
-- The service stores bytes in an object storage and rows in a database. A client initiates an upload
-- and gets a signed form, posts the bytes to the storage, and completes the upload, which checks the
-- bytes, reserves quota and turns the session into a media object. An antivirus worker then clears
-- or bars the object. Objects are listed, read, downloaded, moved between visibilities, filed under
-- categories, shared by signed links and soft-deleted into an archive; each of these writes outbox
-- events that a delivery run posts to subscriptions.
--
-- Files, and the sources that they model (paths under media_service/):
--   Prelude, Prelude/*     lists, texts as code points, Boolean tests over native numbers
--   Effect                 HTTPException results: Exec W A is W -> Result A x W, since what was
--                          committed or stored before a raise stays
--   Model/Enums, Rows      db_models/*.py: enumerations and tables; ids and times are naturals
--   Model/Table            session.get, add, delete and DELETE WHERE over lists of rows
--   Model/Store            the storage SDK, hashing and sniffing libraries and settings as records
--                          of functions and values: parameters of every operation that uses them
--   Quota, Quota/*         core/quotas.py, AdminController.get_quota and set_quota
--   Access, Access/Reads   controllers/objects.py: _fetch_object, require_visibility_access,
--                          _load_object, _load_object_for_read, _scoped_query
--   Category/Walk          core/category_tree.py collect_branch_ids; controllers/category.py
--                          _reject_cycle and _reject_depth_overflow
--   Category/Scope         controllers/category.py scoping, resolve_category_ids,
--                          categories_in_scope, branch_category_ids
--   Category/Crud          CategoryController.create_category, update_category, delete_category
--   Validation             core/validation.py: types, digest, size caps
--   Filenames              validate_filename and sanitize_filename of core/validation.py
--   Keys                   storage/keys.py and storage/buckets.py
--   Disposition            storage/presign.py
--   Outbox                 core/outbox.py and controllers/outbox.py
--   Uploads                controllers/uploads.py and AdminController.purge_stale_uploads;
--                          Uploads/Complete has complete_upload, Uploads/Lifecycle the moves of a
--                          session's status
--   Objects                controllers/objects.py: update_object, delete_object,
--                          and in Objects/Scans apply_scan_result, download_url
--   Shares                 controllers/shares.py
--   Listing                ObjectsController.list_objects: filters, cursor, pages
--   Presets, Variants      core/presets.py, schemas/presets.py, controllers/presets.py and
--                          controllers/variants.py
--   RateLimit              core/rate_limit.py and the keys of core/media_redis.py
--   Maintenance            MaintenanceController.hard_purge_expired; Maintenance/Reconcile has
--                          reconcile_orphans
--   Import                 controllers/transfer_import.py and ensure_category_path of
--                          controllers/category.py: Import/Paths and Tree the category paths,
--                          Import/Rows and OneFile one row, Import/Entries the archive's
--                          entries and the report, Import/Run the two imports,
--                          Import/Forest the category tree over requests and imports
--   Accounting             the requests of the service as one step relation, for the ledger of
--                          Quota/Accounting
--   Tests/*                concrete rows, a list-backed storage, and each theorem at work
--
-- A handler reads the rows once, as the session of a request does, and commits the rows that it has
-- staged; a storage call answers whether it returned beside the state that it left. Interleavings of
-- requests are sequences of such transactions (QuotaHistory, UploadStep, ShareHistory, ServiceHistory,
-- CategoryHistory).
--
-- Fuel: the four walks of Category/Walk run for as many rounds as there are rows, and two more. Each
-- round but the last marks a row as seen or drops a duplicate, so that is enough, for circular rows
-- too; no theorem has a hypothesis on fuel. follow_cursors of Listing/Pages, a client, asks for one page
-- more than there are rows. The other loops run over a list.
--
-- Not modelled: routing, metrics, log lines, schema bounds on lengths, row locks beyond the atomicity
-- of a transaction, the category refs of a page, the reading of an uploaded zip or JSON document (an
-- import starts from the parsed manifest and the entries of the archive), exports, the SSRF guard and
-- the dashboard.
pub mod Prelude
pub mod Effect
pub mod Model
pub mod Quota
pub mod Access
pub mod Category
pub mod Validation
pub mod Keys
pub mod Filenames
pub mod Outbox
pub mod Uploads
pub mod Disposition
pub mod Objects
pub mod Shares
pub mod Maintenance
pub mod Listing
pub mod RateLimit
pub mod Presets
pub mod Variants
pub mod Import
pub mod Accounting
mod Tests

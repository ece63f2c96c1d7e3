-- ===== src/Import.antt =====
-- The import of a media collection: media_service/controllers/transfer_import.py and
-- `ensure_category_path` of media_service/controllers/category.py.
pub mod Paths
pub mod Tree
pub mod Rows
pub mod OneFile
pub mod Run
pub mod Entries
pub mod Growth
pub mod Reuse
pub mod Ledger
pub mod Report
pub mod Forest

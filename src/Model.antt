-- ===== src/Model.antt =====
-- The rows and tables of media_service/db_models, and what the program takes from its settings and
-- from object storage.
pub mod Enums
pub mod Rows
pub mod Table
pub mod Store

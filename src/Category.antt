-- ===== src/Category.antt =====
-- The user-defined category tree: media_service/controllers/category.py and
-- media_service/core/category_tree.py.
pub mod Scope
pub mod Walk
pub mod Crud

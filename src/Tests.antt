-- ===== src/Tests.antt =====
-- Concrete rows, a concrete storage and settings, and the theorems at work on them.
pub mod Data
pub mod Storage
mod QuotaTests
mod ListingTests
mod CategoryTests
mod KeyTests
mod FilenameTests
mod OutboxTests
mod UploadTests
mod ObjectTests
mod RateLimitTests
mod ShareTests
mod VariantTests
mod MaintenanceTests
mod ReconcileTests
mod ImportTests
mod AccountingTests

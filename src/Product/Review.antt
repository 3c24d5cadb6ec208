-- ===== src/Product/Review.antt =====
-- The review of a result by its customer (unrender/product/service.py).
pub mod Snapshot
pub mod Corrections
pub mod Validated
pub mod Exported
pub mod Latest
pub mod Stored
pub mod Reads
pub mod Edits
pub mod Conflicts
pub mod Approval
pub mod Restored

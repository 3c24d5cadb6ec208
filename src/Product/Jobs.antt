-- ===== src/Product/Jobs.antt =====
-- Extraction jobs: submission, the worker's claim and lease, provider dispatch, settlement, and
-- recovery (unrender/product/service.py).
pub mod Updates
pub mod Statements
pub mod Finish
pub mod Worker
pub mod Dispatch
pub mod Requests
pub mod Owned
pub mod Recovery
pub mod Fencing
pub mod Queue
pub mod Billing
pub mod Preserved

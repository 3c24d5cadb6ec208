-- ===== src/Product.antt =====
-- unrender/product: accounts, credits, extraction jobs and their workers over one SQLite database.
pub mod Settings
pub mod Schema
pub mod Tx
pub mod Admission
pub mod Audit
pub mod Credits
pub mod Budget
pub mod Storage
pub mod Jobs
pub mod Soundness
pub mod RateLimit
pub mod Review
pub mod Submission
pub mod Accounts
pub mod Uploads
pub mod Reachable

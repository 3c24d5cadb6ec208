-- ===== src/Product/Soundness/Operations.antt =====
-- Every operation on a job keeps the invariant.
mod WorkerSteps
mod DispatchSteps
mod RequestSteps
mod BillingSteps
mod RecoverySteps
pub use WorkerSteps.*
pub use DispatchSteps.*
pub use RequestSteps.*
pub use BillingSteps.*
pub use RecoverySteps.*

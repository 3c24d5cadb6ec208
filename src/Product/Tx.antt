-- ===== src/Product/Tx.antt =====
-- A transaction of `Database.transaction`: a computation over the database that may raise. What it
-- wrote is committed when it returns, and rolled back when it raises.
mod Monad
pub mod Ensures
pub mod Raises
pub use Monad.{
  Error, service_capacity_reached, database_quota_reached, credit_ledger_capacity_reached,
  user_not_found, credits_required, job_not_found, job_not_cancellable, job_busy,
  billing_event_invalid, billing_event_conflict, billing_event_capacity_reached,
  billing_user_missing, billing_user_invalid, history_storage_quota_reached, version_quota_reached,
  invalid_result, service_storage_capacity_reached, storage_free_space_guard,
  storage_reservation_lost, integrity_error, runtime_error, value_error, type_error, os_error,
  result_history_inconsistent, result_conflict, version_not_found, job_not_editable,
  upload_not_found, demo_sample_limit, demo_fixture_only, invalid_page, upload_quota_reached,
  upload_record_quota_reached, storage_quota_reached, job_record_quota_reached,
  idempotency_quota_reached, idempotency_key_expired, idempotency_conflict, request_in_progress,
  idempotency_state_invalid, invalid_account, email_in_use, invalid_grant, upload_rate_limited,
  demo_read_only, job_not_approvable, Result, ok, continue, err, Tx,
}
unfoldable pub use Monad.{
  ◌>>=◌, ◌>>◌, pure, raise, gets, modify, raise_if, or_raise, when, given, unless_found,
  transaction, outside_call,
}

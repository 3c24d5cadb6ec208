-- ===== src/Product/Settings.antt =====
-- The limits of `Settings` (unrender/product/config.py) that the modelled operations read.
use unrender.Base.{ℕ, ◌+◌, ◌*◌}

pub record Settings : Type 0 where
  pub worker_lease_seconds : ℕ
  pub max_recovery_attempts : ℕ
  pub max_result_versions_per_job : ℕ
  pub max_history_bytes_per_user : ℕ
  pub max_result_json_bytes : ℕ
  pub max_audit_events_per_job : ℕ
  pub max_audit_events_per_user : ℕ
  pub audit_retention_seconds : ℕ
  pub max_credit_ledger_records_per_user : ℕ
  pub max_database_rows_per_user : ℕ
  pub max_database_rows_global : ℕ
  pub mandatory_database_rows_per_user : ℕ
  pub mandatory_database_rows_global : ℕ
  pub max_billing_events_global : ℕ
  pub max_provider_attempts_per_job : ℕ
  pub max_provider_dispatches_per_day : ℕ
  pub provider_failure_limit_per_user_hour : ℕ
  pub provider_failure_limit_global_hour : ℕ
  pub credit_pack_size : ℕ
  pub rate_limit_per_minute : ℕ
  pub storage_reservation_ttl_seconds : ℕ
  pub max_storage_bytes_global : ℕ
  pub min_free_storage_bytes : ℕ
  pub database_headroom_bytes : ℕ
  pub upload_ttl_seconds : ℕ
  pub max_user_storage_bytes : ℕ
  pub max_upload_bytes : ℕ
  pub max_upload_bytes_per_minute : ℕ
  pub max_unattached_uploads : ℕ
  pub max_upload_records_per_user : ℕ
  pub max_jobs_per_user : ℕ
  pub idempotency_ttl_seconds : ℕ
  pub idempotency_tombstone_seconds : ℕ
  pub max_idempotency_records_per_user : ℕ

-- `MAX_RECEIPT_BYTES` of provenance.py
abbrev pub max_receipt_bytes : ℕ
max_receipt_bytes = 8192

abbrev pub result_version_reservation_bytes : Settings → ℕ
result_version_reservation_bytes s = s.max_result_json_bytes + max_receipt_bytes

-- Worst-case version, current, original and raw publication for one provider attempt.
abbrev pub result_publication_reservation_bytes : Settings → ℕ
result_publication_reservation_bytes s = s.max_result_json_bytes * 4 + max_receipt_bytes

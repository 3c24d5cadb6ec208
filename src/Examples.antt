-- ===== src/Examples.antt =====
-- A small service with one customer and one queued job, at which the theorems are applied.
pub mod Histories
pub mod Limits
pub mod Outcomes
pub mod Reviews
pub mod Charts
pub mod Submissions
pub mod Uploads
use unrender.Base.{
  ℕ, ◌+◌, ◌≤◌, ◌≡◌, refl, Bool, true, false, Option, none, some, String, List, [], ◌∷◌, arith,
}
use unrender.Base.Int.{pos, negsuc}
use unrender.Base.Table.{lookup, put, sum, nat_eq}
use unrender.Product.Settings.{Settings}
use unrender.Product.Schema.{
  Db, Job, User, AccountKind, Entry, LedgerKey, Attempt, AttemptKey, empty, queued, running,
  ledger_key_eq, attempt_key_eq,
}
use unrender.Product.Credits.{refundable, ledger_count, change_credits, add_delta}
use unrender.Product.Credits.Balance.{IsBalanced, credited, debited}
use unrender.Product.Tx.{transaction, ◌>>=◌}
use unrender.Product.Admission.{
  insert_row, admit_database_rows, database_row_count, user_row_count, future_terminal_rows,
  user_future_terminal_rows, future_rows,
}
use unrender.Product.Audit.{
  audit, rollup_audit_events, aggregate_audit_rows, rollup_oldest_audit_events,
}
use unrender.Product.Budget.{reserve_dispatch, reserve}
use unrender.Product.Jobs.Statements.{update_job, complete_attempt}
use unrender.Product.Jobs.Finish.{
  finish_failed_claim, claim_row, finish_failed_claim_in_transaction,
  finish_cancelled_claim_in_transaction,
}
use unrender.Product.Jobs.Worker.{claim_next_job, next_queued, heartbeat_claim}
use unrender.Product.Jobs.Dispatch.{
  begin_provider_dispatch, provider_circuit_open, attempts_of, has_reservation,
}
use unrender.Product.Jobs.Requests.{cancel}
use unrender.Product.Jobs.Recovery.{
  recover_interrupted_jobs, recover_rows, requeue_row, stop_row, recover_row, same_execution,
}
use unrender.Product.Jobs.Updates.{
  WorkerClaim, holds_claim, claimed, renewed, recovered, finished_failed, finished_cancelled,
  dispatched,
}
use unrender.Product.Soundness.Invariant.{IsConsistent, IsCoherent, HasHeadroom}
use unrender.Product.Soundness.Settled.{IsSound}
use unrender.Product.Soundness.Reach.{Operation, run, run-IsSound}
use unrender.Product.Soundness.Reach.Held.{run-held}

abbrev pub small : Settings
small = record {
  worker_lease_seconds = 60;
  max_recovery_attempts = 1;
  max_result_versions_per_job = 5;
  max_history_bytes_per_user = 100000;
  max_result_json_bytes = 1000;
  max_audit_events_per_job = 10;
  max_audit_events_per_user = 20;
  audit_retention_seconds = 1000;
  max_credit_ledger_records_per_user = 20;
  max_database_rows_per_user = 200;
  max_database_rows_global = 1000;
  mandatory_database_rows_per_user = 10;
  mandatory_database_rows_global = 20;
  max_billing_events_global = 10;
  max_provider_attempts_per_job = 3;
  max_provider_dispatches_per_day = 2;
  provider_failure_limit_per_user_hour = 3;
  provider_failure_limit_global_hour = 5;
  credit_pack_size = 10;
  rate_limit_per_minute = 3;
  storage_reservation_ttl_seconds = 60;
  max_storage_bytes_global = 1000000;
  min_free_storage_bytes = 100;
  database_headroom_bytes = 100;
  upload_ttl_seconds = 100;
  max_user_storage_bytes = 100000;
  max_upload_bytes = 500;
  max_upload_bytes_per_minute = 1000;
  max_unattached_uploads = 3;
  max_upload_records_per_user = 10;
  max_jobs_per_user = 5;
  idempotency_ttl_seconds = 1000;
  idempotency_tombstone_seconds = 10000;
  max_idempotency_records_per_user = 10;
}

abbrev pub waiting : Job
waiting = record {
  user_id = 1;
  upload_id = none;
  source_path = 70;
  source_sha256 = "a";
  source_byte_size = 10;
  status = queued;
  attempt = 1;
  recovery_count = 0;
  cancel_requested = false;
  reservation_active = true;
  provider_dispatched = false;
  provider_dispatched_at = none;
  worker_owner = none;
  lease_token = none;
  lease_generation = 0;
  lease_expires_at = none;
  result_reservation_bytes = 9192;
  result_reservation_attempt = some 1;
  retained_byte_reservation = 12192;
  extractor = none;
  model_version = none;
  raw_result = none;
  original_result_json = none;
  current_result_json = none;
  error_code = none;
  approved_at = none;
  created_at = 5;
  updated_at = 5;
}

abbrev pub customer : User
customer = record {
  email = "a@b.c";
  account_active = true;
  account_kind = AccountKind.customer;
  credit_balance = 4;
}

abbrev pub shop : Db
shop = record empty {
  users = (1, customer) ∷ [];
  jobs = (7, waiting) ∷ [];
  ledger =
      (
        LedgerKey.welcome 1,
        record {
          user_id = 1;
          delta = pos 5;
          balance_after = 5;
          reason = "welcome";
          created_at = 1;
        },
      )
      ∷ (
        LedgerKey.reserve 7 1,
        record {
          user_id = 1;
          delta = negsuc 0;
          balance_after = 4;
          reason = "job_reserved";
          created_at = 5;
        },
      )
      ∷ [];
}

waiting-IsConsistent : IsConsistent waiting
waiting-IsConsistent = ground arith

shop-IsBalanced : IsBalanced shop
unfolding lookup credited debited sum
shop-IsBalanced = record { at = λ u x p. ground (arith, p) }

pub shop-IsSound : IsSound small shop
unfolding lookup refundable ledger_count sum
shop-IsSound = record {
  coherent = record {
    consistent = λ k j p. ground (arith, p, waiting-IsConsistent);
    keyed = (refl, tt);
    balanced = shop-IsBalanced;
    refund_of = λ k a x j p q. ground (arith, p);
    reserve_of = λ k a x j p q. ground (arith, p, q);
    call_of = λ key x j p q. ground (arith, p);
    exclusive = λ key x p. ground (arith, p);
    single = λ key other x y p q r t. ground (arith, p);
  };
  headroom = record { at = λ u. ground arith };
}

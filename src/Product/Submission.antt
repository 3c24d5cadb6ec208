-- ===== src/Product/Submission.antt =====
-- Submission of a job: `create_job` of unrender/product/service.py. The path of the copied source is
-- an argument, and so is what the copy raises.
pub mod Requests
pub mod Capacity
pub mod Submitted
pub mod Replay
pub mod Sound
pub mod Charge
pub mod Create
pub mod Failure
use unrender.Base.{
  ℕ, ◌+◌, Bool, true, false, ◌&&◌, not, Option, none, some, String, [], ◌∷◌, ltb, leb, ◌==◌,
  if◌then◌else◌,
}
use unrender.Base.Int.{negsuc}
use unrender.Base.Table.{Table, lookup, put, nat_eq}
use unrender.Product.Settings.{
  Settings, result_version_reservation_bytes, result_publication_reservation_bytes,
}
use unrender.Product.Schema.{
  Db, Job, Upload, queued, LedgerKey, Idempotency, RequestKey, request_key_eq,
}
use unrender.Product.Tx.{
  Tx, Result, ok, err, transaction, ◌>>=◌, ◌>>◌, pure, gets, modify, raise_if, or_raise, when,
  integrity_error, user_not_found, demo_fixture_only, invalid_page, outside_call,
}
use unrender.Product.Admission.{insert_unique, new_job_future_rows}
use unrender.Product.Audit.{audit}
use unrender.Product.Credits.{change_credits}
use unrender.Product.Storage.{Disk, reserve_result_capacity}
use unrender.Product.Storage.Reservations.{
  Ticket, reserve_storage_bytes, consume_storage_reservation, drop_storage_reservation,
}
use unrender.Product.Jobs.Requests.{DemoFixture, is_free_demo_fixture}
use unrender.Product.Submission.Requests.{
  Response, public_job, Encoder, request_key, is_present, with_requests, create_idempotency_record,
  idempotent_response,
}
use unrender.Product.Submission.Capacity.{assert_job_capacity, upload, is_demo}

-- The row of a new job.
unfoldable pub new_job : Settings → ℕ → ℕ → ℕ → ℕ → Upload → Bool → Job
new_job s now u upload_id source_path r costs = record {
  user_id = u;
  upload_id = some upload_id;
  source_path = source_path;
  source_sha256 = r.sha256;
  source_byte_size = r.byte_size;
  status = queued;
  attempt = 1;
  recovery_count = 0;
  cancel_requested = false;
  reservation_active = costs;
  provider_dispatched = false;
  provider_dispatched_at = none;
  worker_owner = none;
  lease_token = none;
  lease_generation = 0;
  lease_expires_at = none;
  result_reservation_bytes = result_version_reservation_bytes s;
  result_reservation_attempt = some 1;
  retained_byte_reservation = result_publication_reservation_bytes s;
  extractor = none;
  model_version = none;
  raw_result = none;
  original_result_json = none;
  current_result_json = none;
  error_code = none;
  approved_at = none;
  created_at = now;
  updated_at = now;
}

abbrev pub completed_request : ℕ → String → Idempotency → Idempotency
completed_request now text r = record r { response_json = some text; completed_at = some now }

abbrev pub add_job : ℕ → Job → Db → Db
add_job k j d = record d { jobs = put k j d.jobs }

-- What the caller gives: who asks, for what, under which request key.
pub record Submission : Type 0 where
  pub user : ℕ
  pub upload_id : ℕ
  pub page_index : ℕ
  pub stored_key : String
  pub request_sha256 : String

module _ (s : Settings) (disk : Disk) (enc : Encoder) (ident now : ℕ) where
  -- `UPDATE api_idempotency SET response_json=?,completed_at=? WHERE ...`
  unfoldable pub complete_request : RequestKey → Response → Tx Unit
  complete_request key response = modify (λ d. elim (lookup key d.idempotency) [
    | none ↦ d
    | some r ↦
        with_requests (put key (completed_request now (enc.dumps response) r) d.idempotency) d
  ])

  -- the INSERT into jobs, which violates the PRIMARY KEY if the id is taken
  unfoldable pub insert_job : ℕ → Job → Bool → Tx Unit
  insert_job k j costs =
      insert_unique s (some j.user_id) false (new_job_future_rows s + 1 + (if costs then 1 else 0))
        (λ d. is_present (lookup k d.jobs)) integrity_error (add_job k j)

  -- the part of the transaction for a key that is not known
  unfoldable pub submit_new : ℕ → ℕ → Ticket → Bool → Submission → Tx Response
  unfolding complete_request insert_job
  submit_new k source_path ticket costs q = do
    r ← upload now q.user q.upload_id
    assert_job_capacity s q.user r.byte_size
    reserve_result_capacity s disk q.user none
    create_idempotency_record s now q.user q.stored_key q.request_sha256
    outside_call disk.copy_error
    let j = new_job s now q.user q.upload_id source_path r costs
    insert_job k j costs
    when costs (do
      change_credits s now q.user (negsuc 0) "job_reserved" (LedgerKey.reserve k 1) false
      pure tt)
    audit s ident now (some q.user) (some k) "job_queued"
    complete_request (request_key q.user q.stored_key) (public_job k j)
    consume_storage_reservation now q.user ticket "job_copy" r.byte_size source_path
    pure (public_job k j)

  unfoldable pub replay_or_submit :
      ℕ → ℕ → Ticket → Bool → Submission → Option Idempotency → Tx Response
  unfolding submit_new
  replay_or_submit k source_path ticket costs q none = submit_new k source_path ticket costs q
  replay_or_submit k source_path ticket costs q (some row) = do
    drop_storage_reservation q.user ticket
    idempotent_response enc now q.request_sha256 row

  -- the transaction of `create_job`
  unfoldable pub submit : ℕ → ℕ → Ticket → Bool → Submission → Tx Response
  unfolding replay_or_submit
  submit k source_path ticket costs q = do
    existing ← gets (λ d. lookup (request_key q.user q.stored_key) d.idempotency)
    replay_or_submit k source_path ticket costs q existing

-- ===== src/Product/Jobs/Updates.antt =====
-- The SET clauses of the statements on one job, and the tests of their WHERE clauses.
use unrender.Base.{
  ℕ, ◌+◌, Bool, true, false, ◌&&◌, Option, none, some, String, ltb, ◌==◌, if◌then◌else◌,
}
use text.Mathlib.Text.{◌==◌ as str_eq}
use unrender.Product.Settings.{
  Settings, result_version_reservation_bytes, result_publication_reservation_bytes,
}
use unrender.Product.Schema.{
  Job, Status, queued, running, review, approved, failed, cancelled, is_status, is_value,
}

-- `WorkerClaim`
pub record WorkerClaim : Type 0 where
  pub job_id : ℕ
  pub user_id : ℕ
  pub attempt : ℕ
  pub generation : ℕ
  pub token : ℕ
  pub owner : ℕ
  pub row : Job

-- `lease_expires_at>now`, where NULL is not greater than anything
abbrev pub expires_after : ℕ → Option ℕ → Bool
expires_after now none = false
expires_after now (some t) = ltb now t

-- `user_id=? AND attempt=? AND status='running' AND worker_owner=? AND lease_token=? AND
-- lease_generation=? AND lease_expires_at>?`
unfoldable pub holds_claim : WorkerClaim → ℕ → Job → Bool
holds_claim c now j =
    j.user_id == c.user_id
    && j.attempt == c.attempt
    && is_status j.status running
    && is_value j.worker_owner c.owner
    && is_value j.lease_token c.token
    && j.lease_generation == c.generation
    && expires_after now j.lease_expires_at

-- `claim_next_job`
unfoldable pub claimed : Settings → ℕ → ℕ → ℕ → Job → Job
claimed s owner token now j = record j {
  status = running;
  worker_owner = some owner;
  lease_token = some token;
  lease_generation = j.lease_generation + 1;
  lease_expires_at = some (now + s.worker_lease_seconds);
  updated_at = now;
}

-- `heartbeat_claim`
unfoldable pub renewed : Settings → ℕ → Job → Job
renewed s now j = record j {
  lease_expires_at = some (now + s.worker_lease_seconds);
  updated_at = now;
}

-- `_update_claim_progress`
unfoldable pub progressed : ℕ → Job → Job
progressed now j = record j { updated_at = now }

-- `_begin_provider_dispatch`
unfoldable pub dispatched : ℕ → Job → Job
dispatched now j = record j {
  provider_dispatched = true;
  provider_dispatched_at = some now;
  updated_at = now;
}

-- `worker_owner=NULL,lease_token=NULL,lease_expires_at=NULL`
unfoldable pub without_lease : Job → Job
without_lease j = record j { worker_owner = none; lease_token = none; lease_expires_at = none }

-- `reservation_active=0,result_reservation_bytes=0,result_reservation_attempt=NULL,
-- retained_byte_reservation=0`
unfoldable pub without_reservations : Job → Job
without_reservations j = record j {
  reservation_active = false;
  result_reservation_bytes = 0;
  result_reservation_attempt = none;
  retained_byte_reservation = 0;
}

-- `_release_claim_for_shutdown`
unfoldable pub released : ℕ → Job → Job
unfolding without_lease
released now j = let q = without_lease j in record q { status = queued; updated_at = now }

-- `not row["current_result_json"]` fails: an empty text counts as none
abbrev pub nonempty : Option String → Option String
nonempty none = none
nonempty (some text) = if str_eq text "" then none else some text

-- `_preserved_result_status`
unfoldable pub preserved_result_status : Job → Option Status
preserved_result_status j = elim (nonempty j.current_result_json) [
  | none ↦ none
  | some text ↦ elim j.approved_at [ none ↦ some review | some t ↦ some approved ]
]

abbrev pub or_status : Option Status → Status → Status
or_status none b = b
or_status (some a) b = a

-- `_finish_failed_claim_in_transaction`
unfoldable pub finished_failed : ℕ → String → Job → Job
unfolding without_lease without_reservations preserved_result_status
finished_failed now code j =
    let q = without_lease (without_reservations j) in
    record q {
      status = or_status (preserved_result_status j) failed;
      cancel_requested = false;
      error_code = some code;
      updated_at = now;
    }

-- `_finish_cancelled_claim_in_transaction`
unfoldable pub finished_cancelled : ℕ → Job → Job
unfolding without_lease without_reservations preserved_result_status
finished_cancelled now j =
    let q = without_lease (without_reservations j) in
    record q {
      status = or_status (preserved_result_status j) cancelled;
      cancel_requested = false;
      updated_at = now;
    }

-- `_finish_cancelled_queued_in_transaction`; a queued job has no lease
unfoldable pub cancelled_queued : ℕ → Job → Job
unfolding without_reservations preserved_result_status
cancelled_queued now j =
    let q = without_reservations j in
    record q {
      status = or_status (preserved_result_status j) cancelled;
      cancel_requested = false;
      updated_at = now;
    }

-- the terminal commit of `process_one`
unfoldable pub published : ℕ → String → String → String → String → Job → Job
unfolding without_lease without_reservations
published now extractor model raw encoded j =
    let q = without_lease (without_reservations j) in
    record q {
      status = review;
      extractor = some extractor;
      model_version = some model;
      raw_result = some raw;
      original_result_json = elim j.original_result_json [
        | none ↦ some encoded
        | some text ↦ some text
      ];
      current_result_json = some encoded;
      error_code = none;
      approved_at = none;
      updated_at = now;
    }

-- `reprocess`
unfoldable pub requeued : Settings → ℕ → Bool → Job → Job
unfolding without_lease
requeued s now costs j =
    let q = without_lease j in
    record q {
      status = queued;
      attempt = j.attempt + 1;
      recovery_count = 0;
      cancel_requested = false;
      reservation_active = costs;
      error_code = none;
      provider_dispatched = false;
      provider_dispatched_at = none;
      result_reservation_bytes = result_version_reservation_bytes s;
      result_reservation_attempt = some (j.attempt + 1);
      retained_byte_reservation = result_publication_reservation_bytes s;
      updated_at = now;
    }

-- the two outcomes of `recover_interrupted_jobs`
unfoldable pub recovered : ℕ → Job → Job
unfolding without_lease
recovered now j =
    let q = without_lease j in
    record q { status = queued; recovery_count = j.recovery_count + 1; updated_at = now }

unfoldable pub stopped : ℕ → Job → Job
unfolding without_lease without_reservations preserved_result_status
stopped now j =
    let q = without_lease (without_reservations j) in
    record q {
      status =
          or_status (preserved_result_status j) (if j.cancel_requested then cancelled else failed);
      cancel_requested = false;
      error_code =
          if j.cancel_requested
          then none
          else if j.provider_dispatched
          then some "worker_lease_expired_after_dispatch"
          else some "worker_recovery_exhausted";
      updated_at = now;
    }

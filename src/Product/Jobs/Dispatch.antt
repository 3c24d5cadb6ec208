-- ===== src/Product/Jobs/Dispatch.antt =====
-- The provider call: `_provider_circuit_open` and `_begin_provider_dispatch` of service.py.
use unrender.Base.{
  ℕ, ◌-◌, ◌/◌, Bool, true, false, ◌&&◌, ◌||◌, not, Option, none, some, String, leb, ◌==◌,
  if◌then◌else◌,
}
use unrender.Base.Table.{lookup, put, sum, nat_eq}
use unrender.Product.Settings.{
  Settings, result_version_reservation_bytes, result_publication_reservation_bytes,
}
use unrender.Product.Schema.{Db, Job, Attempt, attempt_key_eq, Outcome}
use unrender.Product.Tx.{Tx, ◌>>=◌, ◌>>◌, pure, gets, given, integrity_error, raise_if}
use unrender.Product.Admission.{insert_row, one_if}
use unrender.Product.Audit.{audit}
use unrender.Product.Budget.{reserve_dispatch}
use unrender.Product.Jobs.Updates.{WorkerClaim, holds_claim, dispatched}
use unrender.Product.Jobs.Statements.{update_job}
use unrender.Product.Jobs.Finish.{
  claim_row, attempt_key, finish_failed_claim_in_transaction, finish_cancelled_claim_in_transaction,
}

is_failed : Outcome → Bool
is_failed Outcome.failed = true
is_failed _ = false

-- `completed_at>=?`
completed_since : ℕ → Option ℕ → Bool
completed_since cutoff none = false
completed_since cutoff (some t) = leb cutoff t

abbrev recent_failure : ℕ → Attempt → Bool
recent_failure cutoff a = is_failed a.outcome && completed_since cutoff a.completed_at

-- Times are in seconds, and the cutoff lies an hour back.
unfoldable pub provider_circuit_open : Settings → ℕ → ℕ → Db → Bool
unfolding is_failed completed_since
provider_circuit_open s now u d =
    let cutoff = now - 3600 in
    let user_failures =
      sum (λ k a. one_if (a.user_id == u && recent_failure cutoff a)) d.attempts in
    let global_failures = sum (λ k a. one_if (recent_failure cutoff a)) d.attempts in
    leb s.provider_failure_limit_per_user_hour user_failures
    || leb s.provider_failure_limit_global_hour global_failures

-- `int(current["result_reservation_attempt"] or -1) != claim.attempt`: NULL and 0 count as -1
same_attempt : ℕ → Option ℕ → Bool
same_attempt attempt none = false
same_attempt attempt (some a) = not (a == 0) && a == attempt

unfoldable pub has_reservation : Settings → WorkerClaim → Job → Bool
unfolding same_attempt
has_reservation s c j =
    j.result_reservation_bytes == result_version_reservation_bytes s
    && same_attempt c.attempt j.result_reservation_attempt
    && j.retained_byte_reservation == result_publication_reservation_bytes s

-- `... AND provider_dispatched=0 AND cancel_requested=0`
abbrev pub may_dispatch : WorkerClaim → ℕ → Job → Bool
may_dispatch c now j = holds_claim c now j && not j.provider_dispatched && not j.cancel_requested

abbrev pub new_attempt : WorkerClaim → ℕ → Attempt
new_attempt c now = record {
  user_id = c.user_id;
  dispatched_at = now;
  outcome = Outcome.dispatched;
  completed_at = none;
}

-- The statement on the table with its primary key (job_id, attempt, lease_generation).
abbrev pub add_attempt : WorkerClaim → ℕ → Db → Db
add_attempt c now d = record d { attempts = put (attempt_key c) (new_attempt c now) d.attempts }

-- `SELECT COUNT(*) ... FROM provider_attempts WHERE job_id=?`
unfoldable pub attempts_of : ℕ → Db → ℕ
attempts_of job d = sum (λ k a. one_if (k.job_id == job)) d.attempts

module _ (s : Settings) (ident now : ℕ) where
  -- the last steps, once the day's allowance is granted
  unfoldable pub commit_dispatch : WorkerClaim → Tx Bool
  commit_dispatch c = do
    changed ← update_job c.job_id (may_dispatch c now) (dispatched now)
    if not changed then pure false else do
      existing ← gets (λ d. lookup (attempt_key c) d.attempts)
      raise_if (elim existing [ none ↦ false | some a ↦ true ]) integrity_error
      insert_row s (some c.user_id) true 0 (add_attempt c now)
      audit s ident now (some c.user_id) (some c.job_id) "provider_dispatched"
      pure true

  -- a refused dispatch settles the claim and returns False
  unfoldable pub refuse : WorkerClaim → String → Job → Tx Bool
  refuse c code current = do
    finish_failed_claim_in_transaction s ident now c code current
    pure false

  unfoldable pub dispatch_row : WorkerClaim → Job → Tx Bool
  unfolding refuse commit_dispatch
  dispatch_row c current =
      if current.provider_dispatched
      then pure false
      else if current.cancel_requested
      then (do finish_cancelled_claim_in_transaction s ident now c current; pure false)
      else if not (has_reservation s c current)
      then refuse c "result_capacity_reservation_lost" current
      else do
        circuit_open ← gets (provider_circuit_open s now c.user_id)
        if circuit_open then refuse c "provider_circuit_open" current else do
          retained ← gets (attempts_of c.job_id)
          if leb s.max_provider_attempts_per_job retained
              then refuse c "provider_attempt_history_limit" current
              else do
                granted ← reserve_dispatch (now / 86400) s.max_provider_dispatches_per_day
                if not granted then refuse c "provider_daily_limit" current else commit_dispatch c

  unfoldable pub begin_provider_dispatch : ℕ → WorkerClaim → Tx Bool
  unfolding dispatch_row
  begin_provider_dispatch checked c = do row ← claim_row c checked; given row false (dispatch_row c)

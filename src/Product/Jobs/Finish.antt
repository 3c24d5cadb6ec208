-- ===== src/Product/Jobs/Finish.antt =====
-- The settlement of a claim or of a queued job: `_finish_failed_claim`, `_finish_cancelled_claim`,
-- `_finish_cancelled_queued_in_transaction` and their bodies in service.py. `checked` is the clock
-- reading of `_claim_row`, `now` stands for the later ones; `ident` is the audit event's fresh id.
use unrender.Base.{ℕ, Bool, true, false, ◌&&◌, not, Option, some, String, if◌then◌else◌, ◌==◌}
use unrender.Base.Int.{pos}
use unrender.Base.Table.{lookup, nat_eq}
use unrender.Product.Settings.{Settings}
use unrender.Product.Schema.{Job, queued, is_status, LedgerKey, AttemptKey, Outcome}
use unrender.Product.Tx.{Tx, ◌>>=◌, ◌>>◌, pure, gets, when, given}
use unrender.Product.Audit.{audit}
use unrender.Product.Credits.{change_credits}
use unrender.Product.Jobs.Updates.{
  WorkerClaim, holds_claim, finished_failed, finished_cancelled, cancelled_queued,
}
use unrender.Product.Jobs.Statements.{update_job, row_if, complete_attempt}

-- `_claim_row`
unfoldable pub claim_row : WorkerClaim → ℕ → Tx (Option Job)
claim_row c now = gets (λ d. row_if (holds_claim c now) (lookup c.job_id d.jobs))

abbrev pub attempt_key : WorkerClaim → AttemptKey
attempt_key c = record { job_id = c.job_id; attempt = c.attempt; lease_generation = c.generation }

-- The credit of an attempt that no provider was called for.
unfoldable pub refund : Settings → ℕ → ℕ → ℕ → ℕ → String → Tx Unit
refund s now user job attempt reason = do
  change_credits s now user (pos 1) reason (LedgerKey.refund job attempt) true
  pure tt

module _ (s : Settings) (ident now : ℕ) where
  unfoldable pub finish_failed_claim_in_transaction : WorkerClaim → String → Job → Tx Bool
  unfolding refund
  finish_failed_claim_in_transaction c code current = do
    changed ← update_job c.job_id (holds_claim c now) (finished_failed now code)
    if not changed then pure false else do
      when (current.reservation_active && not current.provider_dispatched)
          (refund s now c.user_id c.job_id c.attempt "job_failed_before_dispatch_refund")
      when current.provider_dispatched (complete_attempt (attempt_key c) now Outcome.failed)
      audit s ident now (some c.user_id) (some c.job_id) "extraction_failed"
      pure true

  unfoldable pub finish_cancelled_claim_in_transaction : WorkerClaim → Job → Tx Bool
  unfolding refund
  finish_cancelled_claim_in_transaction c current = do
    changed ← update_job c.job_id (holds_claim c now) (finished_cancelled now)
    if not changed then pure false else do
      when (current.reservation_active && not current.provider_dispatched)
          (refund s now c.user_id c.job_id c.attempt "job_cancelled_before_dispatch_refund")
      when current.provider_dispatched (complete_attempt (attempt_key c) now Outcome.cancelled)
      audit s ident now (some c.user_id) (some c.job_id) "job_cancelled"
      pure true

  -- `user_id=? AND attempt=? AND status='queued'`
  abbrev pub still_queued : Job → Job → Bool
  still_queued current j =
      j.user_id == current.user_id && j.attempt == current.attempt && is_status j.status queued

  unfoldable pub finish_cancelled_queued_in_transaction : ℕ → Job → Tx Bool
  unfolding refund
  finish_cancelled_queued_in_transaction job current = do
    changed ← update_job job (still_queued current) (cancelled_queued now)
    if not changed then pure false else do
      when current.reservation_active
          (refund s now current.user_id job current.attempt "job_cancelled_before_dispatch_refund")
      audit s ident now (some current.user_id) (some job) "job_cancelled"
      pure true

  unfoldable pub finish_failed_claim : ℕ → WorkerClaim → String → Tx Bool
  finish_failed_claim checked c code = do
    row ← claim_row c checked
    given row false λ current.
        if current.cancel_requested
        then finish_cancelled_claim_in_transaction c current
        else finish_failed_claim_in_transaction c code current

  unfoldable pub finish_cancelled_claim : ℕ → WorkerClaim → Tx Bool
  finish_cancelled_claim checked c = do
    row ← claim_row c checked
    given row false (finish_cancelled_claim_in_transaction c)

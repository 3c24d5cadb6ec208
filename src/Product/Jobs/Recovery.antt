-- ===== src/Product/Jobs/Recovery.antt =====
-- `recover_interrupted_jobs` of service.py: what becomes of running jobs whose lease has expired.
use unrender.Base.{
  ℕ, suc, ◌+◌, Bool, true, false, ◌&&◌, not, Option, none, some, List, [], ◌∷◌, ltb, leb, ◌==◌,
  if◌then◌else◌,
}
use unrender.Base.Lists.{select}
use unrender.Base.Table.{nat_eq}
use unrender.Product.Settings.{Settings}
use unrender.Product.Schema.{Job, running, is_status, Outcome, AttemptKey, option_beq}
use unrender.Product.Tx.{Tx, ◌>>=◌, ◌>>◌, pure, gets, when}
use unrender.Product.Audit.{audit}
use unrender.Product.Jobs.Updates.{recovered, stopped}
use unrender.Product.Jobs.Statements.{update_job, complete_attempt}
use unrender.Product.Jobs.Finish.{refund}

-- `lease_expires_at IS NULL OR lease_expires_at<=?`
abbrev pub has_expired : ℕ → Option ℕ → Bool
has_expired now none = true
has_expired now (some t) = leb t now

abbrev pub is_interrupted : ℕ → Job → Bool
is_interrupted now j = is_status j.status running && has_expired now j.lease_expires_at

-- the WHERE clause of both updates; `IS` compares NULLs as equal
unfoldable pub same_execution : ℕ → Job → Job → Bool
same_execution now row j =
    j.user_id == row.user_id
    && j.attempt == row.attempt
    && j.lease_generation == row.lease_generation
    && option_beq j.worker_owner row.worker_owner
    && option_beq j.lease_token row.lease_token
    && is_interrupted now j

abbrev execution_key : ℕ → Job → AttemptKey
execution_key k row = record {
  job_id = k;
  attempt = row.attempt;
  lease_generation = row.lease_generation;
}

abbrev pub should_requeue : Settings → Job → Bool
should_requeue s row =
    not row.cancel_requested
    && not row.provider_dispatched
    && ltb row.recovery_count s.max_recovery_attempts

module _ (s : Settings) (now : ℕ) where
  unfoldable pub requeue_row : ℕ → ℕ → Job → Tx Bool
  requeue_row ident k row = do
    changed ← update_job k (same_execution now row) (recovered now)
    if not changed
        then pure false
        else do audit s ident now (some row.user_id) (some k) "job_recovered"; pure true

  unfoldable pub stop_row : ℕ → ℕ → Job → Tx Bool
  stop_row ident k row = do
    changed ← update_job k (same_execution now row) (stopped now)
    if not changed then pure false else do
      when (row.reservation_active && not row.provider_dispatched) (
          refund s now row.user_id k row.attempt (
            if row.cancel_requested
            then "job_cancelled_before_dispatch_refund"
            else "job_recovery_exhausted_refund"))
      when row.provider_dispatched (
          complete_attempt (execution_key k row) now
            (if row.cancel_requested then Outcome.cancelled else Outcome.failed))
      audit s ident now (some row.user_id) (some k)
          (if row.cancel_requested then "job_cancelled" else "job_recovery_exhausted")
      pure true

  unfoldable pub recover_row : ℕ → ℕ × Job → Tx Bool
  unfolding requeue_row stop_row
  recover_row ident (k, row) =
      if should_requeue s row then requeue_row ident k row else stop_row ident k row

  -- The audit events of the loop take the fresh ids `ident`, `ident + 1`, and so on.
  unfoldable pub recover_rows : ℕ → List (ℕ × Job) → Tx ℕ
  recover_rows ident [] = pure 0
  recover_rows ident (row ∷ rows) = do
    done ← recover_row ident row
    n ← recover_rows (suc ident) rows
    pure ((if done then 1 else 0) + n)

  unfoldable pub recover_interrupted_jobs : ℕ → Tx ℕ
  recover_interrupted_jobs ident = do
    rows ← gets (λ d. select (λ r. is_interrupted now r.1) d.jobs)
    recover_rows ident rows

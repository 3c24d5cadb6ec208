-- ===== src/Product/Soundness/Invariant.antt =====
-- The invariant: what holds of the tables between two transactions.
use unrender.Base.{ℕ, ◌+◌, ◌≤◌, ◌≡◌, true, false, none, some}
use unrender.Base.Table.{lookup, nat_eq}
use unrender.Base.Table.Keyed.{IsKeyed}
use unrender.Product.Settings.{Settings}
use unrender.Product.Schema.{
  Db, Job, Entry, Attempt, AttemptKey, LedgerKey, queued, running, is_status, ledger_key_eq,
  attempt_key_eq,
}
use unrender.Product.Credits.{ledger_count, refundable}
use unrender.Product.Credits.Balance.{IsBalanced}
use unrender.Product.Jobs.Requests.{is_settled}

-- A job that is not in flight holds no credit and no reserved bytes; a queued job has not been
-- dispatched; only a running job has a lease.
pub record IsConsistent (j : Job) : Type 0 where
  pub settled_credit : is_settled j.status ≡ true → j.reservation_active ≡ false
  pub settled_bytes : is_settled j.status ≡ true → j.result_reservation_bytes ≡ 0
  pub settled_retained : is_settled j.status ≡ true → j.retained_byte_reservation ≡ 0
  pub queued_idle : is_status j.status queued ≡ true → j.provider_dispatched ≡ false
  pub idle_owner : is_status j.status running ≡ false → j.worker_owner ≡ none
  pub idle_token : is_status j.status running ≡ false → j.lease_token ≡ none
  pub idle_lease : is_status j.status running ≡ false → j.lease_expires_at ≡ none

-- The jobs have distinct ids, and the tables agree with each other on the attempts of a job: its current attempt is the last that the
-- ledger and the provider know of; it has been refunded only if it ended with no provider call, and
-- has been dispatched only if the job says so; and no attempt was dispatched twice, or both
-- dispatched and refunded.
pub record IsCoherent (d : Db) : Type 0 where
  pub consistent : (k : ℕ) (j : Job) → lookup k d.jobs ≡ some j → IsConsistent j
  pub keyed : IsKeyed d.jobs
  pub balanced : IsBalanced d
  pub refund_of :
      (k a : ℕ) (x : Entry) (j : Job)
      → lookup (LedgerKey.refund k a) d.ledger ≡ some x
      → lookup k d.jobs ≡ some j
      → (a ≤ j.attempt)
        × (a ≡ j.attempt → (is_settled j.status ≡ true) × (j.provider_dispatched ≡ false))
  pub reserve_of :
      (k a : ℕ) (x : Entry) (j : Job)
      → lookup (LedgerKey.reserve k a) d.ledger ≡ some x
      → lookup k d.jobs ≡ some j
      → a ≤ j.attempt
  pub call_of :
      (key : AttemptKey) (x : Attempt) (j : Job)
      → lookup key d.attempts ≡ some x
      → lookup key.job_id d.jobs ≡ some j
      → (key.attempt ≤ j.attempt) × (key.attempt ≡ j.attempt → j.provider_dispatched ≡ true)
  pub exclusive :
      (key : AttemptKey) (x : Attempt)
      → lookup key d.attempts ≡ some x
      → lookup (LedgerKey.refund key.job_id key.attempt) d.ledger ≡ none
  pub single :
      (key other : AttemptKey) (x y : Attempt)
      → lookup key d.attempts ≡ some x
      → lookup other d.attempts ≡ some y
      → key.job_id ≡ other.job_id
      → key.attempt ≡ other.attempt
      → key.lease_generation ≡ other.lease_generation

-- Every credit that a job still holds has a free line in its owner's ledger.
pub record HasHeadroom (s : Settings) (d : Db) : Type 0 where
  pub at :
      (u : ℕ) → ledger_count u d.ledger + refundable u d.jobs ≤ s.max_credit_ledger_records_per_user

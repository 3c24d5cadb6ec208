-- ===== src/Product/Admission.antt =====
-- Row counts and the admission of new rows: `_database_row_count`, `_future_terminal_rows`,
-- `_new_job_future_rows`, `_admit_database_rows` and `_insert_row` of unrender/product/service.py.
-- A transaction's clock readings are arguments.
pub mod Rules
pub mod Capacity
use unrender.Base.{ℕ, ◌+◌, ◌-◌, ◌*◌, Bool, ◌&&◌, not, Option, none, some, ltb, ◌==◌, if◌then◌else◌}
use unrender.Base.Lists.{length, count_if}
use unrender.Base.Table.{sum}
use unrender.Product.Settings.{Settings}
use unrender.Product.Schema.{Db, Job, queued, running, is_value, Budget}
use unrender.Product.Tx.{
  Error, Tx, service_capacity_reached, database_quota_reached, ◌>>=◌, ◌>>◌, pure, gets, raise_if,
  modify,
}

-- `SELECT COUNT(*) FROM table`, over every row or over those of one user.
abbrev pub one_if : Bool → ℕ
one_if b = if b then 1 else 0

abbrev pub budget_rows : Option Budget → ℕ
budget_rows none = 0
budget_rows (some b) = 1

unfoldable pub database_row_count : Db → ℕ
database_row_count d =
    length d.users
    + length d.jobs
    + length d.versions
    + length d.ledger
    + length d.attempts
    + length d.audit_log.events
    + length d.audit_log.rollups
    + budget_rows d.budget
    + length d.billing_events
    + length d.uploads
    + length d.pending_deletions
    + length d.storage_reservations
    + length d.rate_limits
    + length d.idempotency
    + length d.others

unfoldable pub user_row_count : ℕ → Db → ℕ
user_row_count u d =
    count_if (λ r. r.1.user_id == u) d.jobs
    + count_if (λ r. r.1.user_id == u) d.versions
    + count_if (λ r. r.1.user_id == u) d.ledger
    + count_if (λ r. r.1.user_id == u) d.attempts
    + count_if (λ r. is_value r.user_id u) d.audit_log.events
    + count_if (λ r. r.0.user_id == u) d.audit_log.rollups
    + count_if (λ r. r.1.user_id == u) d.uploads
    + count_if (λ r. is_value r.1.user_id u) d.pending_deletions
    + count_if (λ r. is_value r.1.user_id u) d.storage_reservations
    + count_if (λ r. r.0.user_id == u) d.idempotency
    + count_if (λ r. is_value r u) d.others

module _ (s : Settings) where
  -- The rows that a job in flight may still need.
  unfoldable pub future_rows : Job → ℕ
  future_rows j =
      let remaining_recoveries = s.max_recovery_attempts - j.recovery_count in
      elim j.status [
        | queued ↦ 5 + 2 * remaining_recoveries
        | running ↦ if j.provider_dispatched then 2 else 4 + 2 * remaining_recoveries
        | _ ↦ 0
      ]

  unfoldable pub future_terminal_rows : Db → ℕ
  future_terminal_rows d = sum (λ k j. future_rows j) d.jobs

  unfoldable pub user_future_terminal_rows : ℕ → Db → ℕ
  user_future_terminal_rows u d = sum (λ k j. if j.user_id == u then future_rows j else 0) d.jobs

  unfoldable pub new_job_future_rows : ℕ
  new_job_future_rows = 5 + 2 * s.max_recovery_attempts

  -- the checks of the user's own limit; `user_id=None` has none
  admit_user_rows : Option ℕ → ℕ → Bool → ℕ → Tx Unit
  admit_user_rows none additional mandatory new_future = pure tt
  admit_user_rows (some u) additional mandatory new_future = do
    user_rows ← gets (user_row_count u)
    raise_if (ltb s.max_database_rows_per_user (user_rows + additional)) database_quota_reached
    future ← gets (user_future_terminal_rows u)
    raise_if
        (not mandatory
          && ltb s.max_database_rows_per_user
              (user_rows + additional + s.mandatory_database_rows_per_user + future + new_future))
        database_quota_reached

  -- The deltas are numbers, so the source's guard against negative ones has nothing to refuse.
  unfoldable pub admit_database_rows : Option ℕ → ℕ → Bool → ℕ → Tx Unit
  unfolding admit_user_rows
  admit_database_rows user additional mandatory new_future = do
    global_rows ← gets database_row_count
    raise_if (ltb s.max_database_rows_global (global_rows + additional)) service_capacity_reached
    future ← gets future_terminal_rows
    raise_if
        (not mandatory
          && ltb s.max_database_rows_global
              (global_rows + additional + s.mandatory_database_rows_global + future + new_future))
        service_capacity_reached
    admit_user_rows user additional mandatory new_future

  -- `_insert_row`: the admission of one row, and the statement
  unfoldable pub insert_row : Option ℕ → Bool → ℕ → (Db → Db) → Tx Unit
  insert_row user mandatory new_future statement = do
    admit_database_rows user 1 mandatory new_future
    modify statement

  -- `_insert_row` where the statement violates a constraint if the row is taken
  unfoldable pub insert_unique : Option ℕ → Bool → ℕ → (Db → Bool) → Error → (Db → Db) → Tx Unit
  insert_unique user mandatory new_future is_taken violation statement = do
    admit_database_rows user 1 mandatory new_future
    taken ← gets is_taken
    raise_if taken violation
    modify statement

-- ===== src/Product/Jobs/Requests.antt =====
-- The requests of a customer about a job: `cancel`, `reprocess` and `apply_billing_event` of
-- service.py, each up to the end of its transaction.
use Prim.Native.String.{count as char_count}
use unrender.Base.{
  ℕ, ◌+◌, Bool, true, false, ◌&&◌, ◌||◌, not, Option, none, some, String, ltb, leb, ◌==◌,
  if◌then◌else◌,
}
use unrender.Base.Int.{pos, negsuc}
use unrender.Base.Lists.{length}
use unrender.Base.Table.{lookup, put, nat_eq}
use text.Mathlib.Text.{◌==◌ as str_eq}
use unrender.Product.Settings.{Settings}
use unrender.Product.Schema.{
  Db, Job, Status, queued, running, is_status, LedgerKey, BillingEvent, AccountKind, string_key_eq,
}
use unrender.Product.Tx.{
  Tx, ◌>>=◌, ◌>>◌, pure, raise, gets, raise_if, or_raise, when, job_not_found, job_not_cancellable,
  job_busy, billing_event_invalid, billing_event_conflict, billing_event_capacity_reached,
  billing_user_missing, billing_user_invalid,
}
use unrender.Product.Admission.{admit_database_rows, insert_row, new_job_future_rows}
use unrender.Product.Audit.{audit}
use unrender.Product.Credits.{change_credits}
use unrender.Product.Storage.{Disk, reserve_result_capacity}
use unrender.Product.Jobs.Updates.{requeued}
use unrender.Product.Jobs.Statements.{update_job, row_if}
use unrender.Product.Jobs.Finish.{finish_cancelled_queued_in_transaction}

-- `UPDATE jobs SET cancel_requested=1,... WHERE id=?`
abbrev pub cancel_requested : ℕ → Job → Job
cancel_requested now j = record j { cancel_requested = true; updated_at = now }

-- `status in {"review","approved","failed","cancelled"}`
abbrev pub is_settled : Status → Bool
is_settled queued = false
is_settled running = false
is_settled _ = true

-- The extraction backend, and the digest of the bundled fixture if the file is there.
pub record DemoFixture : Type 0 where
  pub backend_is_replay : Bool
  pub digest : Option String

-- `_is_free_demo_fixture`
unfoldable pub is_free_demo_fixture : DemoFixture → String → Bool
is_free_demo_fixture f source_sha256 =
    f.backend_is_replay
    && elim f.digest [ none ↦ false | some digest ↦ str_eq digest source_sha256 ]

-- `SELECT * FROM jobs WHERE id=? AND user_id=?`, or 404
unfoldable pub owned_job : ℕ → ℕ → Tx Job
owned_job u job = do
  row ← gets (λ d. row_if (λ j. j.user_id == u) (lookup job d.jobs))
  or_raise row job_not_found

module _ (s : Settings) (ident now : ℕ) where
  unfoldable pub cancel_row : ℕ → ℕ → Job → Tx Unit
  cancel_row u job row =
      if is_status row.status queued
      then (do finish_cancelled_queued_in_transaction s ident now job row; pure tt)
      else if is_status row.status running
      then (do
        update_job job (λ j. true) (cancel_requested now)
        audit s ident now (some u) (some job) "job_cancellation_requested")
      else raise job_not_cancellable

  unfoldable pub cancel : ℕ → ℕ → Tx Unit
  unfolding owned_job cancel_row
  cancel u job = do row ← owned_job u job; cancel_row u job row

  unfoldable pub reprocess : Disk → DemoFixture → ℕ → ℕ → Tx Unit
  unfolding owned_job
  reprocess disk fixture u job = do
    row ← owned_job u job
    raise_if (not (is_settled row.status)) job_busy
    let costs = not (is_free_demo_fixture fixture row.source_sha256)
    admit_database_rows s (some u) (1 + (if costs then 1 else 0)) false (new_job_future_rows s)
    reserve_result_capacity s disk u (some job)
    update_job job (λ j. true) (requeued s now costs)
    when costs (do
      change_credits s now u (negsuc 0) "job_reprocess_reserved"
          (LedgerKey.reserve job (row.attempt + 1)) false
      pure tt)
    audit s ident now (some u) (some job) "job_requeued"

  abbrev is_demo : AccountKind → Bool
  is_demo AccountKind.demo = true
  is_demo AccountKind.customer = false

  abbrev add_billing_event : String → BillingEvent → Db → Db
  add_billing_event event_id b d = record d { billing_events = put event_id b d.billing_events }

  abbrev pub checkout_completed : String
  checkout_completed = "checkout.session.completed"

  unfoldable pub apply_new_event : String → ℕ → ℕ → String → Tx Bool
  apply_new_event event_id u credits payload = do
    billing_count ← gets (λ d. length d.billing_events)
    raise_if (leb s.max_billing_events_global billing_count) billing_event_capacity_reached
    row ← gets (λ d. lookup u d.users)
    user ← or_raise row billing_user_missing
    raise_if (is_demo user.account_kind) billing_user_invalid
    insert_row s none false 0 (
        add_billing_event event_id (record {
          event_type = checkout_completed;
          payload_sha256 = payload;
          processed_at = now;
        }))
    change_credits s now u (pos credits) "stripe_credit_pack" (LedgerKey.stripe event_id) false
    audit s ident now (some u) none "credits_purchased"
    pure true

  -- the replay of a known event, which is a conflict unless type and payload are the same
  unfoldable pub replay_event : String → String → BillingEvent → Tx Bool
  replay_event event_type payload b = do
    raise_if (not (str_eq b.event_type event_type) || not (str_eq b.payload_sha256 payload))
        billing_event_conflict
    pure false

  -- `not event_id or len(event_id) > 255 or not payload_sha256`
  unfoldable pub is_incomplete : String → String → Bool
  is_incomplete event_id payload =
      str_eq event_id "" || ltb 255 (char_count event_id) || str_eq payload ""

  unfoldable pub known_or_new : String → String → ℕ → ℕ → String → Option BillingEvent → Tx Bool
  unfolding apply_new_event replay_event
  known_or_new event_id event_type u credits payload none =
      apply_new_event event_id u credits payload
  known_or_new event_id event_type u credits payload (some b) = replay_event event_type payload b

  unfoldable pub apply_billing_event : String → String → ℕ → ℕ → String → Tx Bool
  unfolding known_or_new is_incomplete
  apply_billing_event event_id event_type u credits payload =
      if is_incomplete event_id payload
      then raise billing_event_invalid
      else if not (str_eq event_type checkout_completed)
      then pure false
      else if not (credits == s.credit_pack_size)
      then raise billing_event_invalid
      else do
        existing ← gets (λ d. lookup event_id d.billing_events)
        known_or_new event_id event_type u credits payload existing

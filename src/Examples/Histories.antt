-- ===== src/Examples/Histories.antt =====
-- The theorems on histories of transactions, applied to two histories of one job.
use unrender.Base.{ℕ, ◌≡◌, refl, true, false, none, some, List, [], ◌∷◌, arith}
use unrender.Base.Table.{lookup, put, erase, sum, nat_eq}
use unrender.Base.Table.Keyed.{IsKeyed}
use unrender.Product.Schema.{Db, Attempt, AttemptKey, ledger_key_eq, attempt_key_eq}
use unrender.Product.Credits.{refundable, ledger_count, change_credits, add_delta}
use unrender.Product.Tx.{transaction, ◌>>=◌}
use unrender.Product.Admission.{
  insert_row, admit_database_rows, database_row_count, user_row_count, future_terminal_rows,
  user_future_terminal_rows, future_rows,
}
use unrender.Product.Audit.{
  audit, rollup_audit_events, aggregate_audit_rows, rollup_oldest_audit_events,
}
use unrender.Product.Budget.{reserve_dispatch, reserve}
use unrender.Product.Jobs.Statements.{update_job, complete_attempt, row_if}
use unrender.Product.Jobs.Finish.{
  finish_failed_claim, finish_cancelled_claim, claim_row, finish_failed_claim_in_transaction,
  finish_cancelled_claim_in_transaction,
}
use unrender.Product.Jobs.Worker.{claim_next_job, next_queued, heartbeat_claim}
use unrender.Product.Jobs.Dispatch.{
  begin_provider_dispatch, provider_circuit_open, attempts_of, has_reservation,
}
use unrender.Product.Jobs.Requests.{cancel}
use unrender.Product.Jobs.Recovery.{
  recover_interrupted_jobs, recover_rows, requeue_row, stop_row, recover_row, same_execution,
}
use unrender.Product.Jobs.Updates.{
  WorkerClaim, holds_claim, claimed, renewed, recovered, finished_failed, finished_cancelled,
  dispatched,
}
use unrender.Product.Soundness.Settled.{IsSound}
use unrender.Product.Soundness.Reach.{Operation, run, run-IsSound}
use unrender.Product.Soundness.Dispatched.{Called, begin_provider_dispatch-Called}
use unrender.Product.Soundness.Reach.Held.{run-held}
use unrender.Examples.{small, waiting, customer, shop, shop-IsSound}
use unrender.Product.Schema.{Outcome}
use unrender.Product.Tx.{ok}
use unrender.Product.Soundness.Conserved.{held}
use unrender.Product.Jobs.Fencing.{stale-unchanged}
use unrender.Product.Jobs.Queue.{claim_next_job-first, Granted}
use unrender.Product.Jobs.Worker.{
  Output, claim_of, update_claim_progress, release_claim_for_shutdown, publish_result,
}

-- The claim that the worker gets at time 10, and its row.
abbrev claim : WorkerClaim
claim = record {
  job_id = 7;
  user_id = 1;
  attempt = 1;
  generation = 1;
  token = 4;
  owner = 3;
  row = waiting;
}

abbrev late : WorkerClaim
late = record claim { generation = 2; token = 6 }

-- A worker takes the job and dies; the job is recovered, taken again and fails before its provider
-- is called.
abbrev failing : List (ℕ × Operation)
failing =
    (10, Operation.claiming 100 3 4)
    ∷ (20, Operation.heartbeat claim)
    ∷ (100, Operation.recovery 101)
    ∷ (110, Operation.claiming 102 3 6)
    ∷ (120, Operation.failure 103 119 late "unreadable")
    ∷ []

-- A worker takes the job, calls the provider, and is cancelled.
abbrev calling : List (ℕ × Operation)
calling =
    (10, Operation.claiming 100 3 4)
    ∷ (20, Operation.dispatch 101 19 claim)
    ∷ (30, Operation.cancel_request 102 1 7)
    ∷ (40, Operation.cancellation 103 39 claim)
    ∷ []

abbrev call : AttemptKey
call = record { job_id = 7; attempt = 1; lease_generation = 1 }

-- The credit of the failed job is back in the account.
refunded : lookup 1 (run small failing shop).users ≡ some (record customer { credit_balance = 5 })
unfolding lookup put sum erase run transaction finish_failed_claim
    finish_failed_claim_in_transaction finish_cancelled_claim_in_transaction ◌>>=◌ claim_row
    claim_next_job next_queued recover_interrupted_jobs recover_rows requeue_row stop_row
    recover_row same_execution heartbeat_claim update_job audit rollup_audit_events
    aggregate_audit_rows rollup_oldest_audit_events insert_row admit_database_rows
    database_row_count user_row_count future_terminal_rows user_future_terminal_rows future_rows
    holds_claim claimed renewed recovered finished_failed finished_cancelled dispatched
    change_credits ledger_count refundable add_delta complete_attempt begin_provider_dispatch
    reserve_dispatch reserve provider_circuit_open attempts_of has_reservation cancel held
refunded = refl

-- The call of the cancelled job is recorded once, as cancelled.
abbrev cancelled_call : Attempt
cancelled_call = record {
  user_id = 1;
  dispatched_at = 20;
  outcome = Outcome.cancelled;
  completed_at = some 40;
}

called : lookup call (run small calling shop).attempts ≡ some cancelled_call
unfolding lookup put sum erase run transaction finish_failed_claim
    finish_failed_claim_in_transaction finish_cancelled_claim_in_transaction ◌>>=◌ claim_row
    claim_next_job next_queued recover_interrupted_jobs recover_rows requeue_row stop_row
    recover_row same_execution heartbeat_claim update_job audit rollup_audit_events
    aggregate_audit_rows rollup_oldest_audit_events insert_row admit_database_rows
    database_row_count user_row_count future_terminal_rows user_future_terminal_rows future_rows
    holds_claim claimed renewed recovered finished_failed finished_cancelled dispatched
    change_credits ledger_count refundable add_delta complete_attempt begin_provider_dispatch
    reserve_dispatch reserve provider_circuit_open attempts_of has_reservation cancel held
called = refl

charged : lookup 1 (run small calling shop).users ≡ some customer
unfolding lookup put sum erase run transaction finish_failed_claim
    finish_failed_claim_in_transaction finish_cancelled_claim_in_transaction ◌>>=◌ claim_row
    claim_next_job next_queued recover_interrupted_jobs recover_rows requeue_row stop_row
    recover_row same_execution heartbeat_claim update_job audit rollup_audit_events
    aggregate_audit_rows rollup_oldest_audit_events insert_row admit_database_rows
    database_row_count user_row_count future_terminal_rows user_future_terminal_rows future_rows
    holds_claim claimed renewed recovered finished_failed finished_cancelled dispatched
    change_credits ledger_count refundable add_delta complete_attempt begin_provider_dispatch
    reserve_dispatch reserve provider_circuit_open attempts_of has_reservation cancel held
charged = refl

run-IsSound_example : IsSound small (run small failing shop)
run-IsSound_example = run-IsSound small failing shop shop-IsSound

run-held_example : held 1 (run small failing shop) ≡ held 1 shop
run-held_example = run-held small failing shop 1 shop-IsSound refl

-- The first worker's claim, after its job was recovered and taken by another.
abbrev retaken : List (ℕ × Operation)
retaken =
    (10, Operation.claiming 100 3 4)
    ∷ (100, Operation.recovery 101)
    ∷ (110, Operation.claiming 102 3 6)
    ∷ []

abbrev output : Output
output = record { extractor = "e"; model_version = "m"; raw = "r"; encoded = "j"; receipt = "p" }

claim_stale : row_if (holds_claim claim 20) (lookup 7 (run small retaken shop).jobs) ≡ none
unfolding lookup put sum erase run transaction finish_failed_claim
    finish_failed_claim_in_transaction finish_cancelled_claim_in_transaction ◌>>=◌ claim_row
    claim_next_job next_queued recover_interrupted_jobs recover_rows requeue_row stop_row
    recover_row same_execution heartbeat_claim update_job audit rollup_audit_events
    aggregate_audit_rows rollup_oldest_audit_events insert_row admit_database_rows
    database_row_count user_row_count future_terminal_rows user_future_terminal_rows future_rows
    holds_claim claimed renewed recovered finished_failed finished_cancelled dispatched
    change_credits ledger_count refundable add_delta complete_attempt begin_provider_dispatch
    reserve_dispatch reserve provider_circuit_open attempts_of has_reservation cancel held
claim_stale = refl

stale-unchanged_example :
    (heartbeat_claim small 200 20 claim (run small retaken shop)
      ≡ ok (false, run small retaken shop))
    × (update_claim_progress small 200 20 20 claim (run small retaken shop)
        ≡ ok (false, run small retaken shop))
    × (begin_provider_dispatch small 200 20 20 claim (run small retaken shop)
        ≡ ok (false, run small retaken shop))
    × (release_claim_for_shutdown small 200 20 20 claim (run small retaken shop)
        ≡ ok (false, run small retaken shop))
    × (finish_failed_claim small 200 20 20 claim "late" (run small retaken shop)
        ≡ ok (false, run small retaken shop))
    × (finish_cancelled_claim small 200 20 20 claim (run small retaken shop)
        ≡ ok (false, run small retaken shop))
    × (publish_result small 200 20 201 20 claim output (run small retaken shop)
        ≡ ok (true, run small retaken shop))
stale-unchanged_example =
    stale-unchanged small 200 201 20 20 claim "late" output (run small retaken shop) claim_stale
      claim_stale

abbrev taken : Db
taken = run small ((10, Operation.claiming 100 3 4) ∷ []) shop

first_claim :
    claim_next_job small 100 10 3 4 shop ≡ ok (some (claim_of small 100 10 3 4 7 waiting), taken)
unfolding lookup put sum erase run transaction finish_failed_claim
    finish_failed_claim_in_transaction finish_cancelled_claim_in_transaction ◌>>=◌ claim_row
    claim_next_job next_queued recover_interrupted_jobs recover_rows requeue_row stop_row
    recover_row same_execution heartbeat_claim update_job audit rollup_audit_events
    aggregate_audit_rows rollup_oldest_audit_events insert_row admit_database_rows
    database_row_count user_row_count future_terminal_rows user_future_terminal_rows future_rows
    holds_claim claimed renewed recovered finished_failed finished_cancelled dispatched
    change_credits ledger_count refundable add_delta complete_attempt begin_provider_dispatch
    reserve_dispatch reserve provider_circuit_open attempts_of has_reservation cancel held
first_claim = refl

shop-IsKeyed : IsKeyed shop.jobs
unfolding lookup
shop-IsKeyed = (refl, tt)

claim_next_job-first_example :
    Granted small 100 10 3 4 shop (some (claim_of small 100 10 3 4 7 waiting)) taken
claim_next_job-first_example =
    claim_next_job-first small 100 10 3 4 shop taken (some (claim_of small 100 10 3 4 7 waiting))
      shop-IsKeyed (omega arith) first_claim

abbrev called_shop : Db
called_shop = run small ((20, Operation.dispatch 101 19 claim) ∷ []) taken

may_call : begin_provider_dispatch small 101 20 19 claim taken ≡ ok (true, called_shop)
unfolding lookup put sum erase run transaction finish_failed_claim
    finish_failed_claim_in_transaction finish_cancelled_claim_in_transaction ◌>>=◌ claim_row
    claim_next_job next_queued recover_interrupted_jobs recover_rows requeue_row stop_row
    recover_row same_execution heartbeat_claim update_job audit rollup_audit_events
    aggregate_audit_rows rollup_oldest_audit_events insert_row admit_database_rows
    database_row_count user_row_count future_terminal_rows user_future_terminal_rows future_rows
    holds_claim claimed renewed recovered finished_failed finished_cancelled dispatched
    change_credits ledger_count refundable add_delta complete_attempt begin_provider_dispatch
    reserve_dispatch reserve provider_circuit_open attempts_of has_reservation cancel held
may_call = refl

begin_provider_dispatch-Called_example : Called small claim 19 20 taken called_shop
begin_provider_dispatch-Called_example =
    begin_provider_dispatch-Called small 101 19 20 claim taken called_shop may_call

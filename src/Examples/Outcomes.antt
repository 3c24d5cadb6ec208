-- ===== src/Examples/Outcomes.antt =====
-- The theorems on the webhook, the recovery, the results and the reservations, at the same shop.
use unrender.Base.{String, ◌≡◌, refl, true, false, none, some, [], ◌∷◌}
use unrender.Base.Table.{lookup, put, erase, sum, nat_eq}
use unrender.Base.Table.Keyed.{IsKeyed}
use unrender.Product.Schema.{Db, Job}
use unrender.Product.Tx.{transaction, ◌>>=◌, ok, err, storage_reservation_lost}
use unrender.Product.Admission.{
  insert_row, admit_database_rows, database_row_count, user_row_count, future_terminal_rows,
  user_future_terminal_rows, future_rows,
}
use unrender.Product.Audit.{
  audit, rollup_audit_events, aggregate_audit_rows, rollup_oldest_audit_events,
}
use unrender.Product.Credits.{change_credits, ledger_count, refundable, add_delta}
use unrender.Product.Jobs.Statements.{update_job}
use unrender.Product.Jobs.Updates.{
  claimed, recovered, finished_failed, finished_cancelled, cancelled_queued, stopped, nonempty,
}
use text.Mathlib.Text.{◌==◌ as str_eq}
use unrender.Product.Schema.{failed, cancelled}
use unrender.Product.Jobs.Worker.{claim_next_job, next_queued}
use unrender.Product.Jobs.Requests.{apply_billing_event}
use unrender.Product.Jobs.Recovery.{
  recover_interrupted_jobs, recover_rows, requeue_row, stop_row, recover_row, same_execution,
  is_interrupted,
}
use unrender.Product.Jobs.Billing.{apply_billing_event-again}
use unrender.Product.Jobs.Preserved.{KeepsResult, settlement-KeepsResult}
use unrender.Product.Storage.Reservations.{
  Ticket, consume_storage_reservation, drop_storage_reservation, delete_reservation, matching,
  is_owned,
}
use unrender.Product.Storage.Consumed.{consume-once}
use unrender.Product.Soundness.Reach.{Operation, run}
use unrender.Product.Soundness.Recovered.{recover_interrupted_jobs-clears}
use unrender.Examples.{small, waiting, shop}

abbrev sale : Operation
sale = Operation.billing 300 "evt" "checkout.session.completed" 1 10 "sha"

abbrev paid : Db
paid = run small ((50, sale) ∷ []) shop

sold :
    apply_billing_event small 300 50 "evt" "checkout.session.completed" 1 10 "sha" shop
    ≡ ok (true, paid)
unfolding lookup put sum erase run transaction ◌>>=◌ claim_next_job next_queued
    recover_interrupted_jobs recover_rows requeue_row stop_row recover_row same_execution update_job
    audit rollup_audit_events aggregate_audit_rows rollup_oldest_audit_events insert_row
    admit_database_rows database_row_count user_row_count future_terminal_rows
    user_future_terminal_rows future_rows claimed recovered change_credits ledger_count refundable
    add_delta apply_billing_event
sold = refl

apply_billing_event-again_example :
    apply_billing_event small 301 60 "evt" "checkout.session.completed" 1 10 "sha" paid
    ≡ ok (false, paid)
apply_billing_event-again_example =
    apply_billing_event-again small 300 50 301 60 "evt" "checkout.session.completed" 1 1 10 "sha"
      shop paid sold

abbrev taken : Db
taken = run small ((10, Operation.claiming 100 3 4) ∷ []) shop

abbrev rescued : Db
rescued = run small ((100, Operation.recovery 101) ∷ []) taken

abbrev rescued_job : Job
rescued_job = recovered 100 (claimed small 3 4 10 waiting)

one_recovered : recover_interrupted_jobs small 100 101 taken ≡ ok (1, rescued)
unfolding lookup put sum erase run transaction ◌>>=◌ claim_next_job next_queued
    recover_interrupted_jobs recover_rows requeue_row stop_row recover_row same_execution update_job
    audit rollup_audit_events aggregate_audit_rows rollup_oldest_audit_events insert_row
    admit_database_rows database_row_count user_row_count future_terminal_rows
    user_future_terminal_rows future_rows claimed recovered change_credits ledger_count refundable
    add_delta apply_billing_event
one_recovered = refl

rescued_found : lookup 7 rescued.jobs ≡ some rescued_job
unfolding lookup put sum erase run transaction ◌>>=◌ claim_next_job next_queued
    recover_interrupted_jobs recover_rows requeue_row stop_row recover_row same_execution update_job
    audit rollup_audit_events aggregate_audit_rows rollup_oldest_audit_events insert_row
    admit_database_rows database_row_count user_row_count future_terminal_rows
    user_future_terminal_rows future_rows claimed recovered change_credits ledger_count refundable
    add_delta apply_billing_event
rescued_found = refl

taken-IsKeyed : IsKeyed taken.jobs
unfolding lookup put sum erase run transaction ◌>>=◌ claim_next_job next_queued
    recover_interrupted_jobs recover_rows requeue_row stop_row recover_row same_execution update_job
    audit rollup_audit_events aggregate_audit_rows rollup_oldest_audit_events insert_row
    admit_database_rows database_row_count user_row_count future_terminal_rows
    user_future_terminal_rows future_rows claimed recovered change_credits ledger_count refundable
    add_delta apply_billing_event
taken-IsKeyed = (refl, tt)

recover_interrupted_jobs-clears_example : is_interrupted 100 rescued_job ≡ false
recover_interrupted_jobs-clears_example =
    recover_interrupted_jobs-clears small 100 101 1 taken rescued 7 rescued_job taken-IsKeyed
      one_recovered rescued_found

abbrev approved_job : Job
approved_job = record waiting {
  original_result_json = some "first";
  current_result_json = some "second";
  approved_at = some 9;
}

settlement-KeepsResult_example :
    ((text : String)
      → approved_job.current_result_json ≡ some text
      → str_eq text "" ≡ false
      → KeepsResult approved_job (finished_failed 30 "unreadable" approved_job)
        × KeepsResult approved_job (finished_cancelled 30 approved_job)
        × KeepsResult approved_job (cancelled_queued 30 approved_job)
        × KeepsResult approved_job (stopped 30 approved_job))
    × (nonempty approved_job.current_result_json ≡ none
        → ((finished_failed 30 "unreadable" approved_job).status ≡ failed)
          × ((finished_cancelled 30 approved_job).status ≡ cancelled)
          × ((cancelled_queued 30 approved_job).status ≡ cancelled)
          × ((stopped 30 approved_job).status ≡ failed))
settlement-KeepsResult_example = settlement-KeepsResult 30 "unreadable" approved_job

abbrev ticket : Ticket
ticket = record { reservation_id = 5; owner_token = 8 }

abbrev reserved : Db
reserved = record shop {
  storage_reservations =
      (
        5,
        record {
          owner_token = 8;
          user_id = some 1;
          kind = "job_copy";
          byte_count = 10;
          storage_path = some 70;
          expires_at = 90;
        },
      )
      ∷ [];
}

consumed : consume_storage_reservation 20 1 ticket "job_copy" 10 70 reserved ≡ ok (tt, shop)
unfolding consume_storage_reservation delete_reservation matching is_owned lookup erase ◌>>=◌
consumed = refl

consume-once_example :
    (lookup 5 shop.storage_reservations ≡ none)
    × (consume_storage_reservation 30 1 ticket "job_copy" 10 70 shop ≡ err storage_reservation_lost)
    × (drop_storage_reservation 1 ticket shop ≡ ok (false, shop))
consume-once_example =
    consume-once 20 30 1 1 10 10 70 70 ticket "job_copy" "job_copy" 8 reserved shop consumed

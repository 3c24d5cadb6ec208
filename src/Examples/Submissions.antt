-- ===== src/Examples/Submissions.antt =====
-- The theorems on submissions and on reachable databases, at a customer with one upload.

use unrender.Base.{
  ℕ, ◌+◌, ◌<◌, ◌≤◌, ◌≡◌, ◌≢◌, refl, true, false, none, some, String, [], ◌∷◌, arith, Option,
}
use unrender.Base.Table.{lookup, put, erase, sum, nat_eq}
use unrender.Product.Schema.{
  Db, User, AccountKind, Upload, LedgerKey, Attempt, AttemptKey, empty, ledger_key_eq,
  attempt_key_eq, request_key_eq,
}
use unrender.Product.Tx.{
  Result, ok, err, transaction, ◌>>=◌, idempotency_conflict, idempotency_key_expired, os_error,
  Error,
}
use unrender.Product.Credits.{ledger_count, refundable, change_credits, add_delta}
use unrender.Product.Credits.Balance.{credited, debited}
use unrender.Product.Admission.{
  insert_row, insert_unique, admit_database_rows, database_row_count, user_row_count,
  future_terminal_rows, user_future_terminal_rows, future_rows, new_job_future_rows,
}
use unrender.Product.Audit.{
  audit, rollup_audit_events, aggregate_audit_rows, rollup_oldest_audit_events,
}
use unrender.Product.Storage.{
  Disk, retained_storage_bytes, unrealized_storage_reservations, assert_retained_byte_capacity,
  reserve_result_capacity,
}
use unrender.Product.Storage.Reservations.{
  Ticket, reserve_storage_bytes, consume_storage_reservation, drop_storage_reservation,
  delete_reservation, matching, is_owned,
}
use unrender.Product.Jobs.Requests.{is_free_demo_fixture}
use unrender.Product.Accounts.{create_user, find_user}
use unrender.Product.Submission.{
  Submission, new_job, insert_job, complete_request, submit_new, replay_or_submit, submit,
}
use unrender.Product.Submission.Requests.{
  Response, Encoder, request_key, expire_requests, delete_tombstones, create_idempotency_record,
  public_job,
}
use unrender.Product.Submission.Capacity.{upload, assert_job_capacity, user_bytes}
use unrender.Product.Submission.Create.{create_job, check_request, known_or_upload}
use unrender.Product.Submission.Sound.{IsFreshJob}
use unrender.Product.Submission.Replay.{SameAnswers, submit-again}
use unrender.Product.Submission.Failure.{create_job-failure, IsUndone}
use unrender.Product.Reachable.{Reachable, Reachable-lem}
use unrender.Examples.{small, shop}

abbrev sample : Upload
sample = record {
  user_id = 1;
  storage_path = 40;
  byte_size = 50;
  sha256 = "b";
  page_count = 1;
  expires_at = 500;
}

-- The shop with an upload of the customer and the reservation for its copy.
abbrev counter : Db
counter = record shop {
  uploads = (5, sample) ∷ [];
  storage_reservations =
      (
        11,
        record {
          owner_token = 12;
          user_id = some 1;
          kind = "job_copy";
          byte_count = 50;
          storage_path = some 71;
          expires_at = 160;
        },
      )
      ∷ [];
}

abbrev drive : Disk
drive = record { database_bytes = 1000; free = 1000000; copy_error = none }

abbrev order : Submission
order = record {
  user = 1;
  upload_id = 5;
  page_index = 0;
  stored_key = "key";
  request_sha256 = "digest";
}

abbrev ticket : Ticket
ticket = record { reservation_id = 11; owner_token = 12 }

abbrev digest : String
digest = "digest"

-- An encoder that knows one response.
abbrev ordered : Response
ordered = public_job 8 (new_job small 100 1 5 71 sample true)

abbrev encoder : Encoder
encoder = record { dumps = λ response. "{}"; loads = λ text. some ordered }

abbrev committed : {A : Type 0} → Result (A × Db) → Db
committed (ok (response, e)) = e
committed (err x) = empty

abbrev after : Db
after = committed (submit small drive encoder 300 100 8 71 ticket true order counter)

submitted : submit small drive encoder 300 100 8 71 ticket true order counter ≡ ok (ordered, after)
unfolding lookup put erase sum ◌>>=◌ ledger_count refundable change_credits add_delta insert_row
    insert_unique admit_database_rows database_row_count user_row_count future_terminal_rows
    user_future_terminal_rows future_rows audit rollup_audit_events aggregate_audit_rows
    rollup_oldest_audit_events retained_storage_bytes unrealized_storage_reservations
    assert_retained_byte_capacity reserve_result_capacity consume_storage_reservation
    delete_reservation matching is_owned insert_job complete_request submit_new replay_or_submit
    submit expire_requests delete_tombstones create_idempotency_record upload assert_job_capacity
    user_bytes new_job_future_rows new_job
submitted = refl

unknown : lookup (request_key 1 "key") counter.idempotency ≡ none
unfolding lookup
unknown = refl

submit-again_example :
    let again =
      submit small drive encoder 301 130 9 72 ticket true
        (record order { upload_id = 6; page_index = 0; request_sha256 = digest })
        after in
    (130 < 1100 → digest ≡ digest → (f : Db) × (again ≡ ok (ordered, f)) × SameAnswers after f)
    × (130 < 1100 → digest ≢ digest → again ≡ err idempotency_conflict)
    × (1100 ≤ 130 → again ≡ err idempotency_key_expired)
submit-again_example =
    submit-again small drive drive encoder 300 100 8 71 301 130 9 72 6 0 ticket ticket true true
      digest order counter after ordered (λ same. cc) refl unknown submitted

-- A first account, its upload, and its job.
abbrev opened : Db
opened =
    committed (
      create_user small 300 1 1 (some "a@b.c") AccountKind.customer true 3 "welcome_allowance"
        empty)

opening :
    create_user small 300 1 1 (some "a@b.c") AccountKind.customer true 3 "welcome_allowance" empty
    ≡ ok (1, opened)
unfolding lookup put sum ◌>>=◌ ledger_count refundable change_credits add_delta insert_row
    insert_unique admit_database_rows database_row_count user_row_count future_terminal_rows
    user_future_terminal_rows future_rows audit rollup_audit_events aggregate_audit_rows
    rollup_oldest_audit_events create_user find_user
opening = refl

abbrev uploaded : Db
uploaded = record opened {
  uploads = counter.uploads;
  storage_reservations = counter.storage_reservations;
}

abbrev running_shop : Db
running_shop = committed (submit small drive encoder 301 100 8 71 ticket true order uploaded)

first_job :
    submit small drive encoder 301 100 8 71 ticket true order uploaded ≡ ok (ordered, running_shop)
unfolding lookup put erase sum ◌>>=◌ ledger_count refundable change_credits add_delta insert_row
    insert_unique admit_database_rows database_row_count user_row_count future_terminal_rows
    user_future_terminal_rows future_rows audit rollup_audit_events aggregate_audit_rows
    rollup_oldest_audit_events retained_storage_bytes unrealized_storage_reservations
    assert_retained_byte_capacity reserve_result_capacity consume_storage_reservation
    delete_reservation matching is_owned insert_job complete_request submit_new replay_or_submit
    submit expire_requests delete_tombstones create_idempotency_record upload assert_job_capacity
    user_bytes new_job_future_rows new_job create_user find_user
first_job = refl

uploaded-IsFreshJob : IsFreshJob 8 uploaded
unfolding lookup put sum ◌>>=◌ ledger_count refundable change_credits add_delta insert_row
    insert_unique admit_database_rows database_row_count user_row_count future_terminal_rows
    user_future_terminal_rows future_rows audit rollup_audit_events aggregate_audit_rows
    rollup_oldest_audit_events create_user find_user
uploaded-IsFreshJob = record {
  unreserved = λ a. ground arith;
  unrefunded = λ a. ground arith;
  uncalled = λ key x p. absurd (cc (p));
}

nothing_owed : ledger_count 1 empty.ledger ≡ 0
unfolding ledger_count sum
nothing_owed = refl

running_shop-Reachable : Reachable small running_shop
running_shop-Reachable =
    Reachable.submission drive encoder 301 100 8 71 ticket true order ordered
      (Reachable.elsewhere
        (Reachable.account 300 1 1 3 1 "welcome_allowance" (some "a@b.c") AccountKind.customer true
          Reachable.start nothing_owed opening)
        (refl, refl, refl, refl))
      uploaded-IsFreshJob first_job

Reachable-lem_example :
    ((u : ℕ) (x : User)
      → lookup u running_shop.users ≡ some x
      → x.credit_balance + debited u running_shop.ledger ≡ credited u running_shop.ledger)
    × ((key : AttemptKey) (x : Attempt)
        → lookup key running_shop.attempts ≡ some x
        → lookup (LedgerKey.refund key.job_id key.attempt) running_shop.ledger ≡ none)
    × ((key other : AttemptKey) (x y : Attempt)
        → lookup key running_shop.attempts ≡ some x
        → lookup other running_shop.attempts ≡ some y
        → key.job_id ≡ other.job_id
        → key.attempt ≡ other.attempt
        → key.lease_generation ≡ other.lease_generation)
Reachable-lem_example = Reachable-lem small running_shop running_shop-Reachable

-- A customer without credits: the call fails after it has reserved the bytes of the copy, and the
-- copy cannot be deleted, so that the reservation stays.
abbrev broke : Db
broke = record counter {
  users =
      (
        1,
        record {
          email = "a@b.c";
          account_active = true;
          account_kind = AccountKind.customer;
          credit_balance = 0;
        },
      )
      ∷ [];
}

abbrev deletion : Option Error
deletion = some os_error

abbrev stuck : Db
stuck =
    (create_job small drive (record { backend_is_replay = false; digest = none }) encoder 302 100
      order 8 71 13 14 deletion broke).1

no_reservation : lookup 13 broke.storage_reservations ≡ none
unfolding lookup
no_reservation = refl

refused :
    create_job small drive
      (record { backend_is_replay = false; digest = none })
      encoder
      302
      100
      order
      8
      71
      13
      14
      deletion
      broke
    ≡ (err os_error, stuck)
unfolding lookup put erase sum ◌>>=◌ transaction ledger_count refundable change_credits add_delta
    insert_row insert_unique admit_database_rows database_row_count user_row_count
    future_terminal_rows user_future_terminal_rows future_rows audit rollup_audit_events
    aggregate_audit_rows rollup_oldest_audit_events retained_storage_bytes
    unrealized_storage_reservations assert_retained_byte_capacity reserve_result_capacity
    reserve_storage_bytes consume_storage_reservation drop_storage_reservation delete_reservation
    matching is_owned insert_job complete_request submit_new replay_or_submit submit expire_requests
    delete_tombstones create_idempotency_record upload assert_job_capacity user_bytes
    new_job_future_rows new_job create_job check_request known_or_upload is_free_demo_fixture
refused = refl

create_job-failure_example : IsUndone 1 13 14 deletion os_error broke stuck
create_job-failure_example =
    create_job-failure small drive (record { backend_is_replay = false; digest = none }) encoder 302
      100 order 8 71 13 14 deletion broke stuck os_error no_reservation refused

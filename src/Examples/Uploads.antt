-- ===== src/Examples/Uploads.antt =====
-- The theorems on uploads, at the small shop with staged bytes.
use unrender.Base.{ℕ, ◌<◌, ◌≤◌, ◌≡◌, ◌≢◌, refl, true, none, some, [], ◌∷◌, Option}
use unrender.Base.Table.{lookup, put, erase, sum, nat_eq}
use unrender.Product.Schema.{Db, empty, rate_key_eq}
use unrender.Product.Tx.{
  Result, ok, err, transaction, ◌>>=◌, upload_not_found, upload_rate_limited, value_error, os_error,
  Error,
}
use unrender.Product.Admission.{
  insert_row, insert_unique, admit_database_rows, database_row_count, user_row_count,
  future_terminal_rows, user_future_terminal_rows, future_rows,
}
use unrender.Product.Audit.{
  audit, rollup_audit_events, aggregate_audit_rows, rollup_oldest_audit_events,
}
use unrender.Product.RateLimit.{
  rate_limit, count_in, refused_or_counted, effective_limit, window_of,
}
use unrender.Product.Storage.{
  Disk, retained_storage_bytes, unrealized_storage_reservations, assert_retained_byte_capacity,
}
use unrender.Product.Storage.Reservations.{
  Ticket, reserve_storage_bytes, consume_storage_reservation, drop_storage_reservation,
  delete_reservation, matching, is_owned,
}
use unrender.Product.Submission.Capacity.{upload, assert_upload_capacity, user_bytes}
use unrender.Product.Uploads.{Inspection, new_upload, store_upload, prepare_staged_upload}
use unrender.Product.Storage.Deletions.{queue_deletion}
use unrender.Product.Uploads.Streamed.{require_customer_account, prepare_upload_stream}
use unrender.Product.Uploads.Attempts.{prepare_upload_stream-failure}
use unrender.Product.Uploads.Quotas.{IsWithin}
use unrender.Product.Uploads.Staged.{store_upload-upload, store_upload-IsWithin}
use unrender.Product.Uploads.Failure.{SameElse, prepare_staged_upload-failure}
use unrender.Examples.{small, shop}

abbrev owner : ℕ
owner = 1

abbrev other : ℕ
other = 6

abbrev scanned : Inspection
scanned = record { byte_size = 50; sha256 = "b"; page_count = 2 }

abbrev ticket : Ticket
ticket = record { reservation_id = 11; owner_token = 12 }

-- The shop with the bytes of a staged file, already under the upload's name.
abbrev counter : Db
counter = record shop {
  storage_reservations =
      (
        11,
        record {
          owner_token = 12;
          user_id = some 1;
          kind = "upload";
          byte_count = 50;
          storage_path = some 71;
          expires_at = 160;
        },
      )
      ∷ [];
}

abbrev committed : Result (Unit {0} × Db) → Db
committed (ok (tt, e)) = e
committed (err x) = empty

abbrev after : Db
after = committed (store_upload small 300 100 1 5 71 ticket scanned true none none counter)

kept : store_upload small 300 100 1 5 71 ticket scanned true none none counter ≡ ok (tt, after)
unfolding lookup put erase sum ◌>>=◌ insert_row insert_unique admit_database_rows database_row_count
    user_row_count future_terminal_rows user_future_terminal_rows future_rows audit
    rollup_audit_events aggregate_audit_rows rollup_oldest_audit_events consume_storage_reservation
    delete_reservation matching is_owned assert_upload_capacity user_bytes store_upload
kept = refl

store_upload-upload_example :
    (owner ≡ owner
      → 150 < 200
      → upload 150 owner 5 after
        ≡ ok (new_upload small 300 100 1 5 71 ticket scanned true none none, after))
    × (owner ≢ owner → upload 150 owner 5 after ≡ err upload_not_found)
    × (200 ≤ 150 → upload 150 owner 5 after ≡ err upload_not_found)
    × (other ≢ 5 → lookup other after.uploads ≡ lookup other counter.uploads)
store_upload-upload_example =
    store_upload-upload small 300 100 1 5 71 ticket scanned true none none counter after kept 150
      owner other

store_upload-IsWithin_example : IsWithin small 1 after
store_upload-IsWithin_example =
    store_upload-IsWithin small 300 100 1 5 71 ticket scanned true none none counter after kept

abbrev drive : Disk
drive = record { database_bytes = 1000; free = 1000000; copy_error = none }

abbrev no_error : Option Error
no_error = none

-- More bytes than a minute allows.
abbrev heavy : Inspection
heavy = record { byte_size = 2000; sha256 = "b"; page_count = 2 }

abbrev refused : Result ℕ × Db
refused =
    prepare_staged_upload small 300 100 1 5 71 ticket heavy true none none none none drive
      "upload-bytes:1" counter

refusal : refused ≡ (err upload_rate_limited, refused.1)
unfolding lookup put erase sum ◌>>=◌ transaction insert_row insert_unique admit_database_rows
    database_row_count user_row_count future_terminal_rows user_future_terminal_rows future_rows
    drop_storage_reservation delete_reservation matching is_owned prepare_staged_upload rate_limit
    count_in refused_or_counted effective_limit window_of
refusal = refl

prepare_staged_upload-failure_example :
    SameElse counter refused.1
    × (no_error ≡ none → no_error ≡ none → matching 11 (is_owned 1 ticket) refused.1 ≡ none)
prepare_staged_upload-failure_example =
    prepare_staged_upload-failure small 300 100 1 5 71 ticket heavy true none none none none drive
      "upload-bytes:1" counter refused.1 upload_rate_limited refusal

-- The bytes cannot be staged, and the half-written file cannot be deleted.
abbrev broken : Result ℕ × Db
broken =
    prepare_upload_stream small drive 300 100 1 5 71 13 14 80 "upload-bytes:1" (err value_error)
      none (some os_error) none shop

breakage : broken ≡ (err value_error, broken.1)
unfolding lookup put erase sum ◌>>=◌ transaction insert_row admit_database_rows database_row_count
    user_row_count future_terminal_rows user_future_terminal_rows future_rows retained_storage_bytes
    unrealized_storage_reservations assert_retained_byte_capacity reserve_storage_bytes
    drop_storage_reservation delete_reservation matching is_owned queue_deletion
    require_customer_account prepare_upload_stream
breakage = refl

no_reservation : lookup 13 shop.storage_reservations ≡ none
unfolding lookup
no_reservation = refl

prepare_upload_stream-failure_example :
    (some os_error ≡ none
      → no_error ≡ none
      → matching 13 (is_owned 1 (record { reservation_id = 13; owner_token = 14 })) broken.1 ≡ none)
    × (some os_error ≡ none → SameElse shop broken.1)
prepare_upload_stream-failure_example =
    prepare_upload_stream-failure small drive 300 100 1 5 71 13 14 80 "upload-bytes:1"
      (err value_error) none (some os_error) none shop broken.1 value_error no_reservation breakage

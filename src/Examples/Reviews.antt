-- ===== src/Examples/Reviews.antt =====
-- The theorems on the review, at the small shop after its job has been extracted.

use unrender.Base.{
  ℕ, suc, zero, ◌+◌, ◌*◌, ◌≤◌, ◌≡◌, refl, ap, true, false, none, some, String, [], ◌∷◌, arith,
  Option,
}
use unrender.Base.Table.{lookup, put, sum, nat_eq}
use unrender.Product.Schema.{
  Db, Job, Status, queued, running, review, approved, failed, cancelled, Version, version_key_eq,
  Source,
}
use unrender.Product.Tx.{Error, Result, transaction, ◌>>=◌, ok, err, result_conflict}
use unrender.Product.Admission.{
  insert_row, insert_unique, admit_database_rows, database_row_count, user_row_count,
  future_terminal_rows, user_future_terminal_rows, future_rows,
}
use unrender.Product.Admission.Capacity.{IsFull}
use unrender.Product.Audit.{
  audit, rollup_audit_events, aggregate_audit_rows, rollup_oldest_audit_events,
}
use unrender.Product.Storage.{
  Disk, retained_storage_bytes, unrealized_storage_reservations, assert_retained_byte_capacity,
  latest_version, next_result_version,
}
use unrender.Product.Jobs.Statements.{update_job}
use unrender.Product.Jobs.Requests.{owned_job}
use unrender.Product.Review.Snapshot.{
  Codec, Snapshot, Reviewed, get_job, review_snapshot, snapshot_of, snapshot_of_text,
  snapshot_of_version, latest_row, result_text, isascii, assert_review_revision,
}
use unrender.Product.Review.Corrections.{
  version_key, save_correction, restore_version, approve, store_correction, store_approval,
  reviewed_row, insert_correction, receipt_or_latest, corrected, approved_row,
}
use unrender.Product.Review.Edits.{Edit, perform_edit}
use unrender.Product.Review.Conflicts.{NoCollision, edit-view, edit-once}
use unrender.Product.Review.Approval.{IsHex, save-approve}
use unrender.Product.Review.Restored.{IsRestored, restore_version-lem}
use unrender.Examples.{small, waiting, shop}

-- A text of n letters.
unary : ℕ → String
unary zero = ""
unary (suc n) = String.◌∷◌ "a" (unary n)

letters : String → ℕ
letters String.[] = 0
letters (String.◌∷◌ c text) = suc (letters text)

number : Status → ℕ
number queued = 0
number running = 1
number review = 2
number approved = 3
number failed = 4
number cancelled = 5

-- A stand-in for SHA-256 that counts: it tells apart the identities that the theorems need.
abbrev counting : Codec
counting = record {
  parse_receipt = λ text. some record { extractor = some "replay"; model_version = none };
  sha256 = λ text. unary (suc (letters text));
  dump_identity = λ i. unary (6 * i.version_id + number i.status);
}

isascii-unary : (n : ℕ) → isascii (unary n) ≡ true
unfolding isascii unary
isascii-unary zero = refl
isascii-unary (suc n) = isascii-unary n

letters-unary : (n : ℕ) → letters (unary n) ≡ n
unfolding unary letters
letters-unary zero = refl
letters-unary (suc n) = ap (λ (m : ℕ). suc m) (letters-unary n)

counting-IsHex : IsHex counting
unfolding unary
counting-IsHex text = (isascii-unary (suc (letters text)), λ same. cc)

number-le : (x : Status) → number x ≤ 5
unfolding number
number-le x = ground arith

number_injective : (x y : Status) → number x ≡ number y → x ≡ y
unfolding number
number_injective x y h = ground arith

counting-NoCollision : NoCollision counting
counting-NoCollision a b h =
    let same : 6 * a.version_id + number a.status ≡ 6 * b.version_id + number b.status = omega (
      arith,
      ap letters h,
      letters-unary (suc (letters (unary (6 * a.version_id + number a.status)))),
      letters-unary (suc (letters (unary (6 * b.version_id + number b.status)))),
      letters-unary (6 * a.version_id + number a.status),
      letters-unary (6 * b.version_id + number b.status),
    ) in
    (
      omega (arith, same, number-le a.status, number-le b.status),
      number_injective a.status b.status
          (omega (arith, same, number-le a.status, number-le b.status)),
    )

-- The result that the customer sees, as its first version.
abbrev first : Version
first = record {
  id = 3;
  user_id = 1;
  source = Source.extraction;
  chart_json = "{}";
  extraction_receipt_json = "r";
  created_at = 20;
}

abbrev extracted : Job
extracted = record waiting {
  status = review;
  reservation_active = false;
  result_reservation_bytes = 0;
  result_reservation_attempt = none;
  retained_byte_reservation = 0;
  raw_result = some "{}";
  original_result_json = some "{}";
  current_result_json = some "{}";
}

abbrev desk : Db
desk = record shop { jobs = (7, extracted) ∷ []; versions = (version_key 7 1, first) ∷ [] }

abbrev drive : Disk
drive = record { database_bytes = 1000; free = 1000000; copy_error = none }

-- 6 * 3 and the number of `review`, and one
abbrev seen : String
seen = "aaaaaaaaaaaaaaaaaaaaa"

abbrev edited : Edit → Result Snapshot × Db
edited e = transaction (perform_edit counting small drive 300 4 50 1 7 seen e) desk

abbrev view : Result Snapshot → Snapshot
view (ok snap) = snap
view (err x) = record { job = waiting; reviewed = none }

abbrev shown : Option Reviewed → Reviewed
shown (some rv) = rv
shown none = record {
  result_version = 0;
  result_sha256 = "";
  review_revision = "";
  extraction_receipt = record { extractor = none; model_version = none };
  extraction_receipt_sha256 = "";
}

abbrev saving : Edit
saving = Edit.save "{1}"

saved :
    perform_edit counting small drive 300 4 50 1 7 seen saving desk
    ≡ ok (view (edited saving).0, (edited saving).1)
unfolding lookup put sum transaction ◌>>=◌ update_job owned_job audit rollup_audit_events
    aggregate_audit_rows rollup_oldest_audit_events insert_row insert_unique admit_database_rows
    database_row_count user_row_count future_terminal_rows user_future_terminal_rows future_rows
    retained_storage_bytes unrealized_storage_reservations assert_retained_byte_capacity
    latest_version next_result_version get_job review_snapshot snapshot_of snapshot_of_text
    snapshot_of_version latest_row result_text isascii assert_review_revision save_correction
    restore_version approve store_correction store_approval reviewed_row insert_correction
    receipt_or_latest corrected approved_row perform_edit unary letters number
saved = refl

edit-view_example :
    (get_job counting 1 7 (edited saving).1 ≡ ok (view (edited saving).0, (edited saving).1))
    × ((j n : ℕ) (v : Version)
        → lookup (version_key j n) desk.versions ≡ some v
        → lookup (version_key j n) (edited saving).1.versions ≡ some v)
edit-view_example =
    edit-view counting small drive 300 4 50 1 7 seen saving desk (view (edited saving).0)
      (edited saving).1 saved

edit-once_example :
    perform_edit counting small drive 301 5 60 1 7 seen Edit.approval (edited saving).1
    ≡ err result_conflict
edit-once_example =
    edit-once counting small drive drive 300 4 50 301 5 60 1 7 seen saving Edit.approval desk
      (view (edited saving).0) (edited saving).1 counting-NoCollision refl saved

saved_shown : (view (edited saving).0).reviewed ≡ some (shown (view (edited saving).0).reviewed)
unfolding lookup put sum transaction ◌>>=◌ update_job owned_job audit rollup_audit_events
    aggregate_audit_rows rollup_oldest_audit_events insert_row insert_unique admit_database_rows
    database_row_count user_row_count future_terminal_rows user_future_terminal_rows future_rows
    retained_storage_bytes unrealized_storage_reservations assert_retained_byte_capacity
    latest_version next_result_version get_job review_snapshot snapshot_of snapshot_of_text
    snapshot_of_version latest_row result_text isascii assert_review_revision save_correction
    restore_version approve store_correction store_approval reviewed_row insert_correction
    receipt_or_latest corrected approved_row perform_edit unary letters number
saved_shown = refl

save-approve_example :
    ((x : Error)
      → approve counting small drive 301 5 60 1 7
          (shown (view (edited saving).0).reviewed).review_revision
          (edited saving).1
        ≡ err x
      → IsFull x)
    × ((snap : Snapshot) (f : Db)
        → approve counting small drive 301 5 60 1 7
            (shown (view (edited saving).0).reviewed).review_revision
            (edited saving).1
          ≡ ok (snap, f)
        → (row : Job) × (lookup 7 (edited saving).1.jobs ≡ some row)
          × (lookup 7 f.jobs ≡ some (approved_row 60 row)))
save-approve_example =
    save-approve counting small drive drive 300 4 50 301 5 60 1 7 seen saving desk
      (view (edited saving).0) (edited saving).1 (shown (view (edited saving).0).reviewed)
      counting-IsHex (λ same. cc) saved saved_shown

abbrev back : Edit
back = Edit.restore 1

restored :
    restore_version counting small drive 300 4 50 1 7 1 seen desk
    ≡ ok (view (edited back).0, (edited back).1)
unfolding lookup put sum transaction ◌>>=◌ update_job owned_job audit rollup_audit_events
    aggregate_audit_rows rollup_oldest_audit_events insert_row insert_unique admit_database_rows
    database_row_count user_row_count future_terminal_rows user_future_terminal_rows future_rows
    retained_storage_bytes unrealized_storage_reservations assert_retained_byte_capacity
    latest_version next_result_version get_job review_snapshot snapshot_of snapshot_of_text
    snapshot_of_version latest_row result_text isascii assert_review_revision save_correction
    restore_version approve store_correction store_approval reviewed_row insert_correction
    receipt_or_latest corrected approved_row perform_edit unary letters number
restored = refl

restore_version-lem_example :
    (v : Version) × (lookup (version_key 7 1) desk.versions ≡ some v)
    × IsRestored 1 7 desk v (edited back).1
restore_version-lem_example =
    restore_version-lem counting small drive 300 4 50 1 7 1 seen desk (view (edited back).0)
      (edited back).1 restored

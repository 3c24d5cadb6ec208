-- ===== src/Product/Uploads.antt =====
-- An upload whose bytes have been staged: `_consume_upload_bytes` and `_prepare_staged_upload` of
-- unrender/product/service.py. The upload's id, its path and the bucket of its owner are arguments;
-- `commit_error` is what `commit_staged_upload` raises, if it raises.
pub mod Quotas
pub mod Staged
pub mod Failure
pub mod Streamed
pub mod Attempts
use unrender.Base.{
  ℕ, ◌+◌, Bool, true, false, not, Option, none, some, String, [], ◌∷◌, if◌then◌else◌,
}
use unrender.Base.Table.{Table, lookup, put, nat_eq}
use unrender.Product.Settings.{Settings}
use unrender.Product.Schema.{Db, Upload}
use unrender.Product.Tx.{
  Tx, Result, ok, err, transaction, ◌>>=◌, ◌>>◌, pure, integrity_error, upload_rate_limited, Error,
  outside_call,
}
use unrender.Product.Admission.{admit_database_rows, insert_unique}
use unrender.Product.Audit.{audit}
use unrender.Product.RateLimit.{rate_limit}
use unrender.Product.Storage.{Disk}
use unrender.Product.Storage.Reservations.{
  Ticket, resize_storage_reservation, consume_storage_reservation, drop_storage_reservation,
  release_after,
}
use unrender.Product.Submission.Requests.{is_present}
use unrender.Product.Submission.Capacity.{assert_upload_capacity}

-- What the inspection of the staged file has found.
pub record Inspection : Type 0 where
  pub byte_size : ℕ
  pub sha256 : String
  pub page_count : ℕ

abbrev pub add_upload : ℕ → Upload → Db → Db
add_upload k r d = record d { uploads = put k r d.uploads }

module _ (s : Settings) (ident now u upload_id path : ℕ) (ticket : Ticket) (found : Inspection)
    (require_credit : Bool) (fixture_sha256 : Option String) (commit_error : Option Error) where
  abbrev pub new_upload : Upload
  new_upload = record {
    user_id = u;
    storage_path = path;
    byte_size = found.byte_size;
    sha256 = found.sha256;
    page_count = found.page_count;
    expires_at = now + s.upload_ttl_seconds;
  }

  -- the transaction that makes the upload's row
  unfoldable pub store_upload : Tx Unit
  store_upload = do
    admit_database_rows s (some u) 1 false 0
    assert_upload_capacity s u found.byte_size require_credit fixture_sha256
    outside_call commit_error
    insert_unique s (some u) false 0 (λ d. is_present (lookup upload_id d.uploads)) integrity_error
        (add_upload upload_id new_upload)
    consume_storage_reservation now u ticket "upload" found.byte_size path
    audit s ident now (some u) none "upload_prepared"

  -- `staged_deletion` and `final_deletion` are what `storage.delete` raises for the staged file and
  -- for the final one, if it raises.
  module _ (staged_deletion final_deletion : Option Error) where
    -- the final file is deleted first
    abbrev pub first_raised : Option Error
    first_raised = elim final_deletion [ none ↦ staged_deletion | some y ↦ some y ]

    abbrev pub stored : Result (Unit {0}) × Db → Result ℕ × Db
    stored (ok _, d) = (ok upload_id, d)
    stored (err x, d) = release_after u ticket first_raised x d

    abbrev pub resized : Result (Unit {0}) × Db → Result ℕ × Db
    resized (ok _, d) = stored (transaction store_upload d)
    resized (err x, d) = release_after u ticket first_raised x d

    module _ (disk : Disk) (bucket : String) where
      -- `_consume_upload_bytes`: the limiter's own transaction is committed before its answer is read
      abbrev pub rated : Result Bool × Db → Result ℕ × Db
      rated (ok true, d) = resized (
          transaction
            (resize_storage_reservation s disk now u ticket found.byte_size "upload" (some path)) d)
      rated (ok false, d) = release_after u ticket staged_deletion upload_rate_limited d
      rated (err x, d) = release_after u ticket staged_deletion x d

      unfoldable pub prepare_staged_upload : Db → Result ℕ × Db
      unfolding store_upload transaction
      prepare_staged_upload d = rated (
          transaction (rate_limit s now bucket (some s.max_upload_bytes_per_minute) found.byte_size)
            d)

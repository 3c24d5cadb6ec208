-- ===== src/Product/Uploads/Streamed.antt =====
-- An upload from its first byte: `require_customer_account`, `_stage_upload_with_reservation` and
-- `prepare_upload_stream` of unrender/product/service.py. What the file system does is an argument:
-- `staging` is the inspection of the staged bytes or the error of `stage_upload`; `commit`, `staged_deletion` and
-- `final_deletion` are what `commit_staged_upload` raises and what `storage.delete` raises for
-- the two files after an error, if they raise.
use unrender.Base.{ℕ, true, none, some, String, Option}
use unrender.Base.Table.{lookup, nat_eq}
use unrender.Product.Settings.{Settings}
use unrender.Product.Schema.{Db}
use unrender.Product.Tx.{
  Tx, Result, Error, ok, err, transaction, ◌>>=◌, gets, raise_if, or_raise, user_not_found,
  demo_read_only,
}
use unrender.Product.Storage.{Disk}
use unrender.Product.Storage.Reservations.{
  Ticket, reserve_storage_bytes, resize_storage_reservation, drop_storage_reservation,
}
use unrender.Product.Storage.Deletions.{queue_deletion}
use unrender.Product.Submission.Capacity.{is_demo}
use unrender.Product.Uploads.{Inspection, prepare_staged_upload}

unfoldable pub require_customer_account : ℕ → Tx Unit
require_customer_account u = do
  row ← gets (λ d. lookup u d.users)
  user ← or_raise row user_not_found
  raise_if (is_demo user.account_kind) demo_read_only

module _ (s : Settings) (disk : Disk) (ident now u upload_id path id token staging_path : ℕ)
    (bucket : String) (staging : Result Inspection)
    (commit staged_deletion final_deletion : Option Error) where
  -- what `_reserve_storage_bytes` returns
  abbrev pub the_ticket : Ticket
  the_ticket = record { reservation_id = id; owner_token = token }

  -- the `finally`
  abbrev pub cleaned : Error → Result (Unit {0}) × Db → Result ℕ × Db
  cleaned x (ok _, d) = (err x, (transaction (drop_storage_reservation u the_ticket) d).1)
  cleaned x (err y, d) = (err y, (transaction (drop_storage_reservation u the_ticket) d).1)

  -- the `except`: a staged file that cannot be deleted now is queued for deletion
  abbrev pub cleanup : Option Error → Error → Db → Result ℕ × Db
  cleanup none x d = cleaned x (ok tt, d)
  cleanup (some y) x d = cleaned x (
      transaction
        (queue_deletion s now staging_path "failed_staging_cleanup" (some u) s.max_upload_bytes) d)

  abbrev pub staged : Inspection → Result (Unit {0}) × Db → Result ℕ × Db
  staged found (ok _, d) =
      prepare_staged_upload s ident now u upload_id path the_ticket found true none commit
        staged_deletion final_deletion disk bucket d
  staged found (err x, d) = cleanup staged_deletion x d

  abbrev pub inspected : Result Inspection → Db → Result ℕ × Db
  inspected (ok found) d = staged found (
      transaction
        (resize_storage_reservation s disk now u the_ticket found.byte_size "staging"
          (some staging_path))
        d)
  inspected (err x) d = cleanup staged_deletion x d

  abbrev pub begun : Result Ticket × Db → Result ℕ × Db
  begun (ok _, d) = inspected staging d
  begun (err x, d) = (err x, d)

  abbrev pub permitted : Result (Unit {0}) × Db → Result ℕ × Db
  permitted (ok _, d) = begun (
      transaction
        (reserve_storage_bytes s disk now id token u s.max_upload_bytes "staging"
          (some staging_path))
        d)
  permitted (err x, d) = (err x, d)

  unfoldable pub prepare_upload_stream : Db → Result ℕ × Db
  unfolding require_customer_account transaction
  prepare_upload_stream d = permitted (transaction (require_customer_account u) d)

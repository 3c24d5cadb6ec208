-- ===== src/Product/Submission/Create.antt =====
-- `create_job` as a whole, with no other writer between its transactions: the checks, the
-- reservation for the copy, the transaction, and the release where that fails.
use unrender.Base.{ℕ, ◌⊎◌, inl, inr, ◌&&◌, not, Option, none, some, ltb}
use unrender.Base.Table.{lookup, nat_eq}
use unrender.Product.Settings.{Settings}
use unrender.Product.Schema.{Db, Upload, Idempotency, request_key_eq}
use unrender.Product.Tx.{
  Tx, Result, ok, err, transaction, ◌>>=◌, ◌>>◌, pure, gets, raise_if, or_raise, user_not_found,
  demo_fixture_only, invalid_page, Error,
}
use unrender.Product.Storage.{Disk}
use unrender.Product.Storage.Reservations.{Ticket, reserve_storage_bytes, release_after}
use unrender.Product.Jobs.Requests.{DemoFixture, is_free_demo_fixture}
use unrender.Product.Submission.Requests.{Response, Encoder, request_key, idempotent_response}
use unrender.Product.Submission.Capacity.{upload, is_demo}
use unrender.Product.Submission.{Submission, submit}

module _ (s : Settings) (disk : Disk) (fixture : DemoFixture) (enc : Encoder) (ident now : ℕ)
    (q : Submission) where
  -- the reads before the first write: a known key is answered, a new one leads to the upload
  unfoldable pub known_or_upload : Option Idempotency → Tx (Response ⊎ Upload)
  known_or_upload (some row) = do
    response ← idempotent_response enc now q.request_sha256 row
    pure (inl response)
  known_or_upload none = do
    r ← upload now q.user q.upload_id
    row ← gets (λ d. lookup q.user d.users)
    user ← or_raise row user_not_found
    raise_if (is_demo user.account_kind && not (is_free_demo_fixture fixture r.sha256))
        demo_fixture_only
    raise_if (not (ltb q.page_index r.page_count)) invalid_page
    pure (inr r)

  unfoldable pub check_request : Tx (Response ⊎ Upload)
  unfolding known_or_upload
  check_request = do
    existing ← gets (λ d. lookup (request_key q.user q.stored_key) d.idempotency)
    known_or_upload existing

  -- `deletion` is what `storage.delete` raises for the copy, if it raises.
  module _ (k source_path reservation_id token : ℕ) (deletion : Option Error) where
    -- `except Exception`: the reservation is released, and the error raised again
    abbrev pub released : Ticket → Db → Result (Response × Db) → Result Response × Db
    released ticket d (ok (response, e)) = (ok response, e)
    released ticket d (err x) = release_after q.user ticket deletion x d

    abbrev pub reserved : Upload → Db → Result (Ticket × Db) → Result Response × Db
    reserved r d (ok (ticket, e)) = released ticket e (
        submit s disk enc ident now k source_path ticket
          (not (is_free_demo_fixture fixture r.sha256)) q e)
    reserved r d (err x) = (err x, d)

    abbrev pub checked : Db → Result ((Response ⊎ Upload) × Db) → Result Response × Db
    checked d (ok (inl response, e)) = (ok response, d)
    checked d (ok (inr r, e)) = reserved r d (
        reserve_storage_bytes s disk now reservation_id token q.user r.byte_size "job_copy"
          (some source_path) d)
    checked d (err x) = (err x, d)

    unfoldable pub create_job : Db → Result Response × Db
    unfolding check_request transaction
    create_job d = checked d (check_request d)

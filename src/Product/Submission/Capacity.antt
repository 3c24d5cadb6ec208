-- ===== src/Product/Submission/Capacity.antt =====
-- What an account may still upload and submit: `_assert_upload_capacity`, `_assert_job_capacity` and
-- `upload` of unrender/product/service.py.
use unrender.Base.{
  ℕ, ◌+◌, Bool, true, false, ◌&&◌, ◌||◌, not, Option, none, some, String, ltb, leb, ◌==◌,
  if◌then◌else◌,
}
use unrender.Base.Lists.{count_if}
use unrender.Base.Table.{Table, lookup, sum, nat_eq}
use text.Mathlib.Text.{◌==◌ as str_eq}
use unrender.Product.Settings.{Settings}
use unrender.Product.Schema.{Db, Job, Upload, AccountKind, is_value}
use unrender.Product.Tx.{
  Tx, ◌>>=◌, ◌>>◌, gets, raise_if, or_raise, user_not_found, credits_required, demo_sample_limit,
  upload_quota_reached, upload_record_quota_reached, storage_quota_reached,
  job_record_quota_reached, upload_not_found,
}

abbrev pub is_demo : AccountKind → Bool
is_demo AccountKind.demo = true
is_demo AccountKind.customer = false

-- The bytes of an account's uploads, of the sources of its jobs, and of its pending deletions.
unfoldable pub user_bytes : ℕ → Db → ℕ
user_bytes u d =
    sum (λ k r. if r.user_id == u then r.byte_size else 0) d.uploads
    + sum (λ k j. if j.user_id == u then j.source_byte_size else 0) d.jobs
    + sum (λ k p. if is_value p.user_id u then p.byte_size else 0) d.pending_deletions

-- `NOT EXISTS (SELECT 1 FROM jobs WHERE jobs.upload_id=uploads.id)`
abbrev pub is_unattached : Table ℕ Job → ℕ → Bool
is_unattached jobs k = count_if (λ r. is_value r.1.upload_id k) jobs == 0

abbrev pub fixture_used : Option String → ℕ → Table ℕ Upload → Bool
fixture_used none u uploads = false
fixture_used (some sha) u uploads =
    not (count_if (λ r. r.1.user_id == u && str_eq r.1.sha256 sha) uploads == 0)

module _ (s : Settings) where
  unfoldable pub assert_upload_capacity : ℕ → ℕ → Bool → Option String → Tx Unit
  unfolding user_bytes
  assert_upload_capacity u incoming_bytes require_credit fixture_sha256 = do
    row ← gets (λ d. lookup u d.users)
    user ← or_raise row user_not_found
    raise_if (require_credit && ltb user.credit_balance 1) credits_required
    bytes ← gets (user_bytes u)
    records ← gets (λ d. count_if (λ r. r.1.user_id == u) d.uploads)
    unattached ← gets (λ d. count_if (λ r. r.1.user_id == u && is_unattached d.jobs r.0) d.uploads)
    existing_fixture ← gets (λ d. fixture_used fixture_sha256 u d.uploads)
    raise_if ((is_demo user.account_kind && ltb 0 bytes) || existing_fixture) demo_sample_limit
    raise_if (leb s.max_unattached_uploads unattached) upload_quota_reached
    raise_if (leb s.max_upload_records_per_user records) upload_record_quota_reached
    raise_if (ltb s.max_user_storage_bytes (bytes + incoming_bytes)) storage_quota_reached

  unfoldable pub assert_job_capacity : ℕ → ℕ → Tx Unit
  unfolding user_bytes
  assert_job_capacity u incoming_bytes = do
    row ← gets (λ d. lookup u d.users)
    user ← or_raise row user_not_found
    bytes ← gets (user_bytes u)
    jobs ← gets (λ d. count_if (λ r. r.1.user_id == u) d.jobs)
    raise_if (is_demo user.account_kind && leb 1 jobs) demo_sample_limit
    raise_if (leb s.max_jobs_per_user jobs) job_record_quota_reached
    raise_if (ltb s.max_user_storage_bytes (bytes + incoming_bytes)) storage_quota_reached

-- `WHERE id=? AND user_id=? AND expires_at>?`
abbrev pub live_upload : ℕ → ℕ → Option Upload → Option Upload
live_upload u now none = none
live_upload u now (some r) = if r.user_id == u && ltb now r.expires_at then some r else none

unfoldable pub upload : ℕ → ℕ → ℕ → Tx Upload
upload now u upload_id = do
  row ← gets (λ d. live_upload u now (lookup upload_id d.uploads))
  or_raise row upload_not_found

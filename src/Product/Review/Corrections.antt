-- ===== src/Product/Review/Corrections.antt =====
-- `save_correction`, `restore_version`, `_store_correction` and `approve` of
-- unrender/product/service.py.
use Prim.Native.String.{len}
use unrender.Base.{
  ℕ, ◌+◌, ◌-◌, Bool, true, false, ◌&&◌, ◌||◌, not, Option, none, some, String, ◌==◌, if◌then◌else◌,
}
use unrender.Base.Table.{lookup, put, nat_eq}
use unrender.Product.Settings.{Settings}
use unrender.Product.Schema.{
  Job, review, approved, is_status, Version, VersionKey, version_key_eq, Source,
}
use unrender.Product.Tx.{
  Tx, ◌>>=◌, ◌>>◌, pure, gets, raise_if, or_raise, version_not_found, job_not_editable,
  job_not_approvable, value_error, type_error, integrity_error, invalid_result,
}
use unrender.Product.Admission.{insert_unique}
use unrender.Product.Audit.{audit}
use unrender.Product.Storage.{Disk, next_result_version, assert_retained_byte_capacity}
use unrender.Product.Jobs.Statements.{update_job}
use unrender.Product.Jobs.Requests.{owned_job}
use unrender.Product.Review.Snapshot.{
  Receipt, Codec, Snapshot, latest_row, result_text, review_snapshot, assert_review_revision,
}

abbrev pub version_key : ℕ → ℕ → VersionKey
version_key k version = record { job_id = k; version = version }

-- What both corrections set in the row of the job.
unfoldable pub corrected : ℕ → String → Receipt → Job → Job
corrected now encoded receipt j = record j {
  current_result_json = some encoded;
  extractor = receipt.extractor;
  model_version = receipt.model_version;
  status = review;
  approved_at = none;
  updated_at = now;
}

unfoldable pub approved_row : ℕ → Job → Job
approved_row now j = record j { status = approved; approved_at = some now; updated_at = now }

abbrev pub old_bytes : Option String → ℕ
old_bytes none = 0
old_bytes (some text) = len text

abbrev pub receipt_text : Option (ℕ × Version) → Option String
receipt_text none = none
receipt_text (some r) = some r.1.extraction_receipt_json

abbrev pub owned_version : ℕ → Option Version → Option Version
owned_version u none = none
owned_version u (some v) = if v.user_id == u then some v else none

-- `receipt_json`, or the receipt of the latest version
unfoldable pub receipt_or_latest : ℕ → ℕ → Option String → Tx String
receipt_or_latest u k (some text) = pure text
receipt_or_latest u k none = do
  latest ← gets (λ d. latest_row u k d.versions)
  or_raise (receipt_text latest) type_error

abbrev pub correction : ℕ → ℕ → ℕ → String → String → Version
correction version_id now u encoded receipt_json = record {
  id = version_id;
  user_id = u;
  source = Source.correction;
  chart_json = encoded;
  extraction_receipt_json = receipt_json;
  created_at = now;
}

-- the row of a request whose view of the result is the current one
unfoldable pub reviewed_row : Codec → ℕ → ℕ → String → Tx Job
reviewed_row c u k expected = do
  row ← owned_job u k
  snapshot ← review_snapshot c k row
  assert_review_revision snapshot expected
  pure row

abbrev pub is_approvable : Job → Bool
is_approvable row =
    is_status row.status review
    && elim (result_text row.current_result_json) [ none ↦ false | some text ↦ true ]

abbrev pub is_taken : Option Version → Bool
is_taken none = false
is_taken (some v) = true

-- the INSERT, which violates UNIQUE(job_id, version) if the number is taken
unfoldable pub insert_correction : Settings → ℕ → ℕ → ℕ → Version → Tx Unit
insert_correction s u k version v =
    insert_unique s (some u) false 0 (λ d. is_taken (lookup (version_key k version) d.versions))
      integrity_error (λ d. record d { versions = put (version_key k version) v d.versions })

module _ (c : Codec) (s : Settings) (disk : Disk) (ident version_id now : ℕ) where
  unfoldable pub store_correction : ℕ → Job → String → Option String → Tx Snapshot
  unfolding receipt_or_latest insert_correction
  store_correction k row encoded given_receipt = do
    raise_if (not (is_status row.status review || is_status row.status approved)) job_not_editable
    let u = row.user_id
    receipt_json ← receipt_or_latest u k given_receipt
    receipt ← or_raise (c.parse_receipt receipt_json) value_error
    version ← next_result_version s u k (len encoded) (len receipt_json) none
    assert_retained_byte_capacity s disk
        (len encoded + len receipt_json + (len encoded - old_bytes row.current_result_json))
    insert_correction s u k version (correction version_id now u encoded receipt_json)
    update_job k (λ j. j.user_id == u) (corrected now encoded receipt)
    current ← owned_job u k
    snapshot ← review_snapshot c k current
    audit s ident now (some u) (some k) "result_corrected"
    pure snapshot

  -- `validated` is the encoded chart, if the edited table is valid
  unfoldable pub save_correction : ℕ → ℕ → Option String → String → Tx Snapshot
  unfolding reviewed_row store_correction
  save_correction u k validated expected = do
    encoded ← or_raise validated invalid_result
    row ← reviewed_row c u k expected
    store_correction k row encoded none

  unfoldable pub restore_version : ℕ → ℕ → ℕ → String → Tx Snapshot
  unfolding reviewed_row store_correction
  restore_version u k version expected = do
    row ← reviewed_row c u k expected
    found ← gets (λ d. owned_version u (lookup (version_key k version) d.versions))
    saved ← or_raise found version_not_found
    store_correction k row saved.chart_json (some saved.extraction_receipt_json)

  -- the writes of an approval, and its view of the result
  unfoldable pub store_approval : ℕ → ℕ → Tx Snapshot
  store_approval u k = do
    update_job k (λ j. j.user_id == u) (approved_row now)
    current ← owned_job u k
    snapshot ← review_snapshot c k current
    audit s ident now (some u) (some k) "result_approved"
    pure snapshot

  unfoldable pub approve : ℕ → ℕ → String → Tx Snapshot
  unfolding reviewed_row store_approval
  approve u k expected = do
    row ← reviewed_row c u k expected
    raise_if (not (is_approvable row)) job_not_approvable
    store_approval u k

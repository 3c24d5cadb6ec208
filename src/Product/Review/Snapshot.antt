-- ===== src/Product/Review/Snapshot.antt =====
-- The view of a result and its revision: `_review_row`, `_review_snapshot`, `get_job` and
-- `_assert_review_revision` of unrender/product/service.py. A snapshot carries the row that
-- `public_job` shows.

use Prim.Native.Char.{code}
use unrender.Base.{
  ℕ, Bool, true, ◌&&◌, ◌||◌, not, Option, none, some, String, [], ◌∷◌, ltb, ◌==◌, if◌then◌else◌,
}
use unrender.Base.Table.{Table, nat_eq}
use text.Mathlib.Text.{◌==◌ as str_eq}
use unrender.Product.Schema.{Job, Status, Version, VersionKey, version_key_eq}
use unrender.Product.Tx.{
  Tx, ◌>>=◌, gets, raise_if, or_raise, result_history_inconsistent, result_conflict,
}
use unrender.Product.Jobs.Requests.{owned_job}

-- The fields of `ExtractionReceipt` that the review reads.
pub record Receipt : Type 0 where
  pub extractor : Option String
  pub model_version : Option String

-- The list that `_review_snapshot` writes as JSON and hashes.
pub record Identity : Type 0 where
  pub job_id : ℕ
  pub version_id : ℕ
  pub chart_sha256 : String
  pub receipt_sha256 : String
  pub attempt : ℕ
  pub status : Status
  pub approved_at : Option ℕ

-- The validation of a stored receipt, SHA-256 in hexadecimal digits, and the JSON encoder.
pub record Codec : Type 0 where
  pub parse_receipt : String → Option Receipt
  pub sha256 : String → String
  pub dump_identity : Identity → String

pub record Reviewed : Type 0 where
  pub result_version : ℕ
  pub result_sha256 : String
  pub review_revision : String
  pub extraction_receipt : Receipt
  pub extraction_receipt_sha256 : String

pub record Snapshot : Type 0 where
  pub job : Job
  pub reviewed : Option Reviewed

-- the later of a version and the latest of the rest
abbrev pub later : ℕ × Version → Option (ℕ × Version) → Option (ℕ × Version)
later a none = some a
later a (some b) = if ltb b.0 a.0 then some a else some b

-- `WHERE job_id=? AND user_id=? ORDER BY version DESC LIMIT 1`
unfoldable pub latest_row : ℕ → ℕ → Table VersionKey Version → Option (ℕ × Version)
latest_row u job [] = none
latest_row u job ((k, v) ∷ t) =
    let rest = latest_row u job t in
    if k.job_id == job && v.user_id == u then later (k.version, v) rest else rest

-- `not row["current_result_json"]` fails
unfoldable pub result_text : Option String → Option String
result_text none = none
result_text (some text) = if str_eq text "" then none else some text

unfoldable pub isascii : String → Bool
isascii String.[] = true
isascii (String.◌∷◌ c t) = ltb (code c) 128 && isascii t

module _ (c : Codec) where
  abbrev pub identity_of : ℕ → Job → Version → Identity
  identity_of k row v = record {
    job_id = k;
    version_id = v.id;
    chart_sha256 = c.sha256 v.chart_json;
    receipt_sha256 = c.sha256 v.extraction_receipt_json;
    attempt = row.attempt;
    status = row.status;
    approved_at = row.approved_at;
  }

  abbrev pub revision_of : ℕ → Job → Version → String
  revision_of k row v = c.sha256 (c.dump_identity (identity_of k row v))

  abbrev pub reviewed_of : ℕ → Job → ℕ × Version → Receipt → Snapshot
  reviewed_of k row (n, v) receipt = record {
    job = row;
    reviewed = some record {
      result_version = n;
      result_sha256 = c.sha256 v.chart_json;
      review_revision = revision_of k row v;
      extraction_receipt = receipt;
      extraction_receipt_sha256 = c.sha256 v.extraction_receipt_json;
    };
  }

  -- the snapshot, or none where the history is inconsistent
  unfoldable pub snapshot_of_version : ℕ → Job → String → Option (ℕ × Version) → Option Snapshot
  snapshot_of_version k row text none = none
  snapshot_of_version k row text (some (n, v)) =
      if str_eq v.chart_json text
      then elim (c.parse_receipt v.extraction_receipt_json) [
        | none ↦ none
        | some receipt ↦ some (reviewed_of k row (n, v) receipt)
      ]
      else none

  unfoldable pub snapshot_of_text :
      ℕ → Job → Table VersionKey Version → Option String → Option Snapshot
  unfolding snapshot_of_version
  snapshot_of_text k row t none = some record { job = row; reviewed = none }
  snapshot_of_text k row t (some text) = snapshot_of_version k row text (latest_row row.user_id k t)

  unfoldable pub snapshot_of : ℕ → Job → Table VersionKey Version → Option Snapshot
  unfolding snapshot_of_text
  snapshot_of k row t = snapshot_of_text k row t (result_text row.current_result_json)

  unfoldable pub review_snapshot : ℕ → Job → Tx Snapshot
  review_snapshot k row = do
    snapshot ← gets (λ d. snapshot_of k row d.versions)
    or_raise snapshot result_history_inconsistent

  unfoldable pub get_job : ℕ → ℕ → Tx Snapshot
  get_job u k = do row ← owned_job u k; review_snapshot k row

-- `not actual`, or another text than the expected one
abbrev pub conflicts : String → Option Reviewed → Bool
conflicts expected none = true
conflicts expected (some r) =
    str_eq r.review_revision "" || not (isascii expected) || not (str_eq r.review_revision expected)

unfoldable pub assert_review_revision : Snapshot → String → Tx Unit
assert_review_revision snapshot expected =
    raise_if (conflicts expected snapshot.reviewed) result_conflict

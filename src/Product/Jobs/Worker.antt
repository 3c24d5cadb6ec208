-- ===== src/Product/Jobs/Worker.antt =====
-- The worker's side of a job: `claim_next_job`, `heartbeat_claim`, `_update_claim_progress`,
-- `_release_claim_for_shutdown` and the terminal commit of `process_one` in service.py.
use unrender.Base.{
  ℕ, ◌+◌, Bool, true, false, ◌&&◌, ◌||◌, not, Option, none, some, String, [], ◌∷◌, ltb, leb, ◌==◌,
  if◌then◌else◌,
}
use unrender.Base.Table.{Table, lookup, put, nat_eq}
use unrender.Product.Settings.{Settings}
use unrender.Product.Schema.{
  Db, Job, queued, is_status, is_value, Outcome, Version, VersionKey, version_key_eq, Source,
}
use unrender.Product.Tx.{
  Tx, ◌>>=◌, ◌>>◌, pure, gets, raise_if, given, runtime_error, integrity_error,
}
use Prim.Native.String.{len}
use unrender.Product.Storage.{next_result_version}
use unrender.Product.Admission.{insert_row}
use unrender.Product.Audit.{audit}
use unrender.Product.Jobs.Updates.{
  WorkerClaim, holds_claim, claimed, renewed, progressed, released, published,
}
use unrender.Product.Jobs.Statements.{update_job, complete_attempt}
use unrender.Product.Jobs.Finish.{claim_row, attempt_key, finish_cancelled_claim_in_transaction}

-- `ORDER BY created_at,id LIMIT 1`
unfoldable pub comes_first : ℕ × Job → ℕ × Job → Bool
comes_first (k, j) (l, q) =
    ltb j.created_at q.created_at || (j.created_at == q.created_at && leb k l)

abbrev pub earlier : ℕ × Job → Option (ℕ × Job) → Option (ℕ × Job)
earlier a none = some a
earlier a (some b) = if comes_first a b then some a else some b

unfoldable pub next_queued : Table ℕ Job → Option (ℕ × Job)
unfolding comes_first
next_queued [] = none
next_queued ((k, j) ∷ t) =
    let rest = next_queued t in if is_status j.status queued then earlier (k, j) rest else rest

-- What the extractor's validated output contributes to the terminal commit.
pub record Output : Type 0 where
  pub extractor : String
  pub model_version : String
  pub raw : String
  pub encoded : String
  pub receipt : String

module _ (s : Settings) (ident now : ℕ) where
  -- `status='queued' AND lease_generation=?`
  abbrev pub same_queued : Job → Job → Bool
  same_queued row j = is_status j.status queued && j.lease_generation == row.lease_generation

  abbrev pub claim_of : ℕ → ℕ → ℕ → Job → WorkerClaim
  claim_of owner token k row = record {
    job_id = k;
    user_id = row.user_id;
    attempt = row.attempt;
    generation = row.lease_generation + 1;
    token = token;
    owner = owner;
    row = claimed s owner token now row;
  }

  unfoldable pub claim_row_of : ℕ → ℕ → ℕ × Job → Tx (Option WorkerClaim)
  claim_row_of owner token (k, row) = do
    changed ← update_job k (same_queued row) (claimed s owner token now)
    if not changed then pure none else do
      audit s ident now (some row.user_id) (some k) "job_started"
      pure (some (claim_of owner token k row))

  unfoldable pub claim_next_job : ℕ → ℕ → Tx (Option WorkerClaim)
  unfolding claim_row_of
  claim_next_job owner token = do
    row ← gets (λ d. next_queued d.jobs)
    given row none (claim_row_of owner token)

  unfoldable pub heartbeat_claim : WorkerClaim → Tx Bool
  heartbeat_claim c = update_job c.job_id (holds_claim c now) (renewed s now)

  unfoldable pub update_claim_progress : ℕ → WorkerClaim → Tx Bool
  update_claim_progress checked c = do
    row ← claim_row c checked
    given row false λ current. update_job c.job_id (holds_claim c now) (progressed now)

  unfoldable pub release_row : WorkerClaim → Job → Tx Bool
  release_row c current = if current.provider_dispatched then pure false else do
    changed ←
        update_job c.job_id (λ j. holds_claim c now j && not j.provider_dispatched) (released now)
    if not changed then pure false else do
      audit s ident now (some c.user_id) (some c.job_id) "job_released_for_shutdown"
      pure true

  unfoldable pub release_claim_for_shutdown : ℕ → WorkerClaim → Tx Bool
  unfolding release_row
  release_claim_for_shutdown checked c = do
    row ← claim_row c checked
    given row false (release_row c)

  -- `source = "extraction" if version == 1 else "reprocess"`
  abbrev source_of : ℕ → Source
  source_of version = if version == 1 then Source.extraction else Source.reprocess

  abbrev version_key : ℕ → ℕ → VersionKey
  version_key job version = record { job_id = job; version = version }

  abbrev pub add_version : ℕ → ℕ → Version → Db → Db
  add_version job version v d = record d { versions = put (version_key job version) v d.versions }

  unfoldable pub publish_row : ℕ → WorkerClaim → Output → Job → Tx Bool
  publish_row version_id c out current =
      if current.cancel_requested
      then (do finish_cancelled_claim_in_transaction s ident now c current; pure true)
      else do
        version ←
            next_result_version s c.user_id c.job_id (len out.encoded) (len out.receipt)
              (some c.attempt)
        existing ← gets (λ d. lookup (version_key c.job_id version) d.versions)
        raise_if (elim existing [ none ↦ false | some v ↦ true ]) integrity_error
        insert_row s (some c.user_id) true 0 (
            add_version c.job_id version (record {
              id = version_id;
              user_id = c.user_id;
              source = source_of version;
              chart_json = out.encoded;
              extraction_receipt_json = out.receipt;
              created_at = now;
            }))
        changed ←
            update_job c.job_id
              (λ j. holds_claim c now j && is_value j.result_reservation_attempt c.attempt)
              (published now out.extractor out.model_version out.raw out.encoded)
        raise_if (not changed) runtime_error
        complete_attempt (attempt_key c) now Outcome.succeeded
        audit s ident now (some c.user_id) (some c.job_id) "extraction_completed"
        pure true

  -- the terminal commit of `process_one`, which returns True whether or not it published
  unfoldable pub publish_result : ℕ → ℕ → WorkerClaim → Output → Tx Bool
  unfolding publish_row
  publish_result version_id checked c out = do
    row ← claim_row c checked
    given row true (publish_row version_id c out)

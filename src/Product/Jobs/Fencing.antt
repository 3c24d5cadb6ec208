-- ===== src/Product/Jobs/Fencing.antt =====
-- A worker whose lease is lost changes nothing: every write of a worker to a job is fenced by the
-- owner, the token, the generation and the expiry of its lease.
use unrender.Base.{ℕ, ◌≡◌, ap, true, false, none, String}
use unrender.Base.Table.{lookup, nat_eq}
use unrender.Product.Settings.{Settings}
use unrender.Product.Schema.{Db, Job}
use unrender.Product.Tx.{Tx, ok, ◌>>=◌, given}
use unrender.Product.Jobs.Updates.{WorkerClaim, holds_claim}
use unrender.Product.Jobs.Statements.{row_if, update_job-unmatched}
use unrender.Product.Jobs.Finish.{claim_row, finish_failed_claim, finish_cancelled_claim}
use unrender.Product.Jobs.Worker.{
  Output, heartbeat_claim, update_claim_progress, release_claim_for_shutdown, publish_result,
}
use unrender.Product.Jobs.Dispatch.{begin_provider_dispatch}

-- No row satisfies the WHERE clause of the claim.
abbrev pub IsStale : WorkerClaim → ℕ → Db → Type 0
IsStale c now d = row_if (holds_claim c now) (lookup c.job_id d.jobs) ≡ none

stale_row :
    {B : Type 0} (c : WorkerClaim) (checked : ℕ) (d : Db) (b : B) (f : Job → Tx B)
    → IsStale c checked d
    → (do row ← claim_row c checked; given row b f) d ≡ ok (b, d)
unfolding claim_row ◌>>=◌
stale_row c checked d b f h = ap (λ o. given o b f d) h

-- A claim is stale if no row satisfies its WHERE clause: the job is gone or not running, or its owner, token, generation
-- or attempt is another, or the lease has expired. If it is stale at both clock readings of an operation, then
-- heartbeat, progress, provider dispatch, release, failure and cancellation return False, the terminal
-- commit returns True, and every one of them leaves the whole database as it was.
pub stale-unchanged :
    (s : Settings) (ident version_id checked now : ℕ) (c : WorkerClaim) (code : String)
    (out : Output) (d : Db)
    → IsStale c checked d
    → IsStale c now d
    → (heartbeat_claim s ident now c d ≡ ok (false, d))
      × (update_claim_progress s ident now checked c d ≡ ok (false, d))
      × (begin_provider_dispatch s ident now checked c d ≡ ok (false, d))
      × (release_claim_for_shutdown s ident now checked c d ≡ ok (false, d))
      × (finish_failed_claim s ident now checked c code d ≡ ok (false, d))
      × (finish_cancelled_claim s ident now checked c d ≡ ok (false, d))
      × (publish_result s ident now version_id checked c out d ≡ ok (true, d))
unfolding heartbeat_claim update_claim_progress begin_provider_dispatch release_claim_for_shutdown
    finish_failed_claim finish_cancelled_claim publish_result
stale-unchanged s ident version_id checked now c code out d h k = (
  update_job-unmatched c.job_id (holds_claim c now) _ d k,
  stale_row c checked d false _ h,
  stale_row c checked d false _ h,
  stale_row c checked d false _ h,
  stale_row c checked d false _ h,
  stale_row c checked d false _ h,
  stale_row c checked d true _ h,
)

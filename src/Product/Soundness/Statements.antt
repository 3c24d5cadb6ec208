-- ===== src/Product/Soundness/Statements.antt =====
-- Each statement of a transaction keeps the invariant.
use unrender.Base.{ℕ, ◌+◌, ◌≤◌, ◌≡◌, ◌≢◌, true, false, ◌&&◌, some, arith, ◌==◌}
use unrender.Base.Table.{lookup, put, lookup-put, sum-put, nat_eq}
use unrender.Base.Table.Keyed.{put-IsKeyed}
use unrender.Product.Settings.{Settings}
use unrender.Product.Schema.{Db, Job, ledger_key_eq, attempt_key_eq}
use unrender.Product.Admission.{one_if}
use unrender.Product.Credits.{ledger_count, refundable, is_refundable}
use unrender.Product.Soundness.Invariant.{IsCoherent, HasHeadroom}
use unrender.Product.Soundness.Rows.{KeepsAttempt}

abbrev pub with_job : ℕ → Job → Db → Db
with_job k j d = record d { jobs = put k j d.jobs }

module _ (k : ℕ) (j j' : Job) (d : Db) (found : lookup k d.jobs ≡ some j)
    (keeps : KeepsAttempt j j') where
  pub with_job-IsCoherent : IsCoherent d → IsCoherent (with_job k j' d)
  with_job-IsCoherent h = record {
    consistent =
        λ i q p. ground (arith, lookup-put k i j' d.jobs, h.consistent i q, keeps.consistent);
    keyed = put-IsKeyed k j' d.jobs h.keyed;
    balanced = record { at = h.balanced.at };
    refund_of = λ i a x q p r. ground (
      arith,
      lookup-put k i j' d.jobs,
      h.refund_of i a x q,
      h.refund_of k a x j,
      keeps.same_attempt,
      keeps.same_dispatch,
      keeps.stays_settled,
    );
    reserve_of = λ i a x q p r. ground (
      arith,
      lookup-put k i j' d.jobs,
      h.reserve_of i a x q,
      h.reserve_of k a x j,
      keeps.same_attempt,
    );
    call_of = λ key x q p r. ground (
      arith,
      lookup-put k key.job_id j' d.jobs,
      h.call_of key x q,
      h.call_of key x j,
      keeps.same_attempt,
      keeps.same_dispatch,
    );
    exclusive = h.exclusive;
    single = h.single;
  }

-- The credits that are held, when a job's row is replaced.
module _ (k : ℕ) (j j' : Job) (d : Db) (found : lookup k d.jobs ≡ some j) where
  pub refundable-with_job :
      (u : ℕ)
      → refundable u (put k j' d.jobs) + one_if (j.user_id == u && is_refundable j)
        ≡ refundable u d.jobs + one_if (j'.user_id == u && is_refundable j')
  unfolding refundable
  refundable-with_job u =
      sum-put (λ i q. one_if (q.user_id == u && is_refundable q)) k j' j d.jobs found

  refundable_le :
      (u : ℕ)
      → j'.user_id ≡ j.user_id
      → (is_refundable j' ≡ true → is_refundable j ≡ true)
      → refundable u (put k j' d.jobs) ≤ refundable u d.jobs
  refundable_le u same less = ground (arith, refundable-with_job u)

  pub less_credit-HasHeadroom :
      (s : Settings)
      → j'.user_id ≡ j.user_id
      → (is_refundable j' ≡ true → is_refundable j ≡ true)
      → HasHeadroom s d
      → HasHeadroom s (with_job k j' d)
  less_credit-HasHeadroom s same less h = record {
    at = λ u. omega (arith, h.at u, refundable_le u same less);
  }

  -- A change of one user's job leaves the other users' headroom.
  pub others_keep_headroom :
      (s : Settings) (v : ℕ)
      → j'.user_id ≡ j.user_id
      → j.user_id ≢ v
      → HasHeadroom s d
      → ledger_count v d.ledger + refundable v (put k j' d.jobs)
        ≤ s.max_credit_ledger_records_per_user
  others_keep_headroom s v same other h = ground (arith, h.at v, refundable-with_job v)

  -- The line of the ledger that the job's own credit had reserved is free now.
  pub freed_line :
      (s : Settings)
      → HasHeadroom s d
      → is_refundable j ≡ true
      → is_refundable j' ≡ false
      → ledger_count j.user_id d.ledger + 1 + refundable j.user_id (put k j' d.jobs)
        ≤ s.max_credit_ledger_records_per_user
  freed_line s h p q = ground (arith, h.at j.user_id, refundable-with_job j.user_id)

-- What the audit log, the allowance, the versions and the billing events hold is not read here.
abbrev pub SameCore : Db → Db → Type 0
SameCore d e =
    (e.users ≡ d.users) × (e.jobs ≡ d.jobs) × (e.ledger ≡ d.ledger) × (e.attempts ≡ d.attempts)

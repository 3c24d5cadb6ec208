-- ===== src/Product/Submission/Sound.antt =====
-- A submission keeps the invariant of the jobs, the credits and the provider calls.
use unrender.Base.{
  ℕ, ◌+◌, ◌≡◌, ◌≢◌, refl, sym, subst, ap, inl, inr, Bool, true, false, ◌&&◌, none, some, arith,
  ◌==◌,
}
use unrender.Base.Table.{lookup, put, lookup-put, sum-put_new, nat_eq}
use unrender.Base.Table.Keyed.{put-IsKeyed}
use unrender.Product.Settings.{Settings}
use unrender.Product.Schema.{
  Db, Job, Upload, Attempt, AttemptKey, LedgerKey, ledger_key_eq, attempt_key_eq,
}
use unrender.Product.Admission.{one_if}
use unrender.Product.Credits.{ledger_count, refundable, is_refundable}
use unrender.Product.Soundness.Invariant.{IsConsistent, IsCoherent, HasHeadroom}
use unrender.Product.Soundness.Statements.{SameCore}
use unrender.Product.Soundness.Ledger.{KeyFits, Posted-IsCoherent, Posted-HasHeadroom}
use unrender.Product.Soundness.Settled.{IsSound}
use unrender.Product.Submission.Requests.{Response, Encoder}
use unrender.Product.Submission.{Submission, new_job, add_job}
use unrender.Product.Submission.Submitted.{IsSubmitted, Charged}

-- A fresh job id: neither the ledger nor the provider calls have heard of it.
pub record IsFreshJob (k : ℕ) (d : Db) : Type 0 where
  pub unreserved : (a : ℕ) → lookup (LedgerKey.reserve k a) d.ledger ≡ none
  pub unrefunded : (a : ℕ) → lookup (LedgerKey.refund k a) d.ledger ≡ none
  pub uncalled : (key : AttemptKey) (x : Attempt) → lookup key d.attempts ≡ some x → key.job_id ≢ k

-- The invariant reads four tables.
with_core : Db → Db → Db
with_core e d = record e {
  users = d.users;
  jobs = d.jobs;
  ledger = d.ledger;
  attempts = d.attempts;
}

with_core-eq : (d e : Db) → SameCore d e → with_core e d ≡ e
unfolding with_core
with_core-eq d e p =
    λ i. record e { users = sym p.0 i; jobs = sym p.1 i; ledger = sym p.2 i; attempts = sym p.3 i }

pub SameCore-IsCoherent : (d e : Db) → SameCore d e → IsCoherent d → IsCoherent e
unfolding with_core
SameCore-IsCoherent d e p h = subst IsCoherent (with_core-eq d e p) (record {
  consistent = h.consistent;
  keyed = h.keyed;
  balanced = record { at = h.balanced.at };
  refund_of = h.refund_of;
  reserve_of = h.reserve_of;
  call_of = h.call_of;
  exclusive = h.exclusive;
  single = h.single;
})

pub SameCore-IsSound : (s : Settings) (d e : Db) → SameCore d e → IsSound s d → IsSound s e
unfolding with_core
SameCore-IsSound s d e p h = record {
  coherent = SameCore-IsCoherent d e p h.coherent;
  headroom = subst (HasHeadroom s) (with_core-eq d e p) (record { at = h.headroom.at });
}

new_job-IsConsistent :
    (s : Settings) (now u upload_id path : ℕ) (r : Upload) (costs : Bool)
    → IsConsistent (new_job s now u upload_id path r costs)
unfolding new_job
new_job-IsConsistent s now u upload_id path r costs = ground arith

new_job_fields :
    (s : Settings) (now u upload_id path : ℕ) (r : Upload) (costs : Bool)
    → ((new_job s now u upload_id path r costs).user_id ≡ u)
      × ((new_job s now u upload_id path r costs).attempt ≡ 1)
      × (is_refundable (new_job s now u upload_id path r costs) ≡ costs)
unfolding new_job
new_job_fields s now u upload_id path r costs = ground arith

module _ (s : Settings) (k : ℕ) (j : Job) (d : Db) (consistent : IsConsistent j)
    (fresh : IsFreshJob k d) (unused : lookup k d.jobs ≡ none) (h : IsSound s d) where
  add_job-IsCoherent : IsCoherent (add_job k j d)
  add_job-IsCoherent = record {
    consistent =
        λ i q p. ground (arith, lookup-put k i j d.jobs, h.coherent.consistent i q, consistent);
    keyed = put-IsKeyed k j d.jobs h.coherent.keyed;
    balanced = record { at = h.coherent.balanced.at };
    refund_of = λ i a x q p r.
        ground
          (arith, lookup-put k i j d.jobs, h.coherent.refund_of i a x q, fresh.unrefunded a, p);
    reserve_of = λ i a x q p r.
        ground
          (arith, lookup-put k i j d.jobs, h.coherent.reserve_of i a x q, fresh.unreserved a, p);
    call_of = λ key x q p r.
        ground (
          arith,
          lookup-put k key.job_id j d.jobs,
          h.coherent.call_of key x q,
          fresh.uncalled key x,
        );
    exclusive = h.coherent.exclusive;
    single = h.coherent.single;
  }

  refundable-add_job :
      (u : ℕ)
      → refundable u (put k j d.jobs)
        ≡ refundable u d.jobs + one_if (j.user_id == u && is_refundable j)
  unfolding refundable
  refundable-add_job u =
      sum-put_new (λ i q. one_if (q.user_id == u && is_refundable q)) k j d.jobs unused

  module _ (before after : Db) (same : SameCore (add_job k j d) before) where
    IsCoherent-before : IsCoherent before
    IsCoherent-before = SameCore-IsCoherent (add_job k j d) before same add_job-IsCoherent

    refundable_before :
        (v : ℕ)
        → ledger_count v before.ledger + refundable v before.jobs
          ≡ ledger_count v d.ledger
            + (refundable v d.jobs + one_if (j.user_id == v && is_refundable j))
    refundable_before v =
        let moved = refundable-add_job v in
        let jobs = ap (refundable v) same.1 in
        let lines = ap (ledger_count v) same.2 in omega (arith, moved, jobs, lines)

    free-IsSound : is_refundable j ≡ false → IsSound s before
    free-IsSound free = record {
      coherent = IsCoherent-before;
      headroom = record { at = λ v. ground (arith, refundable_before v, h.headroom.at v, free) };
    }

    reserve-KeyFits : j.attempt ≡ 1 → KeyFits before (LedgerKey.reserve k 1)
    reserve-KeyFits first q p =
        ground (arith, ap (lookup k) same.1, lookup-put k k j d.jobs, first, p)

    Charged-IsSound :
        (costs : Bool)
        → j.attempt ≡ 1
        → is_refundable j ≡ costs
        → Charged s j.user_id k costs before after
        → IsSound s after
    Charged-IsSound false first cost p = subst (IsSound s) (sym p) (free-IsSound cost)
    Charged-IsSound true first cost (inl r) =
        absurd (cc (r.known, fresh.unreserved 1, ap (lookup (LedgerKey.reserve k 1)) same.2))
    Charged-IsSound true first cost (inr p) = record {
      coherent =
          Posted-IsCoherent s j.user_id _ _ false before after p IsCoherent-before
            (reserve-KeyFits first);
      headroom =
          Posted-HasHeadroom s j.user_id _ _ false before after p (p.room_for_refunds refl)
            λ v other. ground (arith, refundable_before v, h.headroom.at v, other);
    }

-- A submission with a fresh job id keeps the invariant.
pub submitted-IsSound :
    (s : Settings) (enc : Encoder) (now k source_path : ℕ) (costs : Bool) (q : Submission) (d : Db)
    (response : Response) (e : Db)
    → IsSubmitted s enc now k source_path costs q d response e
    → IsFreshJob k d
    → IsSound s d
    → IsSound s e
submitted-IsSound s enc now k source_path costs q d response e done fresh h =
    let j = new_job s now q.user q.upload_id source_path done.source costs in
    let fields = new_job_fields s now q.user q.upload_id source_path done.source costs in
    SameCore-IsSound s done.after e done.same_after (
      Charged-IsSound s k j d
        (new_job-IsConsistent s now q.user q.upload_id source_path done.source costs) fresh
        done.unused h done.before done.after done.same_before costs fields.1 fields.2
        (subst (λ u. Charged s u k costs done.before done.after) (sym fields.0) done.charged))

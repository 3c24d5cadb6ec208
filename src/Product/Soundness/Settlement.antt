-- ===== src/Product/Soundness/Settlement.antt =====
-- The settlement of a job, in each of its forms, keeps the invariant.
use unrender.Base.{ℕ, ◌≡◌, subst, Bool, true, false, ◌&&◌, not, some, String, arith, if◌then◌else◌}
use unrender.Base.Table.{lookup, nat_eq}
use unrender.Product.Settings.{Settings}
use unrender.Product.Schema.{Db, Job, AttemptKey, LedgerKey, Outcome, queued, running, is_status}
use unrender.Product.Tx.{Tx, ◌>>◌, pure, when}
use unrender.Product.Tx.Ensures.{Ensures, Ensures-pure, Ensures-bind, Ensures-when}
use unrender.Product.Audit.{audit}
use unrender.Product.Credits.{is_refundable}
use unrender.Product.Jobs.Updates.{
  WorkerClaim, holds_claim, finished_failed, finished_cancelled, cancelled_queued,
}
use unrender.Product.Jobs.Statements.{complete_attempt, Ensures-update_known}
use unrender.Product.Jobs.Finish.{
  refund, finish_failed_claim_in_transaction, finish_cancelled_claim_in_transaction,
  finish_cancelled_queued_in_transaction,
}
use unrender.Product.Jobs.Requests.{is_settled}
use unrender.Product.Soundness.Rows.{
  finished_failed-KeepsAttempt, finished_cancelled-KeepsAttempt, cancelled_queued-KeepsAttempt,
}
use unrender.Product.Soundness.Ledger.{KeyFits, HasLine}
use unrender.Product.Soundness.Settled.{
  IsSound, Settled, audit-IsSound, complete-IsSound, refund-IsSound, with_job-Settled,
}

-- `holds_claim` taken apart.
pub holds_claim_parts :
    (c : WorkerClaim) (now : ℕ) (j : Job)
    → holds_claim c now j ≡ true
    → (j.user_id ≡ c.user_id)
      × (j.attempt ≡ c.attempt)
      × (is_status j.status running ≡ true)
      × (j.lease_generation ≡ c.generation)
unfolding holds_claim
holds_claim_parts c now j h = ground arith

module _ (s : Settings) (ident now : ℕ) (k : ℕ) (j : Job) (d : Db) (h : Settled s k j d) where
  -- the refund that follows, if the credit was held and no provider was called
  refund_if-IsSound :
      (u a : ℕ) (reason : String)
      → j.user_id ≡ u
      → j.attempt ≡ a
      → Ensures
          (when (j.reservation_active && not j.provider_dispatched) (refund s now u k a reason))
          d
          (λ _ e. IsSound s e)
  refund_if-IsSound u a reason same_user same_attempt =
      Ensures-when _ d _ _
        (λ held.
          refund-IsSound s ident now u k a reason d h.sound
            (subst (λ n. KeyFits d (LedgerKey.refund k n)) same_attempt (h.fits (ground arith)))
            (subst (λ v. HasLine s v d) same_user (h.line held)))
        (λ _. h.sound)

  -- the end of a settlement: the refund, the outcome of the provider's attempt, and the audit event
  pub settlement-IsSound :
      (u a : ℕ) (reason event_type : String) (key : AttemptKey) (outcome : Outcome) (r : Bool)
      → j.user_id ≡ u
      → j.attempt ≡ a
      → Ensures
          (do
            when (j.reservation_active && not j.provider_dispatched) (refund s now u k a reason)
            when j.provider_dispatched (complete_attempt key now outcome)
            audit s ident now (some u) (some k) event_type
            pure r)
          d
          (λ _ e. IsSound s e)
  settlement-IsSound u a reason event_type key outcome r same_user same_attempt =
      Ensures-bind _ d _ _ _ (refund_if-IsSound u a reason same_user same_attempt) λ _ e p.
        Ensures-bind _ e _ _ _
          (Ensures-when _ e _ _ (λ _. complete-IsSound s ident now key outcome e p) (λ _. p))
          λ _ f q.
            Ensures-bind _ f _ _ _ (audit-IsSound s ident now (some u) (some k) event_type f q)
              λ _ g x. Ensures-pure _ g r x

  -- the same for a job that was never claimed in this attempt
  pub withdrawal-IsSound :
      (reason event_type : String) (r : Bool)
      → j.provider_dispatched ≡ false
      → Ensures
          (do
            when j.reservation_active (refund s now j.user_id k j.attempt reason)
            audit s ident now (some j.user_id) (some k) event_type
            pure r)
          d
          (λ _ e. IsSound s e)
  withdrawal-IsSound reason event_type r undispatched =
      Ensures-bind _ d _ _ _
        (Ensures-when _ d _ _
          (λ held.
            refund-IsSound s ident now j.user_id k j.attempt reason d h.sound (h.fits undispatched)
              (h.line (ground arith)))
          (λ _. h.sound))
        λ _ e p.
          Ensures-bind _ e _ _ _
            (audit-IsSound s ident now (some j.user_id) (some k) event_type e p)
            λ _ f q. Ensures-pure _ f r q

-- Every settlement leaves a job that is not in flight and holds no credit.
module _ (j : Job) (now : ℕ) where
  finished_failed_settled :
      (code : String)
      → (is_settled (finished_failed now code j).status ≡ true)
        × (is_refundable (finished_failed now code j) ≡ false)
  unfolding finished_failed
  finished_failed_settled code = ground arith

  finished_cancelled_settled :
      (is_settled (finished_cancelled now j).status ≡ true)
      × (is_refundable (finished_cancelled now j) ≡ false)
  unfolding finished_cancelled
  finished_cancelled_settled = ground arith

  cancelled_queued_settled :
      (is_settled (cancelled_queued now j).status ≡ true)
      × (is_refundable (cancelled_queued now j) ≡ false)
  unfolding cancelled_queued
  cancelled_queued_settled = ground arith

-- What an update hands on: nothing has changed, or the row has.
abbrev pub Changed : (Db → Type 0) → (Db → Type 0) → Bool → Db → Type 0
Changed P Q false e = P e
Changed P Q true e = Q e

pub Ensures-if_changed :
    (P Q R : Db → Type 0) (b : Bool) (m : Tx Bool) (e : Db)
    → Changed P Q b e
    → (P e → R e)
    → (Q e → Ensures m e (λ _ f. R f))
    → Ensures (if not b then pure false else m) e (λ _ f. R f)
Ensures-if_changed P Q R true m e h g k = k h
Ensures-if_changed P Q R false m e h g k = Ensures-pure _ e false (g h)

module _ (s : Settings) (ident now : ℕ) (c : WorkerClaim) (current : Job) (d : Db)
    (found : lookup c.job_id d.jobs ≡ some current) (h : IsSound s d) where
  pub finish_failed-IsSound :
      (code : String)
      → Ensures
          (finish_failed_claim_in_transaction s ident now c code current)
          d
          (λ _ e. IsSound s e)
  unfolding finish_failed_claim_in_transaction
  finish_failed-IsSound code =
      Ensures-bind _ d
        (Changed (IsSound s)
          (λ e. Settled s c.job_id current e × (holds_claim c now current ≡ true)))
        _ _
        (Ensures-update_known _ d c.job_id _ _ current found h λ held. (
          with_job-Settled s c.job_id current _ d found h
              (finished_failed-KeepsAttempt current now (h.coherent.consistent _ _ found) code)
              (finished_failed_settled current now code).0
              (finished_failed_settled current now code).1,
          held,
        ))
        λ b e p.
          Ensures-if_changed _ _ (IsSound s) b _ e p (λ q. q)
            λ q.
              let parts = holds_claim_parts c now current q.1 in
              settlement-IsSound s ident now c.job_id current e q.0 _ _ _ _ _ _ true parts.0 parts.1

  pub finish_cancelled-IsSound :
      Ensures (finish_cancelled_claim_in_transaction s ident now c current) d (λ _ e. IsSound s e)
  unfolding finish_cancelled_claim_in_transaction
  finish_cancelled-IsSound =
      Ensures-bind _ d
        (Changed (IsSound s)
          (λ e. Settled s c.job_id current e × (holds_claim c now current ≡ true)))
        _ _
        (Ensures-update_known _ d c.job_id _ _ current found h λ held. (
          with_job-Settled s c.job_id current _ d found h
              (finished_cancelled-KeepsAttempt current now (h.coherent.consistent _ _ found))
              (finished_cancelled_settled current now).0 (finished_cancelled_settled current now).1,
          held,
        ))
        λ b e p.
          Ensures-if_changed _ _ (IsSound s) b _ e p (λ q. q)
            λ q.
              let parts = holds_claim_parts c now current q.1 in
              settlement-IsSound s ident now c.job_id current e q.0 _ _ _ _ _ _ true parts.0 parts.1

module _ (s : Settings) (ident now k : ℕ) (current : Job) (d : Db)
    (found : lookup k d.jobs ≡ some current) (h : IsSound s d) where
  pub cancelled_queued-IsSound :
      is_status current.status queued ≡ true
      → Ensures
          (finish_cancelled_queued_in_transaction s ident now k current)
          d
          (λ _ e. IsSound s e)
  unfolding finish_cancelled_queued_in_transaction
  cancelled_queued-IsSound waiting =
      Ensures-bind _ d (Changed (IsSound s) (Settled s k current)) _ _
        (Ensures-update_known _ d k _ _ current found h λ held.
          with_job-Settled s k current _ d found h
            (cancelled_queued-KeepsAttempt current now (h.coherent.consistent _ _ found) waiting)
            (cancelled_queued_settled current now).0 (cancelled_queued_settled current now).1)
        λ b e p.
          Ensures-if_changed _ _ (IsSound s) b _ e p (λ q. q)
            λ q.
              withdrawal-IsSound s ident now k current e q _ _ true
                ((h.coherent.consistent _ _ found).queued_idle waiting)

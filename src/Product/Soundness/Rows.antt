-- ===== src/Product/Soundness/Rows.antt =====
-- What each update does to one job, as far as the invariant reads it.
use unrender.Base.{ℕ, ◌≡◌, true, false, String, arith}
use unrender.Product.Settings.{Settings}
use unrender.Product.Schema.{Job, queued, running, is_status}
use unrender.Product.Credits.{is_refundable}
use unrender.Product.Jobs.Updates.{
  claimed, renewed, progressed, released, finished_failed, finished_cancelled, cancelled_queued,
  published, recovered, stopped,
}
use unrender.Product.Jobs.Requests.{is_settled, cancel_requested}
use unrender.Product.Soundness.Invariant.{IsConsistent}

-- The job stays within its attempt, and takes no credit.
pub record KeepsAttempt (j j' : Job) : Type 0 where
  pub consistent : IsConsistent j'
  pub same_user : j'.user_id ≡ j.user_id
  pub same_attempt : j'.attempt ≡ j.attempt
  pub same_dispatch : j'.provider_dispatched ≡ j.provider_dispatched
  pub no_new_credit : is_refundable j' ≡ true → is_refundable j ≡ true
  pub stays_settled : is_settled j.status ≡ true → is_settled j'.status ≡ true

module _ (j : Job) (now : ℕ) (ok : IsConsistent j) where
  pub claimed-KeepsAttempt :
      (s : Settings) (owner token : ℕ)
      → is_status j.status queued ≡ true
      → KeepsAttempt j (claimed s owner token now j)
  unfolding claimed
  claimed-KeepsAttempt s owner token h = ground arith

  pub renewed-KeepsAttempt :
      (s : Settings) → is_status j.status running ≡ true → KeepsAttempt j (renewed s now j)
  unfolding renewed
  renewed-KeepsAttempt s h = ground arith

  pub progressed-KeepsAttempt : KeepsAttempt j (progressed now j)
  unfolding progressed
  progressed-KeepsAttempt = ground arith

  pub cancel_requested-KeepsAttempt : KeepsAttempt j (cancel_requested now j)
  cancel_requested-KeepsAttempt = ground arith

  pub released-KeepsAttempt :
      is_status j.status running ≡ true
      → j.provider_dispatched ≡ false
      → KeepsAttempt j (released now j)
  unfolding released
  released-KeepsAttempt h k = ground arith

  pub finished_failed-KeepsAttempt : (code : String) → KeepsAttempt j (finished_failed now code j)
  unfolding finished_failed
  finished_failed-KeepsAttempt code = ground arith

  pub finished_cancelled-KeepsAttempt : KeepsAttempt j (finished_cancelled now j)
  unfolding finished_cancelled
  finished_cancelled-KeepsAttempt = ground arith

  pub cancelled_queued-KeepsAttempt :
      is_status j.status queued ≡ true → KeepsAttempt j (cancelled_queued now j)
  unfolding cancelled_queued
  cancelled_queued-KeepsAttempt h = ground arith

  pub published-KeepsAttempt :
      (extractor model raw encoded : String)
      → KeepsAttempt j (published now extractor model raw encoded j)
  unfolding published
  published-KeepsAttempt extractor model raw encoded = ground arith

  pub recovered-KeepsAttempt :
      is_status j.status running ≡ true
      → j.provider_dispatched ≡ false
      → KeepsAttempt j (recovered now j)
  unfolding recovered
  recovered-KeepsAttempt h k = ground arith

  pub stopped-KeepsAttempt : KeepsAttempt j (stopped now j)
  unfolding stopped
  stopped-KeepsAttempt = ground arith

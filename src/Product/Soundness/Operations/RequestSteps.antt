-- ===== src/Product/Soundness/Operations/RequestSteps.antt =====
-- The customer's requests keep the invariant.

use unrender.Base.{
  ℕ, ◌+◌, ◌≡◌, refl, sym, subst, Bool, true, false, none, some, String, arith, ◌==◌, Option-cases,
  inl, inr,
}
use unrender.Base.Int.{negsuc}
use unrender.Base.Table.{lookup, lookup-put_self, nat_eq}
use unrender.Product.Settings.{Settings}
use unrender.Product.Schema.{
  Db, Job, LedgerKey, queued, running, is_status, ledger_key_eq, string_key_eq,
}
use unrender.Product.Tx.{◌>>◌, pure, when}
use unrender.Product.Tx.Ensures.{
  Ensures, Ensures-pure, Ensures-raise, Ensures-bind, Ensures-if, Ensures-raise_if_bind,
  Ensures-read_bind, Ensures-guard_bind, Ensures-when,
}
use unrender.Product.Admission.Rules.{admit_database_rows-pure}
use unrender.Product.Storage.{Disk}
use unrender.Product.Storage.Rules.{reserve_result_capacity-pure}
use unrender.Product.Jobs.Updates.{requeued}
use unrender.Product.Jobs.Statements.{Ensures-update_always, update_job}
use unrender.Product.Jobs.Requests.{DemoFixture, cancel, cancel_row, reprocess}
use unrender.Product.Jobs.Owned.{IsOwned, owned_job-row}
use unrender.Product.Audit.{audit}
use unrender.Product.Credits.{change_credits, is_refundable}
use unrender.Product.Soundness.Rows.{cancel_requested-KeepsAttempt}
use unrender.Product.Soundness.Statements.{with_job, less_credit-HasHeadroom, others_keep_headroom}
use unrender.Product.Soundness.Calls.{requeued-IsCoherent}
use unrender.Product.Soundness.Ledger.{KeyFits, OthersHaveHeadroom, optional-Sound}
use unrender.Product.Soundness.Settled.{IsSound, audit-IsSound}
use unrender.Product.Soundness.Settlement.{cancelled_queued-IsSound}
use unrender.Product.Soundness.Operations.WorkerSteps.{with_job-IsSound}

module _ (s : Settings) (ident now u k : ℕ) (d : Db) (h : IsSound s d) where
  cancel_row-IsSound :
      (row : Job)
      → lookup k d.jobs ≡ some row
      → Ensures (cancel_row s ident now u k row) d (λ _ e. IsSound s e)
  unfolding cancel_row
  cancel_row-IsSound row found =
      Ensures-if _ d (is_status row.status queued) _ _
        (λ waiting.
          Ensures-bind _ d _ _ _ (cancelled_queued-IsSound s ident now k row d found h waiting)
            λ _ e p. Ensures-pure _ e tt p)
        λ _.
          Ensures-if _ d (is_status row.status running) _ _
            (λ _.
              Ensures-bind _ d (λ _ e. IsSound s e) _ _
                (Ensures-update_always _ d k _ row found (
                  with_job-IsSound s k row _ d found h
                    (cancel_requested-KeepsAttempt row now (h.coherent.consistent _ _ found))))
                λ _ e p. audit-IsSound s ident now (some u) (some k) _ e p)
            λ _. Ensures-raise _ d _

  pub cancel-IsSound : Ensures (cancel s ident now u k) d (λ _ e. IsSound s e)
  unfolding cancel
  cancel-IsSound =
      Ensures-read_bind _ d (IsOwned u k d) _ _ (owned_job-row u k d)
        λ row p. cancel_row-IsSound row p.0

-- A job that has been queued for one more attempt.
module _ (s : Settings) (now k : ℕ) (row : Job) (costs : Bool) where
  requeued_fields :
      ((requeued s now costs row).attempt ≡ row.attempt + 1)
      × ((requeued s now costs row).user_id ≡ row.user_id)
      × (is_refundable (requeued s now costs row) ≡ costs)
  unfolding requeued
  requeued_fields = ground arith

  module _ (d : Db) (found : lookup k d.jobs ≡ some row) (h : IsSound s d) where
    abbrev after_requeue : Db
    after_requeue = with_job k (requeued s now costs row) d

    not_reserved : lookup (LedgerKey.reserve k (row.attempt + 1)) d.ledger ≡ none
    not_reserved = elim (Option-cases (lookup (LedgerKey.reserve k (row.attempt + 1)) d.ledger)) [
      | inl e ↦ e
      | inr (x, e) ↦ absurd (omega (arith, h.coherent.reserve_of k (row.attempt + 1) x row e found))
    ]

    reserve_fits : KeyFits after_requeue (LedgerKey.reserve k (row.attempt + 1))
    reserve_fits =
        λ j p. ground (arith, lookup-put_self k (requeued s now costs row) d.jobs, requeued_fields)

    others : OthersHaveHeadroom s row.user_id after_requeue
    others = λ v other.
        others_keep_headroom k row (requeued s now costs row) d found s v requeued_fields.1 other
          h.headroom

    free-IsSound : costs ≡ false → IsSound s after_requeue
    free-IsSound free = record {
      coherent = requeued-IsCoherent k now row d found h.coherent s costs;
      headroom =
          less_credit-HasHeadroom k row (requeued s now costs row) d found s requeued_fields.1
            (λ e. absurd (cc (e, requeued_fields.2, free))) h.headroom;
    }

    paid-IsSound :
        (reason : String)
        → Ensures
            (do
              change_credits s now row.user_id
                  (negsuc 0)
                  reason
                  (LedgerKey.reserve k (row.attempt + 1))
                  false
              pure tt)
            after_requeue
            (λ _ e. IsSound s e)
    paid-IsSound reason =
        Ensures-bind _ after_requeue _ _ _
          (optional-Sound s now row.user_id _ reason _ after_requeue
            (requeued-IsCoherent k now row d found h.coherent s costs) reserve_fits not_reserved
            others)
          λ _ e p. Ensures-pure _ e tt (record { coherent = p.0; headroom = p.1 })

same_number : (a b : ℕ) → (a == b) ≡ true → a ≡ b
same_number a b h = ground arith

module _ (s : Settings) (ident now u k : ℕ) (row : Job) (costs : Bool) (d : Db)
    (found : lookup k d.jobs ≡ some row) (mine : row.user_id ≡ u) (h : IsSound s d) where
  -- the end of `reprocess`: the row is updated, the credit taken, and the event written
  requeue-IsSound :
      Ensures
        (do
          update_job k (λ j. true) (requeued s now costs)
          when costs (do
            change_credits s now u
                (negsuc 0)
                "job_reprocess_reserved"
                (LedgerKey.reserve k (row.attempt + 1))
                false
            pure tt)
          audit s ident now (some u) (some k) "job_requeued")
        d
        (λ _ e. IsSound s e)
  requeue-IsSound =
      Ensures-bind _ d (λ _ e. e ≡ after_requeue s now k row costs d found h) _ _
        (Ensures-update_always _ d k _ row found refl)
        λ _ e at_e.
          Ensures-bind _ e (λ _ f. IsSound s f) _ _
            (subst
              (λ x.
                Ensures
                  (when costs (do
                    change_credits s now u (negsuc 0) "job_reprocess_reserved"
                        (LedgerKey.reserve k (row.attempt + 1)) false
                    pure tt))
                  x (λ _ f. IsSound s f))
              (sym at_e)
              (Ensures-when _ _ costs _
                (λ _.
                  subst
                    (λ v.
                      Ensures
                        (do
                          change_credits s now v (negsuc 0) "job_reprocess_reserved"
                              (LedgerKey.reserve k (row.attempt + 1)) false
                          pure tt)
                        (after_requeue s now k row costs d found h) (λ _ f. IsSound s f))
                    mine (paid-IsSound s now k row costs d found h "job_reprocess_reserved"))
                (free-IsSound s now k row costs d found h)))
            λ _ f p. audit-IsSound s ident now (some u) (some k) "job_requeued" f p

module _ (s : Settings) (ident now : ℕ) where
  pub reprocess-IsSound :
      (disk : Disk) (fixture : DemoFixture) (u k : ℕ) (d : Db)
      → IsSound s d
      → Ensures (reprocess s ident now disk fixture u k) d (λ _ e. IsSound s e)
  unfolding reprocess
  reprocess-IsSound disk fixture u k d h =
      Ensures-read_bind _ d (IsOwned u k d) _ _ (owned_job-row u k d) λ row (found, mine).
        Ensures-raise_if_bind _ d _ _ _ λ _.
          Ensures-guard_bind _ d _ _ (admit_database_rows-pure s _ _ _ _ d) λ _.
            Ensures-guard_bind _ d _ _ (reserve_result_capacity-pure s disk d u (some k))
              λ _. requeue-IsSound s ident now u k row _ d found (same_number _ _ mine) h

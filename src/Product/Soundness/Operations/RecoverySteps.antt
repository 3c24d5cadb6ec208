-- ===== src/Product/Soundness/Operations/RecoverySteps.antt =====
-- The recovery of interrupted jobs keeps the invariant.
use unrender.Base.{ℕ, suc, ◌≡◌, refl, ◌∙◌, true, false, not, some, arith, [], ◌∷◌}
use unrender.Base.Table.{Table, lookup, nat_eq}
use unrender.Base.Table.Keyed.{IsKeyed, select-IsKeyed, lookup-select, lookup-head, lookup-tail}
use unrender.Product.Settings.{Settings}
use unrender.Product.Schema.{Db, Job, running, is_status}
use unrender.Product.Tx.Ensures.{
  Ensures, Ensures-when, Ensures-both, Ensures-pure, Ensures-bind, Ensures-gets_bind, Ensures-if,
}
use unrender.Product.Credits.{is_refundable}
use unrender.Product.Jobs.Updates.{recovered, stopped}
use unrender.Product.Jobs.Statements.{update_job, Ensures-update_known}
use unrender.Product.Jobs.Requests.{is_settled}
use unrender.Product.Jobs.Recovery.{
  same_execution, should_requeue, requeue_row, stop_row, recover_row, recover_rows,
  recover_interrupted_jobs,
}
use unrender.Product.Soundness.Rows.{recovered-KeepsAttempt, stopped-KeepsAttempt}
use unrender.Product.Soundness.Settled.{IsSound, Settled, with_job-Settled}
use unrender.Product.Soundness.Settlement.{Changed, Ensures-if_changed, settlement-IsSound}
use unrender.Product.Soundness.JobsFrame.{
  OtherJobs, audit-jobs, complete-jobs, refund-jobs, update-OtherJobs,
}
use unrender.Product.Soundness.Operations.WorkerSteps.{with_job-IsSound, audited-IsSound}

-- The WHERE clause of the recovery selects running jobs only.
pub same_execution_running :
    (now : ℕ) (row j : Job) → same_execution now row j ≡ true → is_status j.status running ≡ true
unfolding same_execution
same_execution_running now row j h = ground arith

module _ (now : ℕ) (j : Job) where
  stopped_settled :
      (is_settled (stopped now j).status ≡ true) × (is_refundable (stopped now j) ≡ false)
  unfolding stopped
  stopped_settled = ground arith

module _ (s : Settings) (now : ℕ) (d : Db) (h : IsSound s d) where
  requeue_row-IsSound :
      (ident k : ℕ) (row : Job)
      → lookup k d.jobs ≡ some row
      → row.provider_dispatched ≡ false
      → Ensures (requeue_row s now ident k row) d (λ _ e. IsSound s e)
  unfolding requeue_row
  requeue_row-IsSound ident k row found idle =
      audited-IsSound s ident now row.user_id k "job_recovered" _ d (
        Ensures-update_known _ d k _ _ row found h λ same. with_job-IsSound s k row _ d found h (
          recovered-KeepsAttempt row now (h.coherent.consistent _ _ found)
            (same_execution_running now row row same) idle))

  stop_row-IsSound :
      (ident k : ℕ) (row : Job)
      → lookup k d.jobs ≡ some row
      → Ensures (stop_row s now ident k row) d (λ _ e. IsSound s e)
  unfolding stop_row
  stop_row-IsSound ident k row found =
      Ensures-bind _ d (Changed (IsSound s) (Settled s k row)) _ _
        (Ensures-update_known _ d k _ _ row found h λ same.
          with_job-Settled s k row _ d found h
            (stopped-KeepsAttempt row now (h.coherent.consistent _ _ found))
            (stopped_settled now row).0 (stopped_settled now row).1)
        λ b e p.
          Ensures-if_changed _ _ (IsSound s) b _ e p (λ q. q)
            λ q. settlement-IsSound s ident now k row e q _ _ _ _ _ _ true refl refl

-- What follows the update of one round of the loop leaves the jobs.
module _ (P : Table ℕ Job → Type 0) (s : Settings) (now ident k : ℕ) (row : Job) where
  requeue_row-jobs :
      (d : Db)
      → Ensures (update_job k (same_execution now row) (recovered now)) d (λ _ e. P e.jobs)
      → Ensures (requeue_row s now ident k row) d (λ _ e. P e.jobs)
  unfolding requeue_row
  requeue_row-jobs d h = Ensures-bind _ d _ _ _ h λ b e p.
      Ensures-if _ e (not b) _ _ (λ _. Ensures-pure _ e false p)
        λ _.
          Ensures-bind _ e (λ _ f. P f.jobs) _ _ (audit-jobs P e p s ident now _ _ _)
            λ _ f q. Ensures-pure _ f true q

  stop_row-jobs :
      (d : Db)
      → Ensures (update_job k (same_execution now row) (stopped now)) d (λ _ e. P e.jobs)
      → Ensures (stop_row s now ident k row) d (λ _ e. P e.jobs)
  unfolding stop_row
  stop_row-jobs d h = Ensures-bind _ d _ _ _ h λ b e p.
      Ensures-if _ e (not b) _ _ (λ _. Ensures-pure _ e false p)
        λ _.
          Ensures-bind _ e (λ _ f. P f.jobs) _ _
            (Ensures-when _ e _ _ (λ _. refund-jobs P e p s now _ _ _ _) λ _. p)
            λ _ f q.
              Ensures-bind _ f (λ _ g. P g.jobs) _ _
                (Ensures-when _ f _ _ (λ _. complete-jobs P f q _ now _) λ _. q)
                λ _ g r.
                  Ensures-bind _ g (λ _ i. P i.jobs) _ _ (audit-jobs P g r s ident now _ _ _)
                    λ _ i x. Ensures-pure _ i true x

  pub recover_row-jobs :
      (d : Db)
      → Ensures (update_job k (same_execution now row) (recovered now)) d (λ _ e. P e.jobs)
      → Ensures (update_job k (same_execution now row) (stopped now)) d (λ _ e. P e.jobs)
      → Ensures (recover_row s now ident (k, row)) d (λ _ e. P e.jobs)
  unfolding recover_row
  recover_row-jobs d g h =
      Ensures-if _ d (should_requeue s row) _ _ (λ _. requeue_row-jobs d g) λ _. stop_row-jobs d h

module _ (s : Settings) (now : ℕ) where
  should_requeue_idle : (row : Job) → should_requeue s row ≡ true → row.provider_dispatched ≡ false
  should_requeue_idle row h = ground arith

  pub recover_row-IsSound :
      (ident k : ℕ) (row : Job) (d : Db)
      → IsSound s d
      → lookup k d.jobs ≡ some row
      → Ensures
          (recover_row s now ident (k, row))
          d
          (λ _ e. IsSound s e × OtherJobs k d.jobs e.jobs)
  unfolding recover_row
  recover_row-IsSound ident k row d h found =
      Ensures-both _ _ _ d
        (Ensures-if _ d (should_requeue s row) _ _
          (λ p. requeue_row-IsSound s now d h ident k row found (should_requeue_idle row p))
          (λ _. stop_row-IsSound s now d h ident k row found))
        (recover_row-jobs (OtherJobs k d.jobs) s now ident k row d (update-OtherJobs k _ _ d)
          (update-OtherJobs k _ _ d))

  -- The loop, over rows with distinct ids that are all still in the table.
  recover_rows-IsSound :
      (ident : ℕ) (rows : Table ℕ Job) (d : Db)
      → IsKeyed rows
      → ((i : ℕ) (j : Job) → lookup i rows ≡ some j → lookup i d.jobs ≡ some j)
      → IsSound s d
      → Ensures (recover_rows s now ident rows) d (λ _ e. IsSound s e)
  unfolding recover_rows
  recover_rows-IsSound ident [] d keyed known h = Ensures-pure _ d 0 h
  recover_rows-IsSound ident ((k, row) ∷ rows) d keyed known h =
      Ensures-bind _ d _ _ _
        (recover_row-IsSound ident k row d h (known k row (lookup-head k row rows)))
        λ done e p.
          Ensures-bind _ e _ _ _
            (recover_rows-IsSound (suc ident) rows e keyed.1
              (λ i j q.
                let tail = lookup-tail k row i j rows keyed.0 q in p.1 i tail.0 ∙ known i j tail.1)
              p.0)
            λ n f q. Ensures-pure _ f _ q

  pub recover_interrupted_jobs-IsSound :
      (ident : ℕ) (d : Db)
      → IsSound s d
      → Ensures (recover_interrupted_jobs s now ident) d (λ _ e. IsSound s e)
  unfolding recover_interrupted_jobs
  recover_interrupted_jobs-IsSound ident d h = Ensures-gets_bind _ d _ _ (
      recover_rows-IsSound ident _ d (select-IsKeyed _ d.jobs h.coherent.keyed)
        (λ i j. lookup-select _ i j d.jobs h.coherent.keyed) h)

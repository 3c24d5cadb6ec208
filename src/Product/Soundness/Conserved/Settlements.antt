-- ===== src/Product/Soundness/Conserved/Settlements.antt =====
-- A settlement conserves the credits of its user, and so does the recovery of interrupted jobs.
use unrender.Base.{ℕ, suc, ◌≡◌, refl, ◌∙◌, true, false, some, String, arith, [], ◌∷◌}
use unrender.Base.Table.{Table, lookup, nat_eq}
use unrender.Base.Table.Keyed.{IsKeyed, select-IsKeyed, lookup-select, lookup-head, lookup-tail}
use unrender.Product.Settings.{Settings}
use unrender.Product.Schema.{Db, Job, queued, running, is_status}
use unrender.Product.Tx.Ensures.{
  Ensures, Ensures-pure, Ensures-raise, Ensures-bind, Ensures-gets_bind, Ensures-if, Ensures-both,
  Ensures-read_bind,
}
use unrender.Product.Credits.{is_refundable}
use unrender.Product.Jobs.Updates.{
  WorkerClaim, holds_claim, finished_failed, finished_cancelled, cancelled_queued, recovered,
  stopped,
}
use unrender.Product.Jobs.Statements.{Ensures-update_known, Ensures-update_always}
use unrender.Product.Jobs.Finish.{
  finish_failed_claim, finish_cancelled_claim, finish_failed_claim_in_transaction,
  finish_cancelled_claim_in_transaction, finish_cancelled_queued_in_transaction,
}
use unrender.Product.Jobs.Requests.{cancel, cancel_row, is_settled}
use unrender.Product.Jobs.Recovery.{
  recover_row, requeue_row, stop_row, recover_rows, recover_interrupted_jobs, should_requeue,
}
use unrender.Product.Soundness.Settled.{IsSound}
use unrender.Product.Soundness.Settlement.{holds_claim_parts, Changed, Ensures-if_changed}
use unrender.Product.Jobs.Owned.{IsOwned, owned_job-row}
use unrender.Product.Soundness.Operations.{
  Ensures-claimed, recover_row-IsSound, same_execution_running,
}
use unrender.Product.Soundness.Conserved.{
  Conserves, Conserves-refl, Owes, with_job-Conserves, settled-Owes, audit-Conserves,
  settlement-Conserves, withdrawal-Conserves,
}
use unrender.Product.Soundness.Conserved.Steps.{audited-Conserves}

active_running : (j : Job) → is_status j.status running ≡ true → is_settled j.status ≡ false
active_running j h = ground arith

active_queued : (j : Job) → is_status j.status queued ≡ true → is_settled j.status ≡ false
active_queued j h = ground arith

module _ (j : Job) (now : ℕ) where
  recovered_credit :
      ((recovered now j).user_id ≡ j.user_id) × (is_refundable (recovered now j) ≡ is_refundable j)
  unfolding recovered
  recovered_credit = (refl, refl)

  stopped_credit : ((stopped now j).user_id ≡ j.user_id) × (is_refundable (stopped now j) ≡ false)
  unfolding stopped
  stopped_credit = (refl, refl)

  cancelled_queued_credit :
      ((cancelled_queued now j).user_id ≡ j.user_id)
      × (is_refundable (cancelled_queued now j) ≡ false)
  unfolding cancelled_queued
  cancelled_queued_credit = (refl, refl)

  finished_cancelled_credit :
      ((finished_cancelled now j).user_id ≡ j.user_id)
      × (is_refundable (finished_cancelled now j) ≡ false)
  unfolding finished_cancelled
  finished_cancelled_credit = (refl, refl)

  finished_failed_credit :
      (code : String)
      → ((finished_failed now code j).user_id ≡ j.user_id)
        × (is_refundable (finished_failed now code j) ≡ false)
  unfolding finished_failed
  finished_failed_credit code = (refl, refl)

Conserves-trans : (c d e : Db) → Conserves c d → Conserves d e → Conserves c e
Conserves-trans c d e p q = record { at = λ u. q.at u ∙ p.at u }

module _ (s : Settings) (ident now : ℕ) (c : WorkerClaim) (j : Job) (d : Db)
    (found : lookup c.job_id d.jobs ≡ some j) (h : IsSound s d) where
  failed_tx-Conserves :
      (code : String)
      → Ensures (finish_failed_claim_in_transaction s ident now c code j) d (λ _ e. Conserves d e)
  unfolding finish_failed_claim_in_transaction
  failed_tx-Conserves code =
      Ensures-bind _ d
        (Changed (Conserves d) (λ e. Owes c.job_id j d e × (holds_claim c now j ≡ true))) _ _
        (Ensures-update_known _ d c.job_id _ _ j found (Conserves-refl d) λ held. (
          settled-Owes c.job_id j _ d found h.coherent
              (active_running j (holds_claim_parts c now j held).2)
              (finished_failed_credit j now code).0 (finished_failed_credit j now code).1,
          held,
        ))
        λ b e p.
          Ensures-if_changed _ _ (Conserves d) b _ e p (λ q. q)
            λ q.
              let parts = holds_claim_parts c now j q.1 in
              settlement-Conserves s ident now c.job_id j d e q.0 _ _ _ _ _ _ true parts.0 parts.1

  cancelled_tx-Conserves :
      Ensures (finish_cancelled_claim_in_transaction s ident now c j) d (λ _ e. Conserves d e)
  unfolding finish_cancelled_claim_in_transaction
  cancelled_tx-Conserves =
      Ensures-bind _ d
        (Changed (Conserves d) (λ e. Owes c.job_id j d e × (holds_claim c now j ≡ true))) _ _
        (Ensures-update_known _ d c.job_id _ _ j found (Conserves-refl d) λ held. (
          settled-Owes c.job_id j _ d found h.coherent
              (active_running j (holds_claim_parts c now j held).2)
              (finished_cancelled_credit j now).0 (finished_cancelled_credit j now).1,
          held,
        ))
        λ b e p.
          Ensures-if_changed _ _ (Conserves d) b _ e p (λ q. q)
            λ q.
              let parts = holds_claim_parts c now j q.1 in
              settlement-Conserves s ident now c.job_id j d e q.0 _ _ _ _ _ _ true parts.0 parts.1

module _ (s : Settings) (ident now k : ℕ) (j : Job) (d : Db) (found : lookup k d.jobs ≡ some j)
    (h : IsSound s d) where
  queued_tx-Conserves :
      is_status j.status queued ≡ true
      → Ensures (finish_cancelled_queued_in_transaction s ident now k j) d (λ _ e. Conserves d e)
  unfolding finish_cancelled_queued_in_transaction
  queued_tx-Conserves waiting =
      Ensures-bind _ d (Changed (Conserves d) (Owes k j d)) _ _
        (Ensures-update_known _ d k _ _ j found (Conserves-refl d) λ _.
          settled-Owes k j _ d found h.coherent (active_queued j waiting)
            (cancelled_queued_credit j now).0 (cancelled_queued_credit j now).1)
        λ b e p.
          Ensures-if_changed _ _ (Conserves d) b _ e p (λ q. q)
            λ q.
              withdrawal-Conserves s ident now k j d e q _ _ true
                ((h.coherent.consistent _ _ found).queued_idle waiting)

  requeue_row-Conserves : Ensures (requeue_row s now ident k j) d (λ _ e. Conserves d e)
  unfolding requeue_row
  requeue_row-Conserves = audited-Conserves s ident now j.user_id k "job_recovered" _ d (
      Ensures-update_known _ d k _ _ j found (Conserves-refl d)
        λ _. with_job-Conserves k j _ d found (recovered_credit j now).0 (recovered_credit j now).1)

  stop_row-Conserves : Ensures (stop_row s now ident k j) d (λ _ e. Conserves d e)
  unfolding stop_row
  stop_row-Conserves =
      Ensures-bind _ d (Changed (Conserves d) (Owes k j d)) _ _
        (Ensures-update_known _ d k _ _ j found (Conserves-refl d) λ same.
          settled-Owes k j _ d found h.coherent
            (active_running j (same_execution_running now j j same)) (stopped_credit j now).0
            (stopped_credit j now).1)
        λ b e p.
          Ensures-if_changed _ _ (Conserves d) b _ e p (λ q. q)
            λ q. settlement-Conserves s ident now k j d e q _ _ _ _ _ _ true refl refl

  recover_row-Conserves : Ensures (recover_row s now ident (k, j)) d (λ _ e. Conserves d e)
  unfolding recover_row
  recover_row-Conserves =
      Ensures-if _ d (should_requeue s j) _ _ (λ _. requeue_row-Conserves) λ _. stop_row-Conserves

module _ (s : Settings) (ident now : ℕ) (d : Db) (h : IsSound s d) where
  pub finish_failed_claim-Conserves :
      (checked : ℕ) (c : WorkerClaim) (code : String)
      → Ensures (finish_failed_claim s ident now checked c code) d (λ _ e. Conserves d e)
  unfolding finish_failed_claim
  finish_failed_claim-Conserves checked c code =
      Ensures-claimed _ d c checked false _ (Conserves-refl d) λ j found _.
        Ensures-if _ d j.cancel_requested _ _
          (λ _. cancelled_tx-Conserves s ident now c j d found h)
          λ _. failed_tx-Conserves s ident now c j d found h code

  pub finish_cancelled_claim-Conserves :
      (checked : ℕ) (c : WorkerClaim)
      → Ensures (finish_cancelled_claim s ident now checked c) d (λ _ e. Conserves d e)
  unfolding finish_cancelled_claim
  finish_cancelled_claim-Conserves checked c =
      Ensures-claimed _ d c checked false _ (Conserves-refl d)
        λ j found _. cancelled_tx-Conserves s ident now c j d found h

  pub cancel-Conserves : (u k : ℕ) → Ensures (cancel s ident now u k) d (λ _ e. Conserves d e)
  unfolding cancel cancel_row
  cancel-Conserves u k = Ensures-read_bind _ d (IsOwned u k d) _ _ (owned_job-row u k d) λ j p.
      Ensures-if _ d (is_status j.status queued) _ _
        (λ waiting.
          Ensures-bind _ d _ _ _ (queued_tx-Conserves s ident now k j d p.0 h waiting)
            λ _ e q. Ensures-pure _ e tt q)
        λ _.
          Ensures-if _ d (is_status j.status running) _ _
            (λ _.
              Ensures-bind _ d (λ _ e. Conserves d e) _ _
                (Ensures-update_always _ d k _ j p.0 (with_job-Conserves k j _ d p.0 refl refl))
                λ _ e q. audit-Conserves s ident now (some u) (some k) _ d e q)
            λ _. Ensures-raise _ d _

module _ (s : Settings) (now : ℕ) where
  recover_rows-Conserves :
      (ident : ℕ) (rows : Table ℕ Job) (d : Db)
      → IsKeyed rows
      → ((i : ℕ) (j : Job) → lookup i rows ≡ some j → lookup i d.jobs ≡ some j)
      → IsSound s d
      → Ensures (recover_rows s now ident rows) d (λ _ e. Conserves d e)
  unfolding recover_rows
  recover_rows-Conserves ident [] d keyed known h = Ensures-pure _ d 0 (Conserves-refl d)
  recover_rows-Conserves ident ((k, row) ∷ rows) d keyed known h =
      let found = known k row (lookup-head k row rows) in
      Ensures-bind _ d _ _ _
        (Ensures-both _ _ _ d (recover_row-IsSound s now ident k row d h found)
          (recover_row-Conserves s ident now k row d found h))
        λ done e p.
          Ensures-bind _ e _ _ _
            (recover_rows-Conserves (suc ident) rows e keyed.1
              (λ i j q.
                let tail = lookup-tail k row i j rows keyed.0 q in
                p.0.1 i tail.0 ∙ known i j tail.1)
              p.0.0)
            λ n f q. Ensures-pure _ f _ (Conserves-trans d e f p.1 q)

  pub recover_interrupted_jobs-Conserves :
      (ident : ℕ) (d : Db)
      → IsSound s d
      → Ensures (recover_interrupted_jobs s now ident) d (λ _ e. Conserves d e)
  unfolding recover_interrupted_jobs
  recover_interrupted_jobs-Conserves ident d h = Ensures-gets_bind _ d _ _ (
      recover_rows-Conserves ident _ d (select-IsKeyed _ d.jobs h.coherent.keyed)
        (λ i j. lookup-select _ i j d.jobs h.coherent.keyed) h)

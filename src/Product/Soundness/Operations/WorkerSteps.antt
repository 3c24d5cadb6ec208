-- ===== src/Product/Soundness/Operations/WorkerSteps.antt =====
-- The worker's transactions keep the invariant.

use unrender.Base.{
  ℕ, ◌≡◌, sym, subst, Bool, true, false, not, none, some, String, arith, if◌then◌else◌,
}
use unrender.Base.Table.{lookup, nat_eq}
use unrender.Product.Settings.{Settings}
use unrender.Product.Schema.{Db, Job, Outcome}
use unrender.Product.Tx.{Tx, ◌>>=◌, ◌>>◌, pure, given}
use unrender.Product.Tx.Ensures.{
  Ensures, Ensures-pure, Ensures-bind, Ensures-gets_bind, Ensures-given, Ensures-if,
  Ensures-raise_if_bind,
}
use unrender.Product.Audit.{audit}
use unrender.Product.Storage.Rules.{next_result_version-pure}
use unrender.Product.Admission.Rules.{Ensures-insert_row}
use unrender.Product.Jobs.Updates.{WorkerClaim, holds_claim}
use unrender.Product.Jobs.Owned.{row_if-some}
use unrender.Product.Jobs.Statements.{Ensures-update_job, Ensures-update_known}
use unrender.Product.Jobs.Finish.{claim_row, finish_failed_claim, finish_cancelled_claim}
use unrender.Product.Jobs.Worker.{
  Output, claim_next_job, heartbeat_claim, update_claim_progress, release_claim_for_shutdown,
  publish_result,
}
use unrender.Product.Soundness.Rows.{
  KeepsAttempt, claimed-KeepsAttempt, renewed-KeepsAttempt, progressed-KeepsAttempt,
  released-KeepsAttempt, published-KeepsAttempt,
}
use unrender.Product.Soundness.Statements.{with_job, with_job-IsCoherent, less_credit-HasHeadroom}
use unrender.Product.Soundness.Settled.{IsSound, IsSound-frame, audit-IsSound, complete-IsSound}
use unrender.Product.Soundness.Settlement.{
  holds_claim_parts, finish_failed-IsSound, finish_cancelled-IsSound,
}

-- A transaction that goes on only with the claimed row.
pub Ensures-claimed :
    {B : Type 0} (Q : B → Db → Type 0) (d : Db) (c : WorkerClaim) (checked : ℕ) (b : B)
    (f : Job → Tx B)
    → Q b d
    → ((j : Job)
        → lookup c.job_id d.jobs ≡ some j
        → holds_claim c checked j ≡ true
        → Ensures (f j) d Q)
    → Ensures (do row ← claim_row c checked; given row b f) d Q
unfolding claim_row
Ensures-claimed Q d c checked b f h g = Ensures-gets_bind Q d _ _ (
    Ensures-given Q d _ b f (λ _. h)
      λ j p. let found = row_if-some (holds_claim c checked) _ j p in g j found.0 found.1)

-- A row that keeps its attempt is replaced.
pub with_job-IsSound :
    (s : Settings) (k : ℕ) (j j' : Job) (d : Db)
    → lookup k d.jobs ≡ some j
    → IsSound s d
    → KeepsAttempt j j'
    → IsSound s (with_job k j' d)
with_job-IsSound s k j j' d found h keeps = record {
  coherent = with_job-IsCoherent k j j' d found keeps h.coherent;
  headroom =
      less_credit-HasHeadroom k j j' d found s keeps.same_user keeps.no_new_credit h.headroom;
}

-- An update of the row, and the audit event of one that was made.
pub audited-IsSound :
    (s : Settings) (ident now u k : ℕ) (event_type : String) (m : Tx Bool) (d : Db)
    → Ensures m d (λ _ e. IsSound s e)
    → Ensures
        (do
          changed ← m
          if not changed
              then pure false
              else do audit s ident now (some u) (some k) event_type; pure true)
        d
        (λ _ e. IsSound s e)
audited-IsSound s ident now u k event_type m d h = Ensures-bind _ d _ _ _ h λ b e p.
    Ensures-if _ e (not b) _ _ (λ _. Ensures-pure _ e false p)
      λ _.
        Ensures-bind _ e _ _ _ (audit-IsSound s ident now (some u) (some k) event_type e p)
          λ _ f q. Ensures-pure _ f true q

module _ (s : Settings) (now : ℕ) (d : Db) (h : IsSound s d) where
  pub heartbeat_claim-IsSound :
      (ident : ℕ) (c : WorkerClaim) → Ensures (heartbeat_claim s ident now c) d (λ _ e. IsSound s e)
  unfolding heartbeat_claim
  heartbeat_claim-IsSound ident c = Ensures-update_job _ d c.job_id _ _ h λ j found held.
      with_job-IsSound s c.job_id j _ d found h (
        renewed-KeepsAttempt j now (h.coherent.consistent _ _ found) s
          (holds_claim_parts c now j held).2)

  pub update_claim_progress-IsSound :
      (ident checked : ℕ) (c : WorkerClaim)
      → Ensures (update_claim_progress s ident now checked c) d (λ _ e. IsSound s e)
  unfolding update_claim_progress
  update_claim_progress-IsSound ident checked c =
      Ensures-claimed _ d c checked false _ h λ current found held.
        Ensures-update_known _ d c.job_id _ _ current found h λ still.
          with_job-IsSound s c.job_id current _ d found h
            (progressed-KeepsAttempt current now (h.coherent.consistent _ _ found))

  pub release_claim_for_shutdown-IsSound :
      (ident checked : ℕ) (c : WorkerClaim)
      → Ensures (release_claim_for_shutdown s ident now checked c) d (λ _ e. IsSound s e)
  unfolding release_claim_for_shutdown
  release_claim_for_shutdown-IsSound ident checked c =
      Ensures-claimed _ d c checked false _ h λ current found held.
        Ensures-if _ d current.provider_dispatched _ _ (λ _. Ensures-pure _ d false h)
          λ idle. audited-IsSound s ident now c.user_id c.job_id _ _ d (
            Ensures-update_known _ d c.job_id _ _ current found h λ still.
              with_job-IsSound s c.job_id current _ d found h (
                released-KeepsAttempt current now (h.coherent.consistent _ _ found)
                  (holds_claim_parts c checked current held).2 idle))

  pub finish_failed_claim-IsSound :
      (ident checked : ℕ) (c : WorkerClaim) (code : String)
      → Ensures (finish_failed_claim s ident now checked c code) d (λ _ e. IsSound s e)
  unfolding finish_failed_claim
  finish_failed_claim-IsSound ident checked c code =
      Ensures-claimed _ d c checked false _ h λ current found held.
        Ensures-if _ d current.cancel_requested _ _
          (λ _. finish_cancelled-IsSound s ident now c current d found h)
          λ _. finish_failed-IsSound s ident now c current d found h code

  pub finish_cancelled_claim-IsSound :
      (ident checked : ℕ) (c : WorkerClaim)
      → Ensures (finish_cancelled_claim s ident now checked c) d (λ _ e. IsSound s e)
  unfolding finish_cancelled_claim
  finish_cancelled_claim-IsSound ident checked c =
      Ensures-claimed _ d c checked false _ h
        λ current found held. finish_cancelled-IsSound s ident now c current d found h

  pub claim_next_job-IsSound :
      (ident owner token : ℕ)
      → Ensures (claim_next_job s ident now owner token) d (λ _ e. IsSound s e)
  unfolding claim_next_job
  claim_next_job-IsSound ident owner token = Ensures-gets_bind _ d _ _ (
      Ensures-given _ d _ none _ (λ _. h)
        λ row p.
          Ensures-bind _ d _ _ _
            (Ensures-update_job _ d row.0 _ _ h λ j found test.
              with_job-IsSound s row.0 j _ d found h (
                claimed-KeepsAttempt j now (h.coherent.consistent _ _ found) s owner token
                  (ground arith)))
            λ b e q.
              Ensures-if _ e (not b) _ _ (λ _. Ensures-pure _ e none q)
                λ _.
                  Ensures-bind _ e _ _ _ (audit-IsSound s ident now _ _ "job_started" e q)
                    λ _ f r. Ensures-pure _ f _ r)

  pub publish_result-IsSound :
      (ident version_id checked : ℕ) (c : WorkerClaim) (out : Output)
      → Ensures (publish_result s ident now version_id checked c out) d (λ _ e. IsSound s e)
  unfolding publish_result
  publish_result-IsSound ident version_id checked c out =
      Ensures-claimed _ d c checked true _ h λ current found held.
        Ensures-if _ d current.cancel_requested _ _
          (λ _.
            Ensures-bind _ d _ _ _ (finish_cancelled-IsSound s ident now c current d found h)
              λ _ e he. Ensures-pure _ e true he)
          λ _. Ensures-bind _ d _ _ _ (next_result_version-pure s _ _ _ _ _ d) λ version d' same.
            let h' = subst (IsSound s) (sym same) h in
            Ensures-gets_bind _ d' _ _ (
              Ensures-raise_if_bind _ d' _ _ _ λ _.
                Ensures-bind _ d' (λ _ e. IsSound s e) _ _
                  (Ensures-insert_row s _ d' _ _ _ _
                    (IsSound-frame s d' d'.audit_log d'.budget _ d'.billing_events h'))
                  λ _ e he.
                    Ensures-bind _ e _ _ _
                      (Ensures-update_job (λ _ f. IsSound s f) e c.job_id _ _ he
                        λ j foundj _. with_job-IsSound s c.job_id j _ e foundj he (
                          published-KeepsAttempt j now (he.coherent.consistent _ _ foundj) _ _ _ _))
                      λ b f hf. Ensures-raise_if_bind _ f _ _ _ λ _.
                        Ensures-bind _ f _ _ _
                          (complete-IsSound s ident now _ Outcome.succeeded f hf)
                          λ _ g hg.
                            Ensures-bind _ g _ _ _
                              (audit-IsSound s ident now _ _ "extraction_completed" g hg)
                              λ _ i hi. Ensures-pure _ i true hi)

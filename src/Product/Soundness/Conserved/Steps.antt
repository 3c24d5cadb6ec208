-- ===== src/Product/Soundness/Conserved/Steps.antt =====
-- The operations that give no credit and start no provider call conserve the credits of every user.
use unrender.Base.{ℕ, ◌≡◌, refl, Bool, true, false, not, none, some, String, if◌then◌else◌}
use unrender.Base.Table.{nat_eq}
use unrender.Product.Settings.{Settings}
use unrender.Product.Schema.{Db, Job}
use unrender.Product.Tx.{Tx, ◌>>=◌, ◌>>◌, pure}
use unrender.Product.Tx.Ensures.{
  Ensures, Ensures-pure, Ensures-bind, Ensures-gets_bind, Ensures-given, Ensures-if,
}
use unrender.Product.Audit.{audit}
use unrender.Product.Credits.{is_refundable}
use unrender.Product.Jobs.Updates.{WorkerClaim, claimed, renewed, progressed, released}
use unrender.Product.Jobs.Statements.{Ensures-update_job, Ensures-update_known}
use unrender.Product.Jobs.Worker.{
  claim_next_job, heartbeat_claim, update_claim_progress, release_claim_for_shutdown,
}
use unrender.Product.Soundness.Operations.{Ensures-claimed}
use unrender.Product.Soundness.Conserved.{
  Conserves, Conserves-refl, with_job-Conserves, audit-Conserves,
}

module _ (j : Job) (now : ℕ) where
  claimed_credit :
      (s : Settings) (owner token : ℕ)
      → ((claimed s owner token now j).user_id ≡ j.user_id)
        × (is_refundable (claimed s owner token now j) ≡ is_refundable j)
  unfolding claimed
  claimed_credit s owner token = (refl, refl)

  renewed_credit :
      (s : Settings)
      → ((renewed s now j).user_id ≡ j.user_id)
        × (is_refundable (renewed s now j) ≡ is_refundable j)
  unfolding renewed
  renewed_credit s = (refl, refl)

  progressed_credit :
      ((progressed now j).user_id ≡ j.user_id)
      × (is_refundable (progressed now j) ≡ is_refundable j)
  unfolding progressed
  progressed_credit = (refl, refl)

  released_credit :
      ((released now j).user_id ≡ j.user_id) × (is_refundable (released now j) ≡ is_refundable j)
  unfolding released
  released_credit = (refl, refl)

-- An update of the row, and the audit event of one that was made.
pub audited-Conserves :
    (s : Settings) (ident now u k : ℕ) (event_type : String) (m : Tx Bool) (d : Db)
    → Ensures m d (λ _ e. Conserves d e)
    → Ensures
        (do
          changed ← m
          if not changed
              then pure false
              else do audit s ident now (some u) (some k) event_type; pure true)
        d
        (λ _ e. Conserves d e)
audited-Conserves s ident now u k event_type m d h =
    Ensures-bind _ d (λ _ e. Conserves d e) _ _ h
      λ b e p.
        Ensures-if _ e (not b) _ _ (λ _. Ensures-pure _ e false p)
          λ _.
            Ensures-bind _ e _ _ _ (audit-Conserves s ident now (some u) (some k) event_type d e p)
              λ _ f q. Ensures-pure _ f true q

module _ (s : Settings) (now : ℕ) (d : Db) where
  pub heartbeat_claim-Conserves :
      (ident : ℕ) (c : WorkerClaim)
      → Ensures (heartbeat_claim s ident now c) d (λ _ e. Conserves d e)
  unfolding heartbeat_claim
  heartbeat_claim-Conserves ident c =
      Ensures-update_job _ d c.job_id _ _ (Conserves-refl d) λ j found _.
        with_job-Conserves c.job_id j _ d found (renewed_credit j now s).0
          (renewed_credit j now s).1

  pub update_claim_progress-Conserves :
      (ident checked : ℕ) (c : WorkerClaim)
      → Ensures (update_claim_progress s ident now checked c) d (λ _ e. Conserves d e)
  unfolding update_claim_progress
  update_claim_progress-Conserves ident checked c =
      Ensures-claimed _ d c checked false _ (Conserves-refl d) λ j found _.
        Ensures-update_known _ d c.job_id _ _ j found (Conserves-refl d) λ _.
          with_job-Conserves c.job_id j _ d found (progressed_credit j now).0
            (progressed_credit j now).1

  pub release_claim_for_shutdown-Conserves :
      (ident checked : ℕ) (c : WorkerClaim)
      → Ensures (release_claim_for_shutdown s ident now checked c) d (λ _ e. Conserves d e)
  unfolding release_claim_for_shutdown
  release_claim_for_shutdown-Conserves ident checked c =
      Ensures-claimed _ d c checked false _ (Conserves-refl d) λ j found _.
        Ensures-if _ d j.provider_dispatched _ _ (λ _. Ensures-pure _ d false (Conserves-refl d))
          λ _. audited-Conserves s ident now c.user_id c.job_id _ _ d (
            Ensures-update_known _ d c.job_id _ _ j found (Conserves-refl d) λ _.
              with_job-Conserves c.job_id j _ d found (released_credit j now).0
                (released_credit j now).1)

  pub claim_next_job-Conserves :
      (ident owner token : ℕ)
      → Ensures (claim_next_job s ident now owner token) d (λ _ e. Conserves d e)
  unfolding claim_next_job
  claim_next_job-Conserves ident owner token = Ensures-gets_bind _ d _ _ (
      Ensures-given _ d _ none _ (λ _. Conserves-refl d)
        λ row p.
          Ensures-bind _ d (λ _ e. Conserves d e) _ _
            (Ensures-update_job _ d row.0 _ _ (Conserves-refl d) λ j found _.
              with_job-Conserves row.0 j _ d found (claimed_credit j now s owner token).0
                (claimed_credit j now s owner token).1)
            λ b e q.
              Ensures-if _ e (not b) _ _ (λ _. Ensures-pure _ e none q)
                λ _.
                  Ensures-bind _ e _ _ _ (audit-Conserves s ident now _ _ "job_started" d e q)
                    λ _ f r. Ensures-pure _ f _ r)

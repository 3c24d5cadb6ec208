-- ===== src/Product/Soundness/JobsFrame.antt =====
-- What a transaction leaves of the table of jobs.
use unrender.Base.{ℕ, ◌≡◌, ◌≢◌, refl, sym, subst, inl, inr, Bool, true, Option, String}
use unrender.Base.Int.{pos}
use unrender.Base.Table.{Table, lookup, lookup-put_ne, nat_eq}
use unrender.Product.Settings.{Settings}
use unrender.Product.Schema.{Db, Job, AttemptKey, LedgerKey, Outcome}
use unrender.Product.Tx.Ensures.{Ensures, Ensures-pure, Ensures-bind, Ensures-weaken}
use unrender.Product.Audit.{audit}
use unrender.Product.Audit.Frame.{Ensures-audit}
use unrender.Product.Credits.Rules.{change_credits-Posted}
use unrender.Product.Jobs.Statements.{
  update_job, complete_attempt, Ensures-update_job, Ensures-complete_attempt,
}
use unrender.Product.Jobs.Finish.{refund}

-- What holds of the jobs holds after a statement on the other tables.
module _ (P : Table ℕ Job → Type 0) (e : Db) (h : P e.jobs) where
  pub audit-jobs :
      (s : Settings) (ident now : ℕ) (user job : Option ℕ) (event_type : String)
      → Ensures (audit s ident now user job event_type) e (λ _ f. P f.jobs)
  audit-jobs s ident now user job event_type =
      Ensures-audit s (λ f. P f.jobs) ident now user job event_type e λ l. h

  pub complete-jobs :
      (key : AttemptKey) (now : ℕ) (outcome : Outcome)
      → Ensures (complete_attempt key now outcome) e (λ _ f. P f.jobs)
  complete-jobs key now outcome = Ensures-complete_attempt _ e key now outcome λ a known. h

  pub refund-jobs :
      (s : Settings) (now u job a : ℕ) (reason : String)
      → Ensures (refund s now u job a reason) e (λ _ f. P f.jobs)
  unfolding refund
  refund-jobs s now u job a reason =
      Ensures-bind _ e (λ _ f. P f.jobs) _ _
        (Ensures-weaken _ (λ _ f. P f.jobs) _ e
          (change_credits-Posted s now u (pos 1) reason (LedgerKey.refund job a) true e)
          λ b f done. elim done [
            | inl same ↦ subst (λ (x : Db). P x.jobs) (sym same.unchanged) h
            | inr posted ↦ subst (λ (x : Db). P x.jobs) (sym posted.after) h
          ])
        λ _ f p. Ensures-pure _ f tt p

-- The rows of the other jobs are as they were.
abbrev pub OtherJobs : ℕ → Table ℕ Job → Table ℕ Job → Type 0
OtherJobs k t u = (i : ℕ) → k ≢ i → lookup i u ≡ lookup i t

pub update-OtherJobs :
    (k : ℕ) (test : Job → Bool) (change : Job → Job) (d : Db)
    → Ensures (update_job k test change) d (λ _ e. OtherJobs k d.jobs e.jobs)
update-OtherJobs k test change d =
    Ensures-update_job _ d k test change (λ i p. refl)
      λ j found held i p. lookup-put_ne k i (change j) d.jobs p

-- ===== src/Product/Soundness/Dispatched.antt =====
-- What `_begin_provider_dispatch` has done when it lets the worker call the provider.
use unrender.Base.{
  ℕ, ◌<◌, ◌/◌, ◌≡◌, refl, sym, subst, ap, ◌∙◌, Bool, true, false, not, Option, none, some, arith,
  leb,
}
use unrender.Base.Table.{lookup, put, lookup-put_self, nat_eq}
use unrender.Product.Settings.{Settings}
use unrender.Product.Schema.{Db, Job, Attempt, attempt_key_eq, Budget}
use unrender.Product.Tx.{Tx, ok, ◌>>=◌, pure}
use unrender.Product.Tx.Ensures.{
  Ensures, Ensures-pure, Ensures-bind, Ensures-gets_bind, Ensures-if, Ensures-raise_if_bind,
  Ensures-any, Ensures-of_run,
}
use unrender.Product.Admission.Rules.{Ensures-insert_row}
use unrender.Product.Audit.Frame.{Ensures-audit}
use unrender.Product.Budget.{reserve, reserve_dispatch}
use unrender.Product.Jobs.Updates.{WorkerClaim, holds_claim, dispatched}
use unrender.Product.Jobs.Statements.{Ensures-update_known}
use unrender.Product.Jobs.Finish.{attempt_key}
use unrender.Product.Jobs.Dispatch.{
  begin_provider_dispatch, dispatch_row, commit_dispatch, refuse, new_attempt, attempts_of,
  provider_circuit_open, has_reservation,
}
use unrender.Product.Soundness.Operations.{Ensures-claimed}

-- The conditions under which the provider may be called for a job, and the record of the call.
pub record MayCall (s : Settings) (c : WorkerClaim) (checked now : ℕ) (j : Job) (d : Db)
    : Type 0 where
  pub found : lookup c.job_id d.jobs ≡ some j
  pub claimed : holds_claim c checked j ≡ true
  pub undispatched : j.provider_dispatched ≡ false
  pub wanted : j.cancel_requested ≡ false
  pub reserved : has_reservation s c j ≡ true
  pub circuit_closed : provider_circuit_open s now c.user_id d ≡ false
  pub attempts_left : attempts_of c.job_id d < s.max_provider_attempts_per_job

pub record Called (s : Settings) (c : WorkerClaim) (checked now : ℕ) (d e : Db) : Type 0 where
  pub job : Job
  pub may : MayCall s c checked now job d
  pub granted : (reserve (now / 86400) s.max_provider_dispatches_per_day d.budget).0 ≡ true
  pub counted : e.budget ≡ some (reserve (now / 86400) s.max_provider_dispatches_per_day d.budget).1
  pub marked : lookup c.job_id e.jobs ≡ some (dispatched now job)
  pub is_new : lookup (attempt_key c) d.attempts ≡ none
  pub recorded : lookup (attempt_key c) e.attempts ≡ some (new_attempt c now)

fresh_of :
    (o : Option Attempt) → elim o as (λ _. Bool) [ none ↦ false | some a ↦ true ] ≡ false → o ≡ none
fresh_of none h = refl
fresh_of (some a) h = absurd (cc (h))

module _ (s : Settings) (ident checked now : ℕ) (c : WorkerClaim) (d : Db) where
  Goal : Bool → Db → Type 0
  Goal b e = b ≡ true → Called s c checked now d e

  refused : {A : Type 0} (m : Tx A) (e : Db) → Ensures (m >>= λ _. pure false) e Goal
  unfolding Goal
  refused m e =
      Ensures-bind _ e _ m _ (Ensures-any m e) λ _ f _. Ensures-pure _ f false λ h. absurd (cc (h))

  idle : (e : Db) → Ensures (pure false) e Goal
  unfolding Goal
  idle e = Ensures-pure _ e false λ h. absurd (cc (h))

  module _ (j : Job) (may : MayCall s c checked now j d)
      (granted : (reserve (now / 86400) s.max_provider_dispatches_per_day d.budget).0 ≡ true) where
    abbrev counted_row : Budget
    counted_row = (reserve (now / 86400) s.max_provider_dispatches_per_day d.budget).1

    commit_dispatch-Goal :
        Ensures (commit_dispatch s ident now c) (record d { budget = some counted_row }) Goal
    unfolding commit_dispatch Goal
    commit_dispatch-Goal =
        Ensures-bind _ _
          (λ b e.
            b ≡ true
            → e ≡ record d {
              budget = some counted_row;
              jobs = put c.job_id (dispatched now j) d.jobs;
            })
          _ _ (Ensures-update_known _ _ c.job_id _ _ j may.found (λ h. absurd (cc (h))) λ _ _. refl)
          λ b e p.
            Ensures-if _ e (not b) _ _ (λ _. Ensures-pure _ e false λ h. absurd (cc (h)))
              λ changed.
                let at_e = p (ground (arith, changed)) in
                Ensures-gets_bind _ e _ _ (
                  Ensures-raise_if_bind _ e _ _ _ λ fresh.
                    Ensures-bind _ e (λ _ f. Called s c checked now d f) _ _
                      (Ensures-insert_row s _ e _ _ _ _ (record {
                        job = j;
                        may = may;
                        granted = granted;
                        counted = ap (λ (x : Db). x.budget) at_e;
                        marked =
                            ap (λ (x : Db). lookup c.job_id x.jobs) at_e
                            ∙ lookup-put_self c.job_id (dispatched now j) d.jobs;
                        is_new =
                            sym (ap (λ (x : Db). lookup (attempt_key c) x.attempts) at_e)
                            ∙ fresh_of _ fresh;
                        recorded = lookup-put_self (attempt_key c) _ e.attempts;
                      }))
                      λ _ f q.
                        Ensures-bind _ f (λ _ g. Called s c checked now d g) _ _
                          (Ensures-audit s (Called s c checked now d) ident now _ _ _ f λ l.
                            record {
                              job = q.job;
                              may = q.may;
                              granted = q.granted;
                              counted = q.counted;
                              marked = q.marked;
                              is_new = q.is_new;
                              recorded = q.recorded;
                            })
                          λ _ g r. Ensures-pure _ g true λ _. r)

  reserved_row :
      (d : Db)
      → Ensures (reserve_dispatch (now / 86400) s.max_provider_dispatches_per_day) d (λ b e.
        (b ≡ (reserve (now / 86400) s.max_provider_dispatches_per_day d.budget).0)
        × (e ≡ record d {
          budget = some (reserve (now / 86400) s.max_provider_dispatches_per_day d.budget).1;
        }))
  unfolding reserve_dispatch
  reserved_row d = record { at = (refl, refl) }

  dispatch_row-Goal :
      (j : Job)
      → lookup c.job_id d.jobs ≡ some j
      → holds_claim c checked j ≡ true
      → Ensures (dispatch_row s ident now c j) d Goal
  unfolding dispatch_row refuse
  dispatch_row-Goal j found held =
      Ensures-if _ d j.provider_dispatched _ _ (λ _. idle d)
        λ undispatched.
          Ensures-if _ d j.cancel_requested _ _ (λ _. refused _ d)
            λ wanted.
              Ensures-if _ d (not (has_reservation s c j)) _ _ (λ _. refused _ d)
                λ reserved. Ensures-gets_bind _ d _ _ (
                  Ensures-if _ d (provider_circuit_open s now c.user_id d) _ _ (λ _. refused _ d)
                    λ closed. Ensures-gets_bind _ d (attempts_of c.job_id) _ (
                      Ensures-if _ d (leb s.max_provider_attempts_per_job (attempts_of c.job_id d))
                        _ _ (λ _. refused _ d)
                        λ left.
                          Ensures-bind _ d
                            (λ b e.
                              (b
                                ≡ (reserve (now / 86400) s.max_provider_dispatches_per_day
                                    d.budget).0)
                              × (e ≡ record d {
                                budget =
                                    some
                                      (reserve (now / 86400) s.max_provider_dispatches_per_day
                                        d.budget).1;
                              }))
                            _ _ (reserved_row d)
                            λ b e p.
                              Ensures-if _ e (not b) _ _ (λ _. refused _ e)
                                λ granted.
                                  subst (λ x. Ensures (commit_dispatch s ident now c) x Goal)
                                    (sym p.1)
                                    (commit_dispatch-Goal j
                                      (record {
                                        found = found;
                                        claimed = held;
                                        undispatched = undispatched;
                                        wanted = wanted;
                                        reserved = ground (arith, reserved);
                                        circuit_closed = closed;
                                        attempts_left = ground (arith, left);
                                      })
                                      (sym p.0 ∙ ground (arith, granted)))))

  begin_provider_dispatch-Goal : Ensures (begin_provider_dispatch s ident now checked c) d Goal
  unfolding begin_provider_dispatch Goal
  begin_provider_dispatch-Goal =
      Ensures-claimed _ d c checked false _ (λ h. absurd (cc (h)))
        λ j found held. dispatch_row-Goal j found held

-- When `_begin_provider_dispatch` returns True, its worker held the claim of an undispatched job without a
-- cancel request, with its result capacity reserved, the circuit closed and attempts left; the day's allowance granted the call
-- and has counted it; the job is marked, and the call is recorded under a key that was new.
pub begin_provider_dispatch-Called :
    (s : Settings) (ident checked now : ℕ) (c : WorkerClaim) (d e : Db)
    → begin_provider_dispatch s ident now checked c d ≡ ok (true, e)
    → Called s c checked now d e
unfolding Goal
begin_provider_dispatch-Called s ident checked now c d e h =
    Ensures-of_run _ d _ true e (begin_provider_dispatch-Goal s ident checked now c d) h refl

-- ===== src/Product/Soundness/Operations/DispatchSteps.antt =====
-- The dispatch to the provider keeps the invariant: it calls for no attempt twice, and for none that
-- was refunded.
use unrender.Base.{
  ℕ, ◌≤◌, ◌≡◌, ◌≢◌, refl, sym, subst, ◌∙◌, true, false, not, Option, none, some, String, arith, leb,
  Option-cases, inl, inr,
}
use unrender.Base.Table.{lookup, lookup-put_self, nat_eq}
use unrender.Product.Settings.{Settings}
use unrender.Product.Schema.{
  Db, Job, Attempt, AttemptKey, Budget, LedgerKey, running, is_status, ledger_key_eq,
  attempt_key_eq,
}
use unrender.Product.Tx.Ensures.{
  Ensures, Ensures-pure, Ensures-bind, Ensures-gets_bind, Ensures-if, Ensures-raise_if_bind,
}
use unrender.Product.Admission.Rules.{Ensures-insert_row}
use unrender.Product.Budget.{reserve_dispatch}
use unrender.Product.Jobs.Updates.{WorkerClaim, holds_claim, dispatched}
use unrender.Product.Jobs.Statements.{Ensures-update_job}
use unrender.Product.Jobs.Finish.{attempt_key}
use unrender.Product.Jobs.Dispatch.{
  begin_provider_dispatch, dispatch_row, commit_dispatch, refuse, new_attempt, has_reservation,
  provider_circuit_open, attempts_of, may_dispatch,
}
use unrender.Product.Soundness.Statements.{with_job, less_credit-HasHeadroom}
use unrender.Product.Soundness.Calls.{new_call-IsCoherent, dispatched-IsCoherent}
use unrender.Product.Soundness.Settled.{IsSound, IsSound-frame, audit-IsSound}
use unrender.Product.Soundness.Settlement.{
  holds_claim_parts, Changed, Ensures-if_changed, finish_failed-IsSound, finish_cancelled-IsSound,
}
use unrender.Product.Soundness.Operations.WorkerSteps.{Ensures-claimed}

-- What a new call of the attempt needs.
record IsUncalled (key : AttemptKey) (d : Db) : Type 0 where
  fits :
      (j : Job)
      → lookup key.job_id d.jobs ≡ some j
      → (key.attempt ≤ j.attempt) × (key.attempt ≡ j.attempt → j.provider_dispatched ≡ true)
  unpaid : lookup (LedgerKey.refund key.job_id key.attempt) d.ledger ≡ none
  alone :
      (other : AttemptKey) (y : Attempt)
      → lookup other d.attempts ≡ some y
      → key.job_id ≡ other.job_id
      → key.attempt ≢ other.attempt

may_dispatch_parts :
    (c : WorkerClaim) (now : ℕ) (j : Job)
    → may_dispatch c now j ≡ true
    → (holds_claim c now j ≡ true) × (j.provider_dispatched ≡ false)
may_dispatch_parts c now j h = ground arith

dispatched_fields :
    (now : ℕ) (j : Job)
    → ((dispatched now j).attempt ≡ j.attempt)
      × ((dispatched now j).user_id ≡ j.user_id)
      × ((dispatched now j).provider_dispatched ≡ true)
unfolding dispatched
dispatched_fields now j = (refl, refl, refl)

module _ (s : Settings) (c : WorkerClaim) (now : ℕ) (j : Job) (d : Db)
    (found : lookup c.job_id d.jobs ≡ some j) (may : may_dispatch c now j ≡ true)
    (h : IsSound s d) where
  is_running : is_status j.status running ≡ true
  is_running = (holds_claim_parts c now j (may_dispatch_parts c now j may).0).2

  same_attempt : j.attempt ≡ c.attempt
  same_attempt = (holds_claim_parts c now j (may_dispatch_parts c now j may).0).1

  not_refunded : lookup (LedgerKey.refund c.job_id c.attempt) d.ledger ≡ none
  not_refunded = elim (Option-cases (lookup (LedgerKey.refund c.job_id c.attempt) d.ledger)) [
    | inl e ↦ e
    | inr (x, e) ↦
        ground
          (arith, h.coherent.refund_of c.job_id c.attempt x j e found, is_running, same_attempt)
  ]

  with_call-IsSound : IsSound s (with_job c.job_id (dispatched now j) d)
  with_call-IsSound = record {
    coherent = dispatched-IsCoherent c.job_id now j d found h.coherent is_running;
    headroom =
        less_credit-HasHeadroom c.job_id j (dispatched now j) d found s (dispatched_fields now j).1
          (λ e. ground (arith, dispatched_fields now j)) h.headroom;
  }

  with_call-IsUncalled : IsUncalled (attempt_key c) (with_job c.job_id (dispatched now j) d)
  with_call-IsUncalled = record {
    fits = λ q p. ground (
      arith,
      lookup-put_self c.job_id (dispatched now j) d.jobs,
      dispatched_fields now j,
      same_attempt,
    );
    unpaid = not_refunded;
    alone = λ other y p job attempt.
        let known =
          h.coherent.call_of other y j p (subst (λ i. lookup i d.jobs ≡ some j) job found) in
        cc (known.1 (sym attempt ∙ sym same_attempt), (may_dispatch_parts c now j may).1);
  }

module _ (s : Settings) (ident now : ℕ) (c : WorkerClaim) where
  commit_dispatch-IsSound :
      (d : Db) → IsSound s d → Ensures (commit_dispatch s ident now c) d (λ _ e. IsSound s e)
  unfolding commit_dispatch
  commit_dispatch-IsSound d h =
      Ensures-bind _ d (Changed (IsSound s) (λ e. IsSound s e × IsUncalled (attempt_key c) e)) _ _
        (Ensures-update_job _ d c.job_id _ _ h λ j found may.
          (with_call-IsSound s c now j d found may h, with_call-IsUncalled s c now j d found may h))
        λ b e p.
          Ensures-if_changed _ _ (IsSound s) b _ e p (λ q. q)
            λ (q, call). Ensures-gets_bind _ e _ _ (
              Ensures-raise_if_bind _ e _ _ _ λ _.
                Ensures-bind _ e (λ _ f. IsSound s f) _ _
                  (Ensures-insert_row s _ e _ _ _ _ (record {
                    coherent =
                        new_call-IsCoherent (attempt_key c) (new_attempt c now) e call.fits
                          call.unpaid call.alone q.coherent;
                    headroom = record { at = q.headroom.at };
                  }))
                  λ _ f hf.
                    Ensures-bind _ f _ _ _
                      (audit-IsSound s ident now _ _ "provider_dispatched" f hf)
                      λ _ g hg. Ensures-pure _ g true hg)

  module _ (current : Job) (code : String) (d : Db) (found : lookup c.job_id d.jobs ≡ some current)
      (h : IsSound s d) where
    refuse-IsSound : Ensures (refuse s ident now c code current) d (λ _ e. IsSound s e)
    unfolding refuse
    refuse-IsSound =
        Ensures-bind _ d _ _ _ (finish_failed-IsSound s ident now c current d found h code)
          λ _ e p. Ensures-pure _ e false p

  reserve_dispatch-frame :
      (day limit : ℕ) (d : Db)
      → Ensures
          (reserve_dispatch day limit)
          d
          (λ _ e. (b : Option Budget) × (e ≡ record d { budget = b }))
  unfolding reserve_dispatch
  reserve_dispatch-frame day limit d = record { at = (_, refl) }

  dispatch_row-IsSound :
      (current : Job) (d : Db)
      → lookup c.job_id d.jobs ≡ some current
      → IsSound s d
      → Ensures (dispatch_row s ident now c current) d (λ _ e. IsSound s e)
  unfolding dispatch_row
  dispatch_row-IsSound current d found h =
      Ensures-if _ d current.provider_dispatched _ _ (λ _. Ensures-pure _ d false h)
        λ _.
          Ensures-if _ d current.cancel_requested _ _
            (λ _.
              Ensures-bind _ d _ _ _ (finish_cancelled-IsSound s ident now c current d found h)
                λ _ e p. Ensures-pure _ e false p)
            λ _.
              Ensures-if _ d (not (has_reservation s c current)) _ _
                (λ _. refuse-IsSound current _ d found h)
                λ _. Ensures-gets_bind _ d _ _ (
                  Ensures-if _ d (provider_circuit_open s now c.user_id d) _ _
                    (λ _. refuse-IsSound current _ d found h)
                    λ _. Ensures-gets_bind _ d (attempts_of c.job_id) _ (
                      Ensures-if _ d (leb s.max_provider_attempts_per_job (attempts_of c.job_id d))
                        _ _ (λ _. refuse-IsSound current _ d found h)
                        λ _.
                          Ensures-bind _ d _ _ _ (reserve_dispatch-frame _ _ d)
                            λ granted e (b, same).
                              let he =
                                subst (IsSound s) (sym same)
                                  (IsSound-frame s d d.audit_log b d.versions d.billing_events h) in
                              Ensures-if _ e (not granted) _ _
                                (λ _.
                                  refuse-IsSound current _ e
                                    (subst (λ (x : Db). lookup c.job_id x.jobs ≡ some current)
                                      (sym same) found)
                                    he)
                                λ _. commit_dispatch-IsSound e he))

  pub begin_provider_dispatch-IsSound :
      (checked : ℕ) (d : Db)
      → IsSound s d
      → Ensures (begin_provider_dispatch s ident now checked c) d (λ _ e. IsSound s e)
  unfolding begin_provider_dispatch
  begin_provider_dispatch-IsSound checked d h =
      Ensures-claimed _ d c checked false _ h
        λ current found held. dispatch_row-IsSound current d found h

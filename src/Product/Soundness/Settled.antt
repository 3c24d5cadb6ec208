-- ===== src/Product/Soundness/Settled.antt =====
-- The whole invariant, the statements that follow a settlement, and a job that was just settled.
use unrender.Base.{ℕ, ◌≡◌, sym, subst, true, false, Option, some, String, arith}
use unrender.Base.Table.{Table, lookup, lookup-put_self, nat_eq}
use unrender.Product.Settings.{Settings}
use unrender.Product.Schema.{
  Db, Job, AttemptKey, LedgerKey, Outcome, AuditLog, Budget, Version, VersionKey, BillingEvent,
}
use unrender.Product.Tx.Ensures.{Ensures, Ensures-pure, Ensures-bind}
use unrender.Product.Audit.{audit}
use unrender.Product.Audit.Frame.{Ensures-audit}
use unrender.Product.Credits.{is_refundable}
use unrender.Product.Jobs.Statements.{complete_attempt, Ensures-complete_attempt}
use unrender.Product.Jobs.Finish.{refund}
use unrender.Product.Jobs.Requests.{is_settled}
use unrender.Product.Soundness.Invariant.{IsCoherent, HasHeadroom}
use unrender.Product.Soundness.Rows.{KeepsAttempt}
use unrender.Product.Soundness.Statements.{
  with_job, with_job-IsCoherent, less_credit-HasHeadroom, freed_line,
}
use unrender.Product.Soundness.Ledger.{KeyFits, HasLine, mandatory-Sound}
use unrender.Product.Soundness.Calls.{completed-IsCoherent}

pub record IsSound (s : Settings) (d : Db) : Type 0 where
  pub coherent : IsCoherent d
  pub headroom : HasHeadroom s d

-- Tables that the invariant does not read may change.
pub IsSound-frame :
    (s : Settings) (d : Db) (l : AuditLog) (b : Option Budget) (v : Table VersionKey Version)
    (events : Table String BillingEvent)
    → IsSound s d
    → IsSound s (record d { audit_log = l; budget = b; versions = v; billing_events = events })
IsSound-frame s d l b v events h = record {
  coherent = record {
    consistent = h.coherent.consistent;
    keyed = h.coherent.keyed;
    balanced = record { at = h.coherent.balanced.at };
    refund_of = h.coherent.refund_of;
    reserve_of = h.coherent.reserve_of;
    call_of = h.coherent.call_of;
    exclusive = h.coherent.exclusive;
    single = h.coherent.single;
  };
  headroom = record { at = h.headroom.at };
}

module _ (s : Settings) (ident now : ℕ) where
  pub audit-IsSound :
      (user job : Option ℕ) (event_type : String) (d : Db)
      → IsSound s d
      → Ensures (audit s ident now user job event_type) d (λ _ e. IsSound s e)
  audit-IsSound user job event_type d h =
      Ensures-audit s (IsSound s) ident now user job event_type d
        λ l. IsSound-frame s d l d.budget d.versions d.billing_events h

  pub complete-IsSound :
      (key : AttemptKey) (outcome : Outcome) (d : Db)
      → IsSound s d
      → Ensures (complete_attempt key now outcome) d (λ _ e. IsSound s e)
  complete-IsSound key outcome d h = Ensures-complete_attempt _ d key now outcome λ a known.
      record {
        coherent = completed-IsCoherent key a _ d known h.coherent;
        headroom = record { at = h.headroom.at };
      }

  pub refund-IsSound :
      (u k a : ℕ) (reason : String) (d : Db)
      → IsSound s d
      → KeyFits d (LedgerKey.refund k a)
      → HasLine s u d
      → Ensures (refund s now u k a reason) d (λ _ e. IsSound s e)
  unfolding refund
  refund-IsSound u k a reason d h fits line =
      Ensures-bind _ d _ _ _
        (mandatory-Sound s now u _ reason (LedgerKey.refund k a) d h.coherent fits h.headroom line)
        λ _ e p. Ensures-pure _ e tt (record { coherent = p.0; headroom = p.1 })

-- A job that has just been settled.
pub record Settled (s : Settings) (k : ℕ) (j : Job) (e : Db) : Type 0 where
  pub sound : IsSound s e
  pub line : is_refundable j ≡ true → HasLine s j.user_id e
  pub fits : j.provider_dispatched ≡ false → KeyFits e (LedgerKey.refund k j.attempt)

module _ (s : Settings) (k : ℕ) (j j' : Job) (d : Db) (found : lookup k d.jobs ≡ some j) where
  settled_key :
      IsCoherent d
      → KeepsAttempt j j'
      → is_settled j'.status ≡ true
      → j.provider_dispatched ≡ false
      → KeyFits (with_job k j' d) (LedgerKey.refund k j.attempt)
  settled_key h keeps settled undispatched = (
    λ q p. ground (arith, lookup-put_self k j' d.jobs, keeps.same_attempt, keeps.same_dispatch),
    λ key x p job attempt. cc (
      (h.call_of key x j p (subst (λ i. lookup i d.jobs ≡ some j) (sym job) found)).1 attempt,
      undispatched,
    ),
  )

  pub with_job-Settled :
      IsSound s d
      → KeepsAttempt j j'
      → is_settled j'.status ≡ true
      → is_refundable j' ≡ false
      → Settled s k j (with_job k j' d)
  with_job-Settled h keeps settled spent = record {
    sound = record {
      coherent = with_job-IsCoherent k j j' d found keeps h.coherent;
      headroom =
          less_credit-HasHeadroom k j j' d found s keeps.same_user keeps.no_new_credit h.headroom;
    };
    line = λ held. freed_line k j j' d found s h.headroom held spent;
    fits = settled_key h.coherent keeps settled;
  }

-- ===== src/Product/Soundness/Conserved.antt =====
-- The credits of a user: the balance of the account and the credits that the user's jobs hold until
-- their provider is called.
pub mod Steps
pub mod Settlements
use unrender.Base.{
  ℕ, suc, ◌+◌, ◌≤◌, ◌≡◌, ◌≢◌, refl, sym, ap, subst, ◌∙◌, inl, inr, Bool, true, false, ◌&&◌, not,
  Option, none, some, String, arith, ◌==◌, if◌then◌else◌, Option-cases, ==_iff,
}
use unrender.Base.Int.{ℤ, pos, pos_part, neg_part}
use unrender.Base.Table.{Table, lookup, put, lookup-put, nat_eq}
use unrender.Product.Settings.{Settings}
use unrender.Product.Schema.{
  Db, Job, User, Entry, AttemptKey, LedgerKey, Outcome, AuditLog, queued, running, is_status,
  ledger_key_eq,
}
use unrender.Product.Tx.{Tx, ◌>>=◌, ◌>>◌, pure, when}
use unrender.Product.Tx.Ensures.{
  Ensures, Ensures-pure, Ensures-bind, Ensures-when, Ensures-weaken, Ensures-if,
}
use unrender.Product.Admission.{one_if}
use unrender.Product.Audit.{audit}
use unrender.Product.Audit.Frame.{Ensures-audit}
use unrender.Product.Credits.{is_refundable, refundable}
use unrender.Product.Credits.Rules.{Posted, change_credits-Posted}
use unrender.Product.Jobs.Statements.{complete_attempt, Ensures-complete_attempt}
use unrender.Product.Jobs.Finish.{refund}
use unrender.Product.Jobs.Requests.{is_settled}
use unrender.Product.Soundness.Invariant.{IsCoherent}
use unrender.Product.Soundness.Statements.{with_job, refundable-with_job}

abbrev pub balance_of : Option User → ℕ
balance_of none = 0
balance_of (some x) = x.credit_balance

unfoldable pub held : ℕ → Db → ℕ
held u d = balance_of (lookup u d.users) + refundable u d.jobs

-- No user has gained or lost a credit.
pub record Conserves (d e : Db) : Type 0 where
  pub at : (u : ℕ) → held u e ≡ held u d

pub Conserves-refl : (d : Db) → Conserves d d
Conserves-refl d = record { at = λ u. refl }

module _ (k : ℕ) (j j' : Job) (d : Db) (found : lookup k d.jobs ≡ some j)
    (same : j'.user_id ≡ j.user_id) where
  held-with_job :
      (u : ℕ)
      → held u (with_job k j' d) + one_if (j.user_id == u && is_refundable j)
        ≡ held u d + one_if (j'.user_id == u && is_refundable j')
  unfolding held
  held-with_job u = omega (arith, refundable-with_job k j j' d found u)

  -- A job that holds what it held.
  pub with_job-Conserves : is_refundable j' ≡ is_refundable j → Conserves d (with_job k j' d)
  with_job-Conserves p = record { at = λ u. ground (arith, held-with_job u, same, p) }

-- A posted entry moves its owner's credits by its amount.
pub held-Posted :
    (s : Settings) (u : ℕ) (delta : ℤ) (key : LedgerKey) (mandatory : Bool) (d e : Db)
    → Posted s u delta key mandatory d e
    → (v : ℕ)
    → held v e + (if u == v then neg_part delta else 0)
      ≡ held v d + (if u == v then pos_part delta else 0)
unfolding held
held-Posted s u delta key mandatory d e p v =
    subst
      (λ (x : Db).
        balance_of (lookup v x.users) + refundable v x.jobs + (if u == v then neg_part delta else 0)
        ≡ balance_of (lookup v d.users)
          + refundable v d.jobs
          + (if u == v then pos_part delta else 0))
      (sym p.after)
      (ground (
        arith,
        lookup-put u v (record p.account { credit_balance = p.entry.balance_after }) d.users,
        p.balance,
        p.found,
        ==_iff u v,
      ))

-- A job was settled, and the credit that it held has not been given back yet.
pub record Owes (k : ℕ) (j : Job) (d e : Db) : Type 0 where
  pub amount : (u : ℕ) → held u e + one_if (j.user_id == u && is_refundable j) ≡ held u d
  pub unpaid : lookup (LedgerKey.refund k j.attempt) e.ledger ≡ none

pub settled-Owes :
    (k : ℕ) (j j' : Job) (d : Db)
    → lookup k d.jobs ≡ some j
    → IsCoherent d
    → is_settled j.status ≡ false
    → j'.user_id ≡ j.user_id
    → is_refundable j' ≡ false
    → Owes k j d (with_job k j' d)
settled-Owes k j j' d found h active same spent = record {
  amount = λ u. ground (arith, held-with_job k j j' d found same u, spent);
  unpaid = elim (Option-cases (lookup (LedgerKey.refund k j.attempt) d.ledger)) [
    | inl e ↦ e
    | inr (x, e) ↦ absurd (cc (((h.refund_of k j.attempt x j e found).1 refl).0, active))
  ];
}

module _ (s : Settings) (ident now k : ℕ) (j : Job) (d e : Db) (h : Owes k j d e) where
  paid-Conserves :
      (reason : String)
      → is_refundable j ≡ true
      → Ensures (refund s now j.user_id k j.attempt reason) e (λ _ f. Conserves d f)
  unfolding refund
  paid-Conserves reason credit =
      Ensures-bind _ e (λ _ f. Conserves d f) _ _
        (Ensures-weaken _ _ _ e
          (change_credits-Posted s now j.user_id (pos 1) reason (LedgerKey.refund k j.attempt) true
            e)
          λ b f done. elim done [
            | inl same ↦ absurd (cc (same.known, h.unpaid))
            | inr p ↦ record {
              at = λ v.
                  ground
                    (arith, held-Posted s j.user_id (pos 1) _ true e f p v, h.amount v, credit);
            }
          ])
        λ _ f p. Ensures-pure _ f tt p

  unpaid-Conserves : is_refundable j ≡ false → Conserves d e
  unpaid-Conserves free = record { at = λ v. ground (arith, h.amount v, free) }

pub audit-Conserves :
    (s : Settings) (ident now : ℕ) (user job : Option ℕ) (event_type : String) (d e : Db)
    → Conserves d e
    → Ensures (audit s ident now user job event_type) e (λ _ f. Conserves d f)
unfolding held
audit-Conserves s ident now user job event_type d e h =
    Ensures-audit s (Conserves d) ident now user job event_type e λ l. record { at = h.at }

pub complete-Conserves :
    (key : AttemptKey) (now : ℕ) (outcome : Outcome) (d e : Db)
    → Conserves d e
    → Ensures (complete_attempt key now outcome) e (λ _ f. Conserves d f)
unfolding held
complete-Conserves key now outcome d e h =
    Ensures-complete_attempt _ e key now outcome λ a known. record { at = h.at }

module _ (s : Settings) (ident now k : ℕ) (j : Job) (d e : Db) (h : Owes k j d e) where
  -- the refund, the outcome of the provider's attempt, and the audit event
  pub settlement-Conserves :
      (u a : ℕ) (reason event_type : String) (key : AttemptKey) (outcome : Outcome) (r : Bool)
      → j.user_id ≡ u
      → j.attempt ≡ a
      → Ensures
          (do
            when (j.reservation_active && not j.provider_dispatched) (refund s now u k a reason)
            when j.provider_dispatched (complete_attempt key now outcome)
            audit s ident now (some u) (some k) event_type
            pure r)
          e
          (λ _ f. Conserves d f)
  settlement-Conserves u a reason event_type key outcome r same_user same_attempt =
      Ensures-bind _ e (λ _ f. Conserves d f) _ _
        (Ensures-when _ e _ _
          (λ credit.
            subst (λ v. Ensures (refund s now v k a reason) e (λ _ f. Conserves d f)) same_user
              (subst (λ n. Ensures (refund s now j.user_id k n reason) e (λ _ f. Conserves d f))
                same_attempt (paid-Conserves s ident now k j d e h reason credit)))
          (unpaid-Conserves s ident now k j d e h))
        λ _ f p.
          Ensures-bind _ f (λ _ g. Conserves d g) _ _
            (Ensures-when _ f _ _ (λ _. complete-Conserves key now outcome d f p) (λ _. p))
            λ _ g q.
              Ensures-bind _ g _ _ _
                (audit-Conserves s ident now (some u) (some k) event_type d g q)
                λ _ i x. Ensures-pure _ i r x

  -- the same for a job that was never claimed in this attempt
  pub withdrawal-Conserves :
      (reason event_type : String) (r : Bool)
      → j.provider_dispatched ≡ false
      → Ensures
          (do
            when j.reservation_active (refund s now j.user_id k j.attempt reason)
            audit s ident now (some j.user_id) (some k) event_type
            pure r)
          e
          (λ _ f. Conserves d f)
  withdrawal-Conserves reason event_type r idle =
      Ensures-bind _ e (λ _ f. Conserves d f) _ _
        (Ensures-when _ e _ _ (λ credit. paid-Conserves s ident now k j d e h reason (ground arith))
          (λ none_held. unpaid-Conserves s ident now k j d e h (ground arith)))
        λ _ f p.
          Ensures-bind _ f _ _ _ (audit-Conserves s ident now _ _ event_type d f p)
            λ _ g q. Ensures-pure _ g r q

-- ===== src/Product/Soundness/Ledger.antt =====
-- A new line of the ledger keeps the invariant, if its key fits the job that it names.
use unrender.Base.{
  ℕ, ◌+◌, ◌≤◌, ◌≡◌, ◌≢◌, refl, sym, subst, ◌∙◌, inl, inr, Bool, true, false, none, some, String,
  arith, ◌==◌, Bool-cases,
}
use unrender.Base.Int.{ℤ}
use unrender.Base.Table.{Table, lookup, put, lookup-put, sum-put_new, nat_eq}
use unrender.Product.Settings.{Settings}
use unrender.Product.Schema.{
  Db, Job, Entry, Attempt, AttemptKey, LedgerKey, ledger_key_eq, attempt_key_eq,
}
use unrender.Product.Admission.{one_if}
use unrender.Product.Tx.Ensures.{Ensures, Ensures-weaken}
use unrender.Product.Credits.{ledger_count, refundable, change_credits}
use unrender.Product.Credits.Balance.{IsBalanced, Posted-IsBalanced}
use unrender.Product.Credits.Rules.{Posted, change_credits-Posted}
use unrender.Product.Jobs.Requests.{is_settled}
use unrender.Product.Soundness.Invariant.{IsCoherent, HasHeadroom}

-- The key's job, if it is still there, has come as far as the attempt that the key names; a refund
-- is for an attempt that ended with no provider call.
abbrev pub KeyFits : Db → LedgerKey → Type 0
KeyFits d (LedgerKey.refund k a) =
    ((j : Job)
      → lookup k d.jobs ≡ some j
      → (a ≤ j.attempt)
        × (a ≡ j.attempt → (is_settled j.status ≡ true) × (j.provider_dispatched ≡ false)))
    × ((key : AttemptKey) (x : Attempt)
        → lookup key d.attempts ≡ some x
        → key.job_id ≡ k
        → key.attempt ≢ a)
KeyFits d (LedgerKey.reserve k a) = (j : Job) → lookup k d.jobs ≡ some j → a ≤ j.attempt
KeyFits d _ = Unit

lookup_other :
    (key other : LedgerKey) (entry : Entry) (l : Table LedgerKey Entry)
    → ledger_key_eq.beq key other ≡ false
    → lookup other (put key entry l) ≡ lookup other l
lookup_other key other entry l h = lookup-put key other entry l ∙ rw h

module _ (key : LedgerKey) (entry : Entry) (d : Db) (h : IsCoherent d) (fits : KeyFits d key) where
  same_key : (other : LedgerKey) → ledger_key_eq.beq key other ≡ true → KeyFits d other
  same_key other e = subst (KeyFits d) ((ledger_key_eq.beq_iff key other).0 e) fits

  refund_of_put :
      (k a : ℕ) (x : Entry) (j : Job)
      → lookup (LedgerKey.refund k a) (put key entry d.ledger) ≡ some x
      → lookup k d.jobs ≡ some j
      → (a ≤ j.attempt)
        × (a ≡ j.attempt → (is_settled j.status ≡ true) × (j.provider_dispatched ≡ false))
  refund_of_put k a x j p q = elim (Bool-cases (ledger_key_eq.beq key (LedgerKey.refund k a))) [
    | inl same ↦ (same_key (LedgerKey.refund k a) same).0 j q
    | inr other ↦
        h.refund_of k a x j (sym (lookup_other key (LedgerKey.refund k a) entry d.ledger other) ∙ p)
          q
  ]

  reserve_of_put :
      (k a : ℕ) (x : Entry) (j : Job)
      → lookup (LedgerKey.reserve k a) (put key entry d.ledger) ≡ some x
      → lookup k d.jobs ≡ some j
      → a ≤ j.attempt
  reserve_of_put k a x j p q = elim (Bool-cases (ledger_key_eq.beq key (LedgerKey.reserve k a))) [
    | inl same ↦ same_key (LedgerKey.reserve k a) same j q
    | inr other ↦
        h.reserve_of k a x j
          (sym (lookup_other key (LedgerKey.reserve k a) entry d.ledger other) ∙ p) q
  ]

  exclusive_put :
      (call : AttemptKey) (x : Attempt)
      → lookup call d.attempts ≡ some x
      → lookup (LedgerKey.refund call.job_id call.attempt) (put key entry d.ledger) ≡ none
  exclusive_put call x p =
      let other = LedgerKey.refund call.job_id call.attempt in
      elim (Bool-cases (ledger_key_eq.beq key other)) [
        | inl same ↦ absurd ((same_key other same).1 call x p refl refl)
        | inr differ ↦ lookup_other key other entry d.ledger differ ∙ h.exclusive call x p
      ]

pub Posted-IsCoherent :
    (s : Settings) (u : ℕ) (delta : ℤ) (key : LedgerKey) (mandatory : Bool) (d e : Db)
    → Posted s u delta key mandatory d e
    → IsCoherent d
    → KeyFits d key
    → IsCoherent e
Posted-IsCoherent s u delta key mandatory d e p h fits = subst IsCoherent (sym p.after) (record {
  consistent = h.consistent;
  keyed = h.keyed;
  balanced = subst IsBalanced p.after (Posted-IsBalanced s u delta key mandatory d e p h.balanced);
  refund_of = refund_of_put key p.entry d h fits;
  reserve_of = reserve_of_put key p.entry d h fits;
  call_of = h.call_of;
  exclusive = exclusive_put key p.entry d h fits;
  single = h.single;
})

ledger_count-put :
    (u : ℕ) (key : LedgerKey) (entry : Entry) (l : Table LedgerKey Entry)
    → lookup key l ≡ none
    → ledger_count u (put key entry l) ≡ ledger_count u l + one_if (entry.user_id == u)
unfolding ledger_count
ledger_count-put u key entry l fresh = sum-put_new _ key entry l fresh

-- A line may be added where the owner's ledger has one to spare.
abbrev pub HasLine : Settings → ℕ → Db → Type 0
HasLine s u d =
    ledger_count u d.ledger + 1 + refundable u d.jobs ≤ s.max_credit_ledger_records_per_user

-- The other users' ledgers have headroom.
abbrev pub OthersHaveHeadroom : Settings → ℕ → Db → Type 0
OthersHaveHeadroom s u d =
    (v : ℕ)
    → u ≢ v
    → ledger_count v d.ledger + refundable v d.jobs ≤ s.max_credit_ledger_records_per_user

pub Posted-HasHeadroom :
    (s : Settings) (u : ℕ) (delta : ℤ) (key : LedgerKey) (mandatory : Bool) (d e : Db)
    → Posted s u delta key mandatory d e
    → HasLine s u d
    → OthersHaveHeadroom s u d
    → HasHeadroom s e
Posted-HasHeadroom s u delta key mandatory d e p line others =
    subst (HasHeadroom s) (sym p.after) (record {
      at = λ v.
          ground (arith, ledger_count-put v key p.entry d.ledger p.is_new, p.owner, others v, line);
    })

module _ (s : Settings) (now u : ℕ) (delta : ℤ) (reason : String) (key : LedgerKey) (d : Db)
    (h : IsCoherent d) (fits : KeyFits d key) where
  -- A mandatory line, for which room was kept.
  pub mandatory-Sound :
      HasHeadroom s d
      → HasLine s u d
      → Ensures
          (change_credits s now u delta reason key true)
          d
          (λ b e. IsCoherent e × HasHeadroom s e)
  mandatory-Sound room line =
      Ensures-weaken _ _ _ d (change_credits-Posted s now u delta reason key true d) λ b e done.
        elim done [
          | inl same ↦ (
            subst IsCoherent (sym same.unchanged) h,
            subst (HasHeadroom s) (sym same.unchanged) room,
          )
          | inr p ↦ (
            Posted-IsCoherent s u delta key true d e p h fits,
            Posted-HasHeadroom s u delta key true d e p line (λ v _. room.at v),
          )
        ]

  -- Any other line, for a key that the ledger does not know: the call itself looks for the room.
  pub optional-Sound :
      lookup key d.ledger ≡ none
      → OthersHaveHeadroom s u d
      → Ensures
          (change_credits s now u delta reason key false)
          d
          (λ b e. IsCoherent e × HasHeadroom s e)
  optional-Sound fresh others =
      Ensures-weaken _ _ _ d (change_credits-Posted s now u delta reason key false d) λ b e done.
        elim done [
          | inl same ↦ absurd (cc (same.known, fresh))
          | inr p ↦ (
            Posted-IsCoherent s u delta key false d e p h fits,
            Posted-HasHeadroom s u delta key false d e p (p.room_for_refunds refl) others,
          )
        ]

  -- The same where there was headroom: a known key changes nothing.
  pub credit-Sound :
      HasHeadroom s d
      → Ensures
          (change_credits s now u delta reason key false)
          d
          (λ b e. IsCoherent e × HasHeadroom s e)
  credit-Sound room =
      Ensures-weaken _ _ _ d (change_credits-Posted s now u delta reason key false d) λ b e done.
        elim done [
          | inl same ↦ (
            subst IsCoherent (sym same.unchanged) h,
            subst (HasHeadroom s) (sym same.unchanged) room,
          )
          | inr p ↦ (
            Posted-IsCoherent s u delta key false d e p h fits,
            Posted-HasHeadroom s u delta key false d e p (p.room_for_refunds refl)
                (λ v _. room.at v),
          )
        ]

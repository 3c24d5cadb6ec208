-- ===== src/Product/Soundness/Calls.antt =====
-- The statements on provider attempts and on the attempt of a job keep the invariant.
use unrender.Base.{
  ℕ, ◌≤◌, ◌≡◌, ◌≢◌, sym, subst, ◌∙◌, inl, inr, ◌⊎◌, Bool, true, none, some, arith, Bool-cases,
}
use unrender.Base.Table.{Table, lookup, put, lookup-put, nat_eq}
use unrender.Base.Table.Keyed.{put-IsKeyed}
use unrender.Product.Settings.{Settings}
use unrender.Product.Schema.{
  Db, Job, Attempt, AttemptKey, LedgerKey, running, is_status, ledger_key_eq, attempt_key_eq,
}
use unrender.Product.Jobs.Updates.{dispatched, requeued}
use unrender.Product.Soundness.Invariant.{IsConsistent, IsCoherent}
use unrender.Product.Soundness.Statements.{with_job}

abbrev pub with_attempt : AttemptKey → Attempt → Db → Db
with_attempt key x d = record d { attempts = put key x d.attempts }

-- A key that the table holds after a row was put: the row's own key, or one that was there.
put_cases :
    (key other : AttemptKey) (x y : Attempt) (t : Table AttemptKey Attempt)
    → lookup other (put key x t) ≡ some y
    → (key ≡ other) ⊎ (lookup other t ≡ some y)
put_cases key other x y t p = elim (Bool-cases (attempt_key_eq.beq key other)) [
  | inl same ↦ inl ((attempt_key_eq.beq_iff key other).0 same)
  | inr differ ↦ inr (sym (lookup-put key other x t ∙ rw differ) ∙ p)
]

-- The row of a call that is known is replaced.
pub completed-IsCoherent :
    (key : AttemptKey) (x x' : Attempt) (d : Db)
    → lookup key d.attempts ≡ some x
    → IsCoherent d
    → IsCoherent (with_attempt key x' d)
completed-IsCoherent key x x' d known h = record {
  consistent = h.consistent;
  keyed = h.keyed;
  balanced = record { at = h.balanced.at };
  refund_of = h.refund_of;
  reserve_of = h.reserve_of;
  call_of = λ other y j p q. h.call_of other (old other y p).0 j (old other y p).1 q;
  exclusive = λ other y p. h.exclusive other (old other y p).0 (old other y p).1;
  single = λ a b y z p q. h.single a b (old a y p).0 (old b z q).0 (old a y p).1 (old b z q).1;
}
  where
    old :
        (other : AttemptKey) (y : Attempt)
        → lookup other (put key x' d.attempts) ≡ some y
        → (z : Attempt) × (lookup other d.attempts ≡ some z)
    old other y p = elim (put_cases key other x' y d.attempts p) [
      | inl same ↦ (x, subst (λ k. lookup k d.attempts ≡ some x) same known)
      | inr q ↦ (y, q)
    ]

-- A call of a job's current attempt that the provider and the ledger know nothing of yet.
pub new_call-IsCoherent :
    (key : AttemptKey) (x : Attempt) (d : Db)
    → ((j : Job)
        → lookup key.job_id d.jobs ≡ some j
        → (key.attempt ≤ j.attempt) × (key.attempt ≡ j.attempt → j.provider_dispatched ≡ true))
    → lookup (LedgerKey.refund key.job_id key.attempt) d.ledger ≡ none
    → ((other : AttemptKey) (y : Attempt)
        → lookup other d.attempts ≡ some y
        → key.job_id ≡ other.job_id
        → key.attempt ≢ other.attempt)
    → IsCoherent d
    → IsCoherent (with_attempt key x d)
new_call-IsCoherent key x d fits unpaid alone h = record {
  consistent = h.consistent;
  keyed = h.keyed;
  balanced = record { at = h.balanced.at };
  refund_of = h.refund_of;
  reserve_of = h.reserve_of;
  call_of = λ other y j p q. elim (put_cases key other x y d.attempts p) [
    | inl same ↦
        subst
          (λ (k : AttemptKey).
            (k.attempt ≤ j.attempt) × (k.attempt ≡ j.attempt → j.provider_dispatched ≡ true))
          same (fits j (subst (λ (k : AttemptKey). lookup k.job_id d.jobs ≡ some j) (sym same) q))
    | inr r ↦ h.call_of other y j r q
  ];
  exclusive = λ other y p. elim (put_cases key other x y d.attempts p) [
    | inl same ↦
        subst (λ (k : AttemptKey). lookup (LedgerKey.refund k.job_id k.attempt) d.ledger ≡ none)
          same unpaid
    | inr r ↦ h.exclusive other y r
  ];
  single = λ a b y z p q job attempt. elim (put_cases key a x y d.attempts p) [
    | inl same ↦ elim (put_cases key b x z d.attempts q) [
      | inl same' ↦ cc
      | inr r' ↦ absurd (alone b z r' (cc) (cc))
    ]
    | inr r ↦ elim (put_cases key b x z d.attempts q) [
      | inl same' ↦ absurd (alone a y r (cc) (cc))
      | inr r' ↦ h.single a b y z r r' job attempt
    ]
  ];
}

module _ (k now : ℕ) (j : Job) (d : Db) (found : lookup k d.jobs ≡ some j) (h : IsCoherent d) where
  dispatched-IsConsistent :
      is_status j.status running ≡ true → IsConsistent j → IsConsistent (dispatched now j)
  unfolding dispatched
  dispatched-IsConsistent r ok = ground arith

  pub dispatched-IsCoherent :
      is_status j.status running ≡ true → IsCoherent (with_job k (dispatched now j) d)
  unfolding dispatched
  dispatched-IsCoherent r =
      let j' = dispatched now j in
      let ok = dispatched-IsConsistent r (h.consistent k j found) in
      record {
        consistent = λ i q p. ground (arith, lookup-put k i j' d.jobs, h.consistent i q, ok);
        keyed = put-IsKeyed k j' d.jobs h.keyed;
        balanced = record { at = h.balanced.at };
        refund_of = λ i a x q p e.
            ground
              (arith, lookup-put k i j' d.jobs, h.refund_of i a x q, h.refund_of k a x j, found);
        reserve_of = λ i a x q p e.
            ground
              (arith, lookup-put k i j' d.jobs, h.reserve_of i a x q, h.reserve_of k a x j, found);
        call_of = λ key x q p e.
            ground (
              arith,
              lookup-put k key.job_id j' d.jobs,
              h.call_of key x q,
              h.call_of key x j,
              found,
            );
        exclusive = h.exclusive;
        single = h.single;
      }

  pub requeued-IsCoherent :
      (s : Settings) (costs : Bool) → IsCoherent (with_job k (requeued s now costs j) d)
  unfolding requeued
  requeued-IsCoherent s costs =
      let j' = requeued s now costs j in
      record {
        consistent = λ i q p. ground (arith, lookup-put k i j' d.jobs, h.consistent i q);
        keyed = put-IsKeyed k j' d.jobs h.keyed;
        balanced = record { at = h.balanced.at };
        refund_of = λ i a x q p e.
            ground
              (arith, lookup-put k i j' d.jobs, h.refund_of i a x q, h.refund_of k a x j, found);
        reserve_of = λ i a x q p e.
            ground
              (arith, lookup-put k i j' d.jobs, h.reserve_of i a x q, h.reserve_of k a x j, found);
        call_of = λ key x q p e.
            ground (
              arith,
              lookup-put k key.job_id j' d.jobs,
              h.call_of key x q,
              h.call_of key x j,
              found,
            );
        exclusive = h.exclusive;
        single = h.single;
      }

-- ===== src/Product/Soundness/Recovered.antt =====
-- What the recovery of interrupted jobs leaves behind.
use unrender.Base.{
  ℕ, suc, ◌≡◌, ◌≢◌, refl, sym, subst, ◌∙◌, inl, inr, true, false, Option, none, some, arith, [],
  ◌∷◌, ◌==◌, Bool-cases, ==_iff,
}
use unrender.Base.Lists.{select}
use unrender.Base.Table.{Table, lookup, put, lookup-put, nat_eq}
use unrender.Base.Table.Keyed.{
  IsKeyed, select-IsKeyed, select-holds, lookup-select, lookup-select_hit, lookup-head, lookup-tail,
}
use unrender.Product.Settings.{Settings}
use unrender.Product.Schema.{Db, Job, option_beq}
use unrender.Product.Tx.{ok}
use unrender.Product.Tx.Ensures.{
  Ensures, Ensures-pure, Ensures-bind, Ensures-gets_bind, Ensures-of_run,
}
use unrender.Product.Jobs.Updates.{recovered, stopped}
use unrender.Product.Jobs.Statements.{Ensures-update_sure}
use unrender.Product.Jobs.Recovery.{
  same_execution, recover_row, recover_rows, recover_interrupted_jobs, is_interrupted,
}
use unrender.Product.Soundness.Operations.{recover_row-jobs}

option_same : (o : Option ℕ) → option_beq o o ≡ true
option_same none = refl
option_same (some a) = ground arith

-- An interrupted row satisfies the WHERE clause that was built from it.
same_row : (now : ℕ) (row : Job) → is_interrupted now row ≡ true → same_execution now row row ≡ true
unfolding same_execution
same_row now row h = ground (arith, h, option_same row.worker_owner, option_same row.lease_token)

module _ (now : ℕ) (row : Job) where
  recovered_idle : is_interrupted now (recovered now row) ≡ false
  unfolding recovered
  recovered_idle = refl

  stopped_idle : is_interrupted now (stopped now row) ≡ false
  unfolding stopped
  stopped_idle = ground arith

-- One round clears the job, and leaves the others.
Cleared : ℕ → ℕ → Table ℕ Job → Table ℕ Job → Type 0
Cleared now k t u =
    ((i : ℕ) → k ≢ i → lookup i u ≡ lookup i t)
    × ((j : Job) → lookup k u ≡ some j → is_interrupted now j ≡ false)

module _ (s : Settings) (now k : ℕ) (row : Job) where
  put-Cleared :
      (j' : Job) (t : Table ℕ Job) → is_interrupted now j' ≡ false → Cleared now k t (put k j' t)
  unfolding Cleared
  put-Cleared j' t h = (
    λ i other. ground (arith, lookup-put k i j' t),
    λ j p. ground (arith, lookup-put k k j' t, p, h),
  )

  recover_row-Cleared :
      (ident : ℕ) (d : Db)
      → lookup k d.jobs ≡ some row
      → is_interrupted now row ≡ true
      → Ensures (recover_row s now ident (k, row)) d (λ _ e. Cleared now k d.jobs e.jobs)
  recover_row-Cleared ident d found h =
      recover_row-jobs (Cleared now k d.jobs) s now ident k row d
        (Ensures-update_sure _ d k _ _ row found (same_row now row h)
          (put-Cleared _ d.jobs (recovered_idle now row)))
        (Ensures-update_sure _ d k _ _ row found (same_row now row h)
          (put-Cleared _ d.jobs (stopped_idle now row)))

-- The jobs that are still to be recovered are the remaining rows of the loop.
Pending : ℕ → Table ℕ Job → Table ℕ Job → Type 0
Pending now rows t =
    (k : ℕ) (j : Job) → lookup k t ≡ some j → is_interrupted now j ≡ true → lookup k rows ≡ some j

module _ (s : Settings) (now : ℕ) where
  still-Pending :
      (k : ℕ) (row : Job) (rows : Table ℕ Job) (d e : Db)
      → Cleared now k d.jobs e.jobs
      → Pending now ((k, row) ∷ rows) d.jobs
      → Pending now rows e.jobs
  unfolding Cleared Pending lookup
  still-Pending k row rows d e p h i j found held = elim (Bool-cases (k == i)) [
    | inl same ↦
        let at_k = subst (λ m. lookup m e.jobs ≡ some j) (sym ((==_iff k i).0 same)) found in
        absurd (cc (p.1 j at_k, held))
    | inr other ↦
        let differ : k ≢ i = λ q. cc (other, (==_iff k i).1 q) in
        rw other at (h i j (sym (p.0 i differ) ∙ found) held)
  ]

  recover_rows-clears :
      (ident : ℕ) (rows : Table ℕ Job) (d : Db)
      → IsKeyed rows
      → ((i : ℕ) (j : Job)
          → lookup i rows ≡ some j
          → (lookup i d.jobs ≡ some j) × (is_interrupted now j ≡ true))
      → Pending now rows d.jobs
      → Ensures (recover_rows s now ident rows) d (λ _ e. Pending now [] e.jobs)
  unfolding recover_rows Cleared
  recover_rows-clears ident [] d keyed known h = Ensures-pure _ d 0 h
  recover_rows-clears ident ((k, row) ∷ rows) d keyed known h =
      let first = known k row (lookup-head k row rows) in
      Ensures-bind _ d _ _ _ (recover_row-Cleared s now k row ident d first.0 first.1) λ done e p.
        Ensures-bind _ e (λ _ f. Pending now [] f.jobs) _ _
          (recover_rows-clears (suc ident) rows e keyed.1
            (λ i j q.
              let tail = lookup-tail k row i j rows keyed.0 q in
              let old = known i j tail.1 in (p.0 i tail.0 ∙ old.0, old.1))
            (still-Pending k row rows d e p h))
          λ n f q. Ensures-pure _ f _ q

module _ (s : Settings) (now ident : ℕ) (d : Db) (keyed : IsKeyed d.jobs) where
  selected :
      (i : ℕ) (j : Job)
      → lookup i (select (λ r. is_interrupted now r.1) d.jobs) ≡ some j
      → (lookup i d.jobs ≡ some j) × (is_interrupted now j ≡ true)
  selected i j p = (lookup-select _ i j d.jobs keyed p, select-holds _ i j d.jobs p)

  all_cleared : Ensures (recover_interrupted_jobs s now ident) d (λ _ e. Pending now [] e.jobs)
  unfolding recover_interrupted_jobs Pending
  all_cleared = Ensures-gets_bind _ d _ _ (
      recover_rows-clears s now ident _ d (select-IsKeyed _ d.jobs keyed) selected
        (λ k j p h. lookup-select_hit _ k j d.jobs keyed p h))

-- When the recovery returns, no job is running with a lease that had expired at its clock reading (or with none).
pub recover_interrupted_jobs-clears :
    (s : Settings) (now ident n : ℕ) (d e : Db) (k : ℕ) (j : Job)
    → IsKeyed d.jobs
    → recover_interrupted_jobs s now ident d ≡ ok (n, e)
    → lookup k e.jobs ≡ some j
    → is_interrupted now j ≡ false
unfolding Pending lookup
recover_interrupted_jobs-clears s now ident n d e k j keyed run found =
    elim (Bool-cases (is_interrupted now j)) [
      | inl held ↦ absurd (cc (done k j found held))
      | inr idle ↦ idle
    ]
  where
    done : Pending now [] e.jobs
    done = Ensures-of_run _ d _ n e (all_cleared s now ident d keyed) run

-- ===== src/Product/Jobs/Statements.antt =====
-- The statements on the tables of jobs and provider attempts, with their row counts.
use unrender.Base.{
  ℕ, ◌≡◌, refl, sym, subst, ◌∙◌, Bool, true, false, Option, none, some, if◌then◌else◌,
}
use unrender.Base.Table.{lookup, put, nat_eq}
use unrender.Product.Schema.{Db, Job, Attempt, AttemptKey, attempt_key_eq, Outcome}
use unrender.Product.Tx.{Tx, Result, ok, err, runtime_error}
use unrender.Product.Tx.Ensures.{Ensures, Holds}

update_row : ℕ → (Job → Bool) → (Job → Job) → Option Job → Tx Bool
update_row k test f none d = ok (false, d)
update_row k test f (some j) d =
    if test j then ok (true, record d { jobs = put k (f j) d.jobs }) else ok (false, d)

-- `UPDATE jobs SET ... WHERE id=? AND ...`: whether its row count is 1
unfoldable pub update_job : ℕ → (Job → Bool) → (Job → Job) → Tx Bool
unfolding update_row
update_job k test f d = update_row k test f (lookup k d.jobs) d

-- `SELECT * FROM jobs WHERE id=? AND ...`
abbrev pub row_if : (Job → Bool) → Option Job → Option Job
row_if test none = none
row_if test (some j) = if test j then some j else none

-- `outcome='dispatched'`
abbrev pub is_open : Outcome → Bool
is_open Outcome.dispatched = true
is_open _ = false

abbrev pub completed : ℕ → Outcome → Attempt → Attempt
completed now outcome a = record a { outcome = outcome; completed_at = some now }

complete_row : AttemptKey → ℕ → Outcome → Option Attempt → Tx Unit
complete_row k now outcome none d = err runtime_error
complete_row k now outcome (some a) d =
    if is_open a.outcome
    then ok (tt, record d { attempts = put k (completed now outcome a) d.attempts })
    else err runtime_error

-- `UPDATE provider_attempts SET outcome=?,... WHERE ... AND outcome='dispatched'`, and the
-- RuntimeError unless its row count is 1
unfoldable pub complete_attempt : AttemptKey → ℕ → Outcome → Tx Unit
unfolding complete_row
complete_attempt k now outcome d = complete_row k now outcome (lookup k d.attempts) d

update_row-Ensures :
    (Q : Bool → Db → Type 0) (d : Db) (k : ℕ) (test : Job → Bool) (f : Job → Job) (o : Option Job)
    → lookup k d.jobs ≡ o
    → Q false d
    → ((j : Job)
        → lookup k d.jobs ≡ some j
        → test j ≡ true
        → Q true (record d { jobs = put k (f j) d.jobs }))
    → Ensures (update_row k test f o) d Q
unfolding update_row
update_row-Ensures Q d k test f none p h g = record { at = h }
update_row-Ensures Q d k test f (some j) p h g = go (test j) refl
  where
    go :
        (b : Bool)
        → test j ≡ b
        → Ensures
            (λ d. if b then ok (true, record d { jobs = put k (f j) d.jobs }) else ok (false, d))
            d
            Q
    go true e = record { at = g j p e }
    go false e = record { at = h }

pub Ensures-update_job :
    (Q : Bool → Db → Type 0) (d : Db) (k : ℕ) (test : Job → Bool) (f : Job → Job)
    → Q false d
    → ((j : Job)
        → lookup k d.jobs ≡ some j
        → test j ≡ true
        → Q true (record d { jobs = put k (f j) d.jobs }))
    → Ensures (update_job k test f) d Q
unfolding update_job
Ensures-update_job Q d k test f h g = record {
  at = (update_row-Ensures Q d k test f (lookup k d.jobs) refl h g).at;
}

some_injective : (a b : Job) → Option.some a ≡ Option.some b → a ≡ b
some_injective a b p = cc

-- The same where the row is known.
pub Ensures-update_known :
    (Q : Bool → Db → Type 0) (d : Db) (k : ℕ) (test : Job → Bool) (f : Job → Job) (j : Job)
    → lookup k d.jobs ≡ some j
    → Q false d
    → (test j ≡ true → Q true (record d { jobs = put k (f j) d.jobs }))
    → Ensures (update_job k test f) d Q
Ensures-update_known Q d k test f j p h g = Ensures-update_job Q d k test f h λ q r t.
    let same = some_injective j q (sym p ∙ r) in
    subst (λ x. Q true (record d { jobs = put k (f x) d.jobs })) same
      (g (subst (λ x. test x ≡ true) (sym same) t))

update_row-always :
    (Q : Bool → Db → Type 0) (d : Db) (k : ℕ) (f : Job → Job) (j : Job) (o : Option Job)
    → o ≡ some j
    → Q true (record d { jobs = put k (f j) d.jobs })
    → Ensures (update_row k (λ q. true) f o) d Q
unfolding update_row
update_row-always Q d k f j none p h = absurd (cc)
update_row-always Q d k f j (some q) p h = record {
  at = subst (λ x. Q true (record d { jobs = put k (f x) d.jobs })) (sym (some_injective q j p)) h;
}

-- An update with no condition but the id, of a row that is there.
pub Ensures-update_always :
    (Q : Bool → Db → Type 0) (d : Db) (k : ℕ) (f : Job → Job) (j : Job)
    → lookup k d.jobs ≡ some j
    → Q true (record d { jobs = put k (f j) d.jobs })
    → Ensures (update_job k (λ q. true) f) d Q
unfolding update_job
Ensures-update_always Q d k f j p h = record {
  at = (update_row-always Q d k f j (lookup k d.jobs) p h).at;
}

complete_row-Ensures :
    (Q : Unit {0} → Db → Type 0) (d : Db) (k : AttemptKey) (now : ℕ) (outcome : Outcome)
    (o : Option Attempt)
    → lookup k d.attempts ≡ o
    → ((a : Attempt)
        → lookup k d.attempts ≡ some a
        → Q tt (record d { attempts = put k (completed now outcome a) d.attempts }))
    → Ensures (complete_row k now outcome o) d Q
unfolding complete_row
complete_row-Ensures Q d k now outcome none p g = record { at = tt }
complete_row-Ensures Q d k now outcome (some a) p g = go (is_open a.outcome)
  where
    go :
        (b : Bool)
        → Ensures
            (λ d.
              if b
              then ok (tt, record d { attempts = put k (completed now outcome a) d.attempts })
              else err runtime_error)
            d
            Q
    go true = record { at = g a p }
    go false = record { at = tt }

pub Ensures-complete_attempt :
    (Q : Unit {0} → Db → Type 0) (d : Db) (k : AttemptKey) (now : ℕ) (outcome : Outcome)
    → ((a : Attempt)
        → lookup k d.attempts ≡ some a
        → Q tt (record d { attempts = put k (completed now outcome a) d.attempts }))
    → Ensures (complete_attempt k now outcome) d Q
unfolding complete_attempt
Ensures-complete_attempt Q d k now outcome g = record {
  at = (complete_row-Ensures Q d k now outcome (lookup k d.attempts) refl g).at;
}

update_row-unmatched :
    (k : ℕ) (test : Job → Bool) (f : Job → Job) (d : Db) (o : Option Job)
    → row_if test o ≡ none
    → update_row k test f o d ≡ ok (false, d)
unfolding update_row
update_row-unmatched k test f d none h = refl
update_row-unmatched k test f d (some j) h = go (test j) h
  where
    go :
        (b : Bool)
        → (if b then some j else none) ≡ none
        → if◌then◌else◌ {A = Result (Bool × Db)} b
            (ok (true, record d { jobs = put k (f j) d.jobs }))
            (ok (false, d))
          ≡ ok (false, d)
    go true e = absurd (cc)
    go false e = refl

-- An update whose WHERE clause selects no row writes nothing.
pub update_job-unmatched :
    (k : ℕ) (test : Job → Bool) (f : Job → Job) (d : Db)
    → row_if test (lookup k d.jobs) ≡ none
    → update_job k test f d ≡ ok (false, d)
unfolding update_job
update_job-unmatched k test f d h = update_row-unmatched k test f d (lookup k d.jobs) h

-- An update of a row that satisfies the WHERE clause.
pub Ensures-update_sure :
    (Q : Bool → Db → Type 0) (d : Db) (k : ℕ) (test : Job → Bool) (f : Job → Job) (j : Job)
    → lookup k d.jobs ≡ some j
    → test j ≡ true
    → Q true (record d { jobs = put k (f j) d.jobs })
    → Ensures (update_job k test f) d Q
unfolding update_job update_row
Ensures-update_sure Q d k test f j p held h = record {
  at =
      subst (λ o. Holds Q (update_row k test f o d)) (sym p)
        (subst
          (λ b. Holds Q (
            if◌then◌else◌ {A = Result (Bool × Db)} b
              (ok (true, record d { jobs = put k (f j) d.jobs })) (ok (false, d))))
          (sym held) h);
}

-- The database that an update of a row that satisfies the WHERE clause leaves.
pub update_job-matched :
    (k : ℕ) (test : Job → Bool) (f : Job → Job) (d : Db) (j : Job)
    → lookup k d.jobs ≡ some j
    → test j ≡ true
    → update_job k test f d ≡ ok (true, record d { jobs = put k (f j) d.jobs })
unfolding update_job update_row
update_job-matched k test f d j p h =
    subst (λ o. update_row k test f o d ≡ ok (true, record d { jobs = put k (f j) d.jobs })) (sym p)
      (rw h)

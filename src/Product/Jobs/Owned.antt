-- ===== src/Product/Jobs/Owned.antt =====
-- The row of a request: a job of the table that belongs to the user.
use unrender.Base.{ℕ, ◌≡◌, refl, subst, Bool, true, Option, none, some, ◌==◌, Bool-cases, inl, inr}
use unrender.Base.Table.{lookup, nat_eq}
use unrender.Product.Schema.{Db, Job}
use unrender.Product.Tx.Ensures.{Ensures, Ensures-gets_bind, Ensures-or_raise}
use unrender.Product.Jobs.Statements.{row_if}
use unrender.Product.Jobs.Requests.{owned_job}

pub row_if-some :
    (test : Job → Bool) (o : Option Job) (j : Job)
    → row_if test o ≡ some j
    → (o ≡ some j) × (test j ≡ true)
row_if-some test none j h = cc
row_if-some test (some q) j h = elim (Bool-cases (test q)) [
  | inl yes_test ↦
      let same = rw yes_test at h in
      (
        same,
        subst (λ (o : Option Job). elim o [ none ↦ Unit | some x ↦ test x ≡ true ]) same yes_test,
      )
  | inr no_test ↦ absurd (cc (rw no_test at h))
]

abbrev pub IsOwned : ℕ → ℕ → Db → Job → Type 0
IsOwned u k d j = (lookup k d.jobs ≡ some j) × ((j.user_id == u) ≡ true)

-- The job of a request is a row of the table, and belongs to the user.
pub owned_job-row :
    (u k : ℕ) (d : Db) → Ensures (owned_job u k) d (λ j e. (e ≡ d) × IsOwned u k d j)
unfolding owned_job
owned_job-row u k d = Ensures-gets_bind _ d _ _ (
    Ensures-or_raise _ d _ _
      λ j p. let found = row_if-some (λ q. q.user_id == u) (lookup k d.jobs) j p in (refl, found))

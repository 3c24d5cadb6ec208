-- ===== src/Product/Storage/Rules.antt =====
-- The capacity checks write nothing.
use unrender.Base.{ℕ, ◌≡◌, refl, Option}
use unrender.Product.Settings.{Settings}
use unrender.Product.Schema.{Db}
use unrender.Product.Tx.Ensures.{
  Ensures, Ensures-pure, Ensures-gets_bind, Ensures-raise_if, Ensures-raise_if_bind,
}
use unrender.Product.Storage.{
  Disk, assert_retained_byte_capacity, reserve_result_capacity, next_result_version,
}

pub next_result_version-pure :
    (s : Settings) (u job encoded receipt : ℕ) (attempt : Option ℕ) (d : Db)
    → Ensures (next_result_version s u job encoded receipt attempt) d (λ _ e. e ≡ d)
unfolding next_result_version
next_result_version-pure s u job encoded receipt attempt d = Ensures-raise_if_bind _ d _ _ _ λ _.
    Ensures-raise_if_bind _ d _ _ _ λ _. Ensures-gets_bind _ d _ _ (
      Ensures-raise_if_bind _ d _ _ _ λ _. Ensures-gets_bind _ d _ _ (
        Ensures-gets_bind _ d _ _ (
          Ensures-gets_bind _ d _ _ (
            Ensures-raise_if_bind _ d _ _ _
              λ _. Ensures-gets_bind _ d _ _ (Ensures-pure _ d _ refl)))))

module _ (s : Settings) (disk : Disk) (d : Db) where
  pub assert_retained_byte_capacity-pure :
      (n : ℕ) → Ensures (assert_retained_byte_capacity s disk n) d (λ _ e. e ≡ d)
  unfolding assert_retained_byte_capacity
  assert_retained_byte_capacity-pure n = Ensures-gets_bind _ d _ _ (
      Ensures-raise_if_bind _ d _ _ _
        λ _. Ensures-gets_bind _ d _ _ (Ensures-raise_if _ d _ _ λ _. refl))

  pub reserve_result_capacity-pure :
      (u : ℕ) (job : Option ℕ) → Ensures (reserve_result_capacity s disk u job) d (λ _ e. e ≡ d)
  unfolding reserve_result_capacity
  reserve_result_capacity-pure u job = Ensures-gets_bind _ d _ _ (
      Ensures-gets_bind _ d _ _ (
        Ensures-raise_if_bind _ d _ _ _ λ _.
          Ensures-gets_bind _ d _ _
            (Ensures-raise_if_bind _ d _ _ _ λ _. assert_retained_byte_capacity-pure (_))))

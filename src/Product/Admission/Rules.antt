-- ===== src/Product/Admission/Rules.antt =====
-- An admission writes nothing, and `_insert_row` that is admitted runs its statement.
use unrender.Base.{ℕ, ◌≡◌, refl, subst, sym, Bool, false, Option, none, some}
use unrender.Product.Settings.{Settings}
use unrender.Product.Schema.{Db}
use unrender.Product.Tx.{Error}
use unrender.Product.Tx.Ensures.{
  Ensures-guard_bind, Ensures, Ensures-pure, Ensures-gets_bind, Ensures-raise_if,
  Ensures-raise_if_bind, Ensures-bind, Ensures-modify,
}
use unrender.Product.Admission.{admit_user_rows, admit_database_rows, insert_row, insert_unique}

module _ (s : Settings) where
  admit_user_rows-pure :
      (user : Option ℕ) (n : ℕ) (mandatory : Bool) (more : ℕ) (d : Db)
      → Ensures (admit_user_rows s user n mandatory more) d (λ _ e. e ≡ d)
  unfolding admit_user_rows
  admit_user_rows-pure none n mandatory more d = Ensures-pure _ d tt refl
  admit_user_rows-pure (some u) n mandatory more d = Ensures-gets_bind _ d _ _ (
      Ensures-raise_if_bind _ d _ _ _
        λ _. Ensures-gets_bind _ d _ _ (Ensures-raise_if _ d _ _ λ _. refl))

  pub admit_database_rows-pure :
      (user : Option ℕ) (n : ℕ) (mandatory : Bool) (more : ℕ) (d : Db)
      → Ensures (admit_database_rows s user n mandatory more) d (λ _ e. e ≡ d)
  unfolding admit_database_rows
  admit_database_rows-pure user n mandatory more d = Ensures-gets_bind _ d _ _ (
      Ensures-raise_if_bind _ d _ _ _ λ _.
        Ensures-gets_bind _ d _ _
          (Ensures-raise_if_bind _ d _ _ _ λ _. admit_user_rows-pure user n mandatory more d))

  pub Ensures-insert_row :
      (Q : Unit {0} → Db → Type 0) (d : Db) (user : Option ℕ) (mandatory : Bool) (more : ℕ)
      (statement : Db → Db)
      → Q tt (statement d)
      → Ensures (insert_row s user mandatory more statement) d Q
  unfolding insert_row
  Ensures-insert_row Q d user mandatory more statement h =
      Ensures-bind Q d (λ _ e. e ≡ d) _ _ (admit_database_rows-pure user 1 mandatory more d)
        λ _ e p. Ensures-modify Q e statement (subst (λ c. Q tt (statement c)) (sym p) h)

  pub Ensures-insert_unique :
      (Q : Unit {0} → Db → Type 0) (d : Db) (user : Option ℕ) (mandatory : Bool) (more : ℕ)
      (is_taken : Db → Bool) (violation : Error) (statement : Db → Db)
      → (is_taken d ≡ false → Q tt (statement d))
      → Ensures (insert_unique s user mandatory more is_taken violation statement) d Q
  unfolding insert_unique
  Ensures-insert_unique Q d user mandatory more is_taken violation statement h =
      Ensures-guard_bind Q d _ _ (admit_database_rows-pure user 1 mandatory more d) λ _.
        Ensures-gets_bind _ d _ _
          (Ensures-raise_if_bind _ d _ _ _ λ free. Ensures-modify _ d _ (h free))

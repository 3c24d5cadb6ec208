-- ===== src/Product/Admission/Capacity.antt =====
-- A row can be refused for want of rows only.
use unrender.Base.{ℕ, ◌≡◌, refl, ◌⊎◌, inl, inr, Bool, Option, none, some}
use unrender.Product.Settings.{Settings}
use unrender.Product.Schema.{Db}
use unrender.Product.Tx.{Error, service_capacity_reached, database_quota_reached}
use unrender.Product.Tx.Raises.{
  Raises, Raises-pure, Raises-gets, Raises-modify, Raises-raise_if, Raises-bind,
}
use unrender.Product.Admission.{admit_user_rows, admit_database_rows, insert_row}

abbrev pub IsFull : Error → Type 0
IsFull x = (x ≡ service_capacity_reached) ⊎ (x ≡ database_quota_reached)

IsFull-service : IsFull service_capacity_reached
IsFull-service = inl refl

IsFull-database : IsFull database_quota_reached
IsFull-database = inr refl

module _ (s : Settings) where
  admit_user_rows-Raises :
      (user : Option ℕ) (n : ℕ) (mandatory : Bool) (more : ℕ)
      → Raises IsFull (admit_user_rows s user n mandatory more)
  unfolding admit_user_rows
  admit_user_rows-Raises none n mandatory more = Raises-pure _ tt
  admit_user_rows-Raises (some u) n mandatory more = Raises-bind _ _ _ (Raises-gets _ _) λ rows.
      Raises-bind _ _ _ (Raises-raise_if _ _ _ IsFull-database)
        λ _. Raises-bind _ _ _ (Raises-gets _ _) λ future. Raises-raise_if _ _ _ IsFull-database

  pub insert_row-Raises :
      (user : Option ℕ) (mandatory : Bool) (more : ℕ) (statement : Db → Db)
      → Raises IsFull (insert_row s user mandatory more statement)
  unfolding insert_row admit_database_rows
  insert_row-Raises user mandatory more statement =
      Raises-bind _ _ _
        (Raises-bind _ _ _ (Raises-gets _ _) λ rows.
          Raises-bind _ _ _ (Raises-raise_if _ _ _ IsFull-service) λ _.
            Raises-bind _ _ _ (Raises-gets _ _) λ future.
              Raises-bind _ _ _ (Raises-raise_if _ _ _ IsFull-service)
                λ _. admit_user_rows-Raises user 1 mandatory more)
        λ _. Raises-modify _ _

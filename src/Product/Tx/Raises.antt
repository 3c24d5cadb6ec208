-- ===== src/Product/Tx/Raises.antt =====
-- The errors that a transaction can raise, whatever the database holds: one rule for each way to
-- build a transaction.
use unrender.Base.{◌≡◌, subst, Bool, true, false, Option, none, some}
use unrender.Product.Schema.{Db}
use unrender.Product.Tx.Monad.{
  Error, Result, ok, err, Tx, pure, gets, modify, raise_if, or_raise, when, continue, ◌>>=◌,
}

abbrev pub Allowed : {A : Type 0} → (Error → Type 0) → Result (A × Db) → Type 0
Allowed P (ok r) = Unit
Allowed P (err x) = P x

-- Every error that `m` raises satisfies `P`.
pub record Raises {A : Type 0} (P : Error → Type 0) (m : Tx A) : Type 0 where
  pub at : (d : Db) → Allowed P (m d)

module _ (P : Error → Type 0) where
  module _ {A : Type 0} where
    pub Raises-pure : (a : A) → Raises P (pure a)
    unfolding pure
    Raises-pure a = record { at = λ d. tt }

    pub Raises-gets : (f : Db → A) → Raises P (gets f)
    unfolding gets
    Raises-gets f = record { at = λ d. tt }

    pub Raises-or_raise : (o : Option A) (x : Error) → P x → Raises P (or_raise o x)
    unfolding or_raise
    Raises-or_raise none x h = record { at = λ d. h }
    Raises-or_raise (some a) x h = record { at = λ d. tt }

    pub Raises-of_run : (m : Tx A) (d : Db) (x : Error) → Raises P m → m d ≡ err x → P x
    Raises-of_run m d x h p = subst (Allowed P) p (h.at d)

  pub Raises-modify : (f : Db → Db) → Raises P (modify f)
  unfolding modify
  Raises-modify f = record { at = λ d. tt }

  pub Raises-raise_if : (b : Bool) (x : Error) → P x → Raises P (raise_if b x)
  unfolding raise_if
  Raises-raise_if true x h = record { at = λ d. h }
  Raises-raise_if false x h = record { at = λ d. tt }

  pub Raises-when : (b : Bool) (m : Tx (Unit {0})) → Raises P m → Raises P (when b m)
  unfolding when
  Raises-when true m h = record { at = λ d. h.at d }
  Raises-when false m h = record { at = λ d. tt }

  module _ {A B : Type 0} where
    continue_lem :
        (f : A → Tx B) (r : Result (A × Db))
        → Allowed P r
        → ((a : A) → Raises P (f a))
        → Allowed P (continue r f)
    continue_lem f (ok (a, e)) h k = (k a).at e
    continue_lem f (err x) h k = h

    pub Raises-bind :
        (m : Tx A) (f : A → Tx B) → Raises P m → ((a : A) → Raises P (f a)) → Raises P (m >>= f)
    unfolding ◌>>=◌
    Raises-bind m f h k = record { at = λ d. continue_lem f (m d) (h.at d) k }

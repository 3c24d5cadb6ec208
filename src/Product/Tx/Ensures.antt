-- ===== src/Product/Tx/Ensures.antt =====
-- What a transaction ensures of its result and of the database when it returns: one rule for each
-- way to build a transaction.
use unrender.Base.{◌≡◌, refl, sym, subst, Bool, true, false, Option, none, some, if◌then◌else◌}
use unrender.Product.Schema.{Db}
use unrender.Product.Tx.Monad.{
  Error, Result, ok, err, Tx, pure, raise, gets, modify, raise_if, or_raise, when, given,
  unless_found, continue, ◌>>=◌, outside_call,
}

-- The returned value and the database that the transaction leaves; nothing is said of a rollback.
abbrev pub Holds : {A : Type 0} → (A → Db → Type 0) → Result (A × Db) → Type 0
Holds Q (ok (a, e)) = Q a e
Holds Q (err x) = Unit

pub record Ensures {A : Type 0} (m : Tx A) (d : Db) (Q : A → Db → Type 0) : Type 0 where
  pub at : Holds Q (m d)

module _ {A : Type 0} (Q : A → Db → Type 0) (d : Db) where
  pub Ensures-pure : (a : A) → Q a d → Ensures (pure a) d Q
  unfolding pure
  Ensures-pure a h = record { at = h }

  pub Ensures-raise : (x : Error) → Ensures (raise x) d Q
  unfolding raise
  Ensures-raise x = record { at = tt }

  pub Ensures-gets : (f : Db → A) → Q (f d) d → Ensures (gets f) d Q
  unfolding gets
  Ensures-gets f h = record { at = h }

  pub Ensures-or_raise :
      (o : Option A) (x : Error) → ((a : A) → o ≡ some a → Q a d) → Ensures (or_raise o x) d Q
  unfolding or_raise
  Ensures-or_raise none x h = record { at = tt }
  Ensures-or_raise (some a) x h = record { at = h a refl }

  pub Ensures-if :
      (b : Bool) (m n : Tx A)
      → (b ≡ true → Ensures m d Q)
      → (b ≡ false → Ensures n d Q)
      → Ensures (if b then m else n) d Q
  Ensures-if true m n km kn = km refl
  Ensures-if false m n km kn = kn refl

  -- The postcondition read off a run.
  pub Ensures-of_run : (m : Tx A) (a : A) (e : Db) → Ensures m d Q → m d ≡ ok (a, e) → Q a e
  Ensures-of_run m a e h p = subst (Holds Q) p h.at

module _ (Q : Unit {0} → Db → Type 0) (d : Db) where
  pub Ensures-modify : (f : Db → Db) → Q tt (f d) → Ensures (modify f) d Q
  unfolding modify
  Ensures-modify f h = record { at = h }

  pub Ensures-raise_if : (b : Bool) (x : Error) → (b ≡ false → Q tt d) → Ensures (raise_if b x) d Q
  unfolding raise_if
  Ensures-raise_if true x h = record { at = tt }
  Ensures-raise_if false x h = record { at = h refl }

  pub Ensures-when :
      (b : Bool) (m : Tx (Unit {0}))
      → (b ≡ true → Ensures m d Q)
      → (b ≡ false → Q tt d)
      → Ensures (when b m) d Q
  unfolding when
  Ensures-when true m h k = record { at = (h refl).at }
  Ensures-when false m h k = record { at = k refl }

module _ {A B : Type 0} (Q : B → Db → Type 0) (d : Db) where
  pub Ensures-given :
      (o : Option A) (b : B) (f : A → Tx B)
      → (o ≡ none → Q b d)
      → ((a : A) → o ≡ some a → Ensures (f a) d Q)
      → Ensures (given o b f) d Q
  unfolding given
  Ensures-given none b f h k = record { at = h refl }
  Ensures-given (some a) b f h k = record { at = (k a refl).at }

  pub Ensures-unless_found :
      (o : Option A) (f : A → B) (m : Tx B)
      → ((a : A) → o ≡ some a → Q (f a) d)
      → (o ≡ none → Ensures m d Q)
      → Ensures (unless_found o f m) d Q
  unfolding unless_found
  Ensures-unless_found none f m h k = record { at = (k refl).at }
  Ensures-unless_found (some a) f m h k = record { at = h a refl }

  pub Ensures-or_raise_bind :
      (o : Option A) (x : Error) (f : A → Tx B)
      → ((a : A) → o ≡ some a → Ensures (f a) d Q)
      → Ensures (or_raise o x >>= f) d Q
  unfolding ◌>>=◌
  Ensures-or_raise_bind none x f h = record { at = tt }
  Ensures-or_raise_bind (some a) x f h = record { at = (h a refl).at }

  continue_lem :
      (P : A → Db → Type 0) (f : A → Tx B) (r : Result (A × Db))
      → Holds P r
      → ((a : A) (e : Db) → P a e → Ensures (f a) e Q)
      → Holds Q (continue r f)
  continue_lem P f (ok (a, e)) h k = (k a e h).at
  continue_lem P f (err x) h k = tt

  pub Ensures-bind :
      (P : A → Db → Type 0) (m : Tx A) (f : A → Tx B)
      → Ensures m d P
      → ((a : A) (e : Db) → P a e → Ensures (f a) e Q)
      → Ensures (m >>= f) d Q
  unfolding ◌>>=◌
  Ensures-bind P m f h k = record { at = continue_lem P f (m d) h.at k }

  -- A read hands the rest of the transaction its value.
  pub Ensures-gets_bind :
      (g : Db → A) (f : A → Tx B) → Ensures (f (g d)) d Q → Ensures (gets g >>= f) d Q
  unfolding ◌>>=◌
  Ensures-gets_bind g f h = record { at = h.at }

-- A transaction that changes nothing hands on what it has found.
pub Ensures-read_bind :
    {A B : Type 0} (Q : B → Db → Type 0) (d : Db) (P : A → Type 0) (m : Tx A) (f : A → Tx B)
    → Ensures m d (λ a e. (e ≡ d) × P a)
    → ((a : A) → P a → Ensures (f a) d Q)
    → Ensures (m >>= f) d Q
Ensures-read_bind Q d P m f h k =
    Ensures-bind Q d _ m f h λ a e p. subst (λ x. Ensures (f a) x Q) (sym p.0) (k a p.1)

pub Ensures-guard_bind :
    {A B : Type 0} (Q : B → Db → Type 0) (d : Db) (m : Tx A) (f : A → Tx B)
    → Ensures m d (λ _ e. e ≡ d)
    → ((a : A) → Ensures (f a) d Q)
    → Ensures (m >>= f) d Q
Ensures-guard_bind Q d m f h k =
    Ensures-bind Q d _ m f h λ a e p. subst (λ x. Ensures (f a) x Q) (sym p) (k a)

module _ {B : Type 0} (Q : B → Db → Type 0) (d : Db) where
  pub Ensures-modify_bind :
      (g : Db → Db) (f : Unit {0} → Tx B) → Ensures (f tt) (g d) Q → Ensures (modify g >>= f) d Q
  unfolding ◌>>=◌
  Ensures-modify_bind g f h = record { at = h.at }

  pub Ensures-raise_if_bind :
      (b : Bool) (x : Error) (f : Unit {0} → Tx B)
      → (b ≡ false → Ensures (f tt) d Q)
      → Ensures (raise_if b x >>= f) d Q
  unfolding ◌>>=◌
  Ensures-raise_if_bind true x f h = record { at = tt }
  Ensures-raise_if_bind false x f h = record { at = (h refl).at }

pub Ensures-weaken :
    {A : Type 0} (P Q : A → Db → Type 0) (m : Tx A) (d : Db)
    → Ensures m d P
    → ((a : A) (e : Db) → P a e → Q a e)
    → Ensures m d Q
Ensures-weaken P Q m d h k = record { at = go (m d) h.at }
  where
    go : (r : Result (_ × Db)) → Holds P r → Holds Q r
    go (ok (a, e)) h = k a e h
    go (err x) h = tt

-- Two postconditions of one transaction.
pub Ensures-both :
    {A : Type 0} (P Q : A → Db → Type 0) (m : Tx A) (d : Db)
    → Ensures m d P
    → Ensures m d Q
    → Ensures m d (λ a e. P a e × Q a e)
Ensures-both P Q m d h k = record { at = go (m d) h.at k.at }
  where
    go : (r : Result (_ × Db)) → Holds P r → Holds Q r → Holds (λ a e. P a e × Q a e) r
    go (ok (a, e)) h k = (h, k)
    go (err x) h k = tt

module _ {A : Type 0} (m : Tx A) (d : Db) where
  -- A transaction of which nothing has to be known.
  pub Ensures-any : Ensures m d (λ _ _. Unit {0})
  Ensures-any = record { at = go (m d) }
    where
      go : (r : Result (A × Db)) → Holds (λ _ _. Unit {0}) r
      go (ok (a, e)) = tt
      go (err x) = tt

pub Ensures-outside_call :
    {B : Type 0} (Q : B → Db → Type 0) (d : Db) (o : Option Error) (f : Unit {0} → Tx B)
    → Ensures (f tt) d Q
    → Ensures (outside_call o >>= f) d Q
unfolding outside_call ◌>>=◌
Ensures-outside_call Q d none f h = record { at = h.at }
Ensures-outside_call Q d (some x) f h = record { at = tt }

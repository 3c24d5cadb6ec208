-- ===== src/Product/Tx/Monad.antt =====
-- The monad of a transaction, and its commit or rollback (`Database.transaction`, database.py).
use unrender.Base.{Bool, true, false, Option, none, some}
use unrender.Product.Schema.{Db}

-- The codes of `ProductError`, a violated constraint, and three exceptions of the standard library.
pub data Error : Type 0 where
  service_capacity_reached database_quota_reached credit_ledger_capacity_reached : Error
  user_not_found credits_required job_not_found job_not_cancellable job_busy : Error
  billing_event_invalid billing_event_conflict billing_event_capacity_reached : Error
  billing_user_missing billing_user_invalid : Error
  history_storage_quota_reached version_quota_reached invalid_result : Error
  service_storage_capacity_reached storage_free_space_guard storage_reservation_lost : Error
  result_history_inconsistent result_conflict version_not_found : Error
  job_not_editable job_not_approvable : Error
  upload_not_found demo_sample_limit demo_fixture_only invalid_page : Error
  upload_quota_reached upload_record_quota_reached storage_quota_reached : Error
  job_record_quota_reached idempotency_quota_reached idempotency_key_expired : Error
  idempotency_conflict request_in_progress idempotency_state_invalid : Error
  invalid_account email_in_use invalid_grant upload_rate_limited demo_read_only : Error
  integrity_error runtime_error value_error type_error os_error : Error

pub data Result {ℓ} (A : Type ℓ) : Type ℓ where
  ok : A → Result A
  err : Error → Result A

abbrev pub Tx : Type 0 → Type 0
Tx A = Db → Result (A × Db)

module _ {A : Type 0} where
  unfoldable pub pure : A → Tx A
  pure a d = ok (a, d)

  unfoldable pub raise : Error → Tx A
  raise x d = err x

  unfoldable pub gets : (Db → A) → Tx A
  gets f d = ok (f d, d)

  -- `if not row: raise ...`
  unfoldable pub or_raise : Option A → Error → Tx A
  or_raise none x d = err x
  or_raise (some a) x d = ok (a, d)

unfoldable pub modify : (Db → Db) → Tx (Unit {0})
modify f d = ok (tt, f d)

unfoldable pub raise_if : Bool → Error → Tx (Unit {0})
raise_if true x d = err x
raise_if false x d = ok (tt, d)

unfoldable pub when : Bool → Tx (Unit {0}) → Tx (Unit {0})
when true m d = m d
when false m d = ok (tt, d)

-- `if not row: return default`, and the rest with the row
unfoldable pub given : {A B : Type 0} → Option A → B → (A → Tx B) → Tx B
given none b f d = ok (b, d)
given (some a) b f d = f a d

-- `if row: return value`, and the rest without one
unfoldable pub unless_found : {A B : Type 0} → Option A → (A → B) → Tx B → Tx B
unless_found none f m d = m d
unless_found (some a) f m d = ok (f a, d)

-- A call outside the database, which raises the given error or returns.
unfoldable pub outside_call : Option Error → Tx (Unit {0})
outside_call none d = ok (tt, d)
outside_call (some x) d = err x

module _ {A B : Type 0} where
  abbrev pub continue : Result (A × Db) → (A → Tx B) → Result (B × Db)
  continue (ok (a, d)) f = f a d
  continue (err x) f = err x

  infixl 5 ◌>>=◌ ◌>>◌
  -- opening this opens the other actions too
  unfoldable pub ◌>>=◌ : Tx A → (A → Tx B) → Tx B
  unfolding pure raise gets or_raise modify raise_if when given unless_found outside_call
  ◌>>=◌ m f d = continue (m d) f

  abbrev pub ◌>>◌ : Tx A → Tx B → Tx B
  m >> k = m >>= λ _. k

-- `with self.database.transaction() as conn: ...`
unfoldable pub transaction : {A : Type 0} → Tx A → Db → Result A × Db
transaction m d = elim (m d) [ ok (a, e) ↦ (ok a, e) | err x ↦ (err x, d) ]

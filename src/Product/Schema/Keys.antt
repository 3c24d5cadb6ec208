-- ===== src/Product/Schema/Keys.antt =====
-- The keys of the tables, and their equality.
use unrender.Base.{ℕ, String, ◌≡◌, ◌↔◌, Bool, true, false, ◌&&◌, Option, none, some, arith, ◌==◌}
use unrender.Base.Table.{Eq}
use text.Mathlib.Text.{◌==◌ as str_eq}
use text.Mathlib.TextEquality.{eq_iff}

-- The texts `job:{job}:reserve:{attempt}`, `job:{job}:refund:{attempt}`, `stripe:{event}`,
-- `welcome:{user}` and `grant:{user}:{reference}` of the ledger's UNIQUE idempotency_key.
pub data LedgerKey : Type 0 where
  reserve refund : ℕ → ℕ → LedgerKey
  stripe : String → LedgerKey
  welcome : ℕ → LedgerKey
  grant : ℕ → String → LedgerKey

-- (job_id, attempt, lease_generation)
pub record AttemptKey : Type 0 where
  pub job_id : ℕ
  pub attempt : ℕ
  pub lease_generation : ℕ

-- (job_id, version)
pub record VersionKey : Type 0 where
  pub job_id : ℕ
  pub version : ℕ

-- (user_id, job_scope, event_type, day); the scope of an account is no job, and the day is
-- always 'archive'.
pub record RollupKey : Type 0 where
  pub user_id : ℕ
  pub job_scope : Option ℕ
  pub event_type : String

-- (bucket_key, window_start)
pub record RateKey : Type 0 where
  pub bucket_key : String
  pub window_start : ℕ

-- (user_id, idempotency_key)
pub record RequestKey : Type 0 where
  pub user_id : ℕ
  pub idempotency_key : String

abbrev pub ledger_key_beq : LedgerKey → LedgerKey → Bool
ledger_key_beq (LedgerKey.reserve j a) (LedgerKey.reserve k b) = j == k && a == b
ledger_key_beq (LedgerKey.refund j a) (LedgerKey.refund k b) = j == k && a == b
ledger_key_beq (LedgerKey.stripe s) (LedgerKey.stripe t) = str_eq s t
ledger_key_beq (LedgerKey.welcome u) (LedgerKey.welcome v) = u == v
ledger_key_beq (LedgerKey.grant u s) (LedgerKey.grant v t) = u == v && str_eq s t
ledger_key_beq _ _ = false

pub ledger_key_beq_iff : (a b : LedgerKey) → (ledger_key_beq a b ≡ true) ↔ (a ≡ b)
ledger_key_beq_iff (LedgerKey.reserve j a) (LedgerKey.reserve k b) = ground arith
ledger_key_beq_iff (LedgerKey.refund j a) (LedgerKey.refund k b) = ground arith
ledger_key_beq_iff (LedgerKey.stripe s) (LedgerKey.stripe t) = ground (arith, eq_iff s t)
ledger_key_beq_iff (LedgerKey.welcome u) (LedgerKey.welcome v) = ground arith
ledger_key_beq_iff (LedgerKey.grant u s) (LedgerKey.grant v t) = ground (arith, eq_iff s t)
ledger_key_beq_iff a b = ground arith

instance abbrev pub ledger_key_eq : Eq LedgerKey
ledger_key_eq = record { beq = ledger_key_beq; beq_iff = ledger_key_beq_iff }

abbrev pub attempt_key_beq : AttemptKey → AttemptKey → Bool
attempt_key_beq a b =
    a.job_id == b.job_id && a.attempt == b.attempt && a.lease_generation == b.lease_generation

pub attempt_key_beq_iff : (a b : AttemptKey) → (attempt_key_beq a b ≡ true) ↔ (a ≡ b)
attempt_key_beq_iff a b = ground arith

instance abbrev pub attempt_key_eq : Eq AttemptKey
attempt_key_eq = record { beq = attempt_key_beq; beq_iff = attempt_key_beq_iff }

abbrev pub version_key_beq : VersionKey → VersionKey → Bool
version_key_beq a b = a.job_id == b.job_id && a.version == b.version

pub version_key_beq_iff : (a b : VersionKey) → (version_key_beq a b ≡ true) ↔ (a ≡ b)
version_key_beq_iff a b = ground arith

instance abbrev pub version_key_eq : Eq VersionKey
version_key_eq = record { beq = version_key_beq; beq_iff = version_key_beq_iff }

abbrev pub option_beq : Option ℕ → Option ℕ → Bool
option_beq none none = true
option_beq (some a) (some b) = a == b
option_beq _ _ = false

abbrev pub rollup_key_beq : RollupKey → RollupKey → Bool
rollup_key_beq a b =
    a.user_id == b.user_id && option_beq a.job_scope b.job_scope && str_eq a.event_type b.event_type

pub rollup_key_beq_iff : (a b : RollupKey) → (rollup_key_beq a b ≡ true) ↔ (a ≡ b)
rollup_key_beq_iff a b = ground (arith, eq_iff a.event_type b.event_type)

instance abbrev pub rollup_key_eq : Eq RollupKey
rollup_key_eq = record { beq = rollup_key_beq; beq_iff = rollup_key_beq_iff }

instance abbrev pub string_key_eq : Eq String
string_key_eq = record { beq = str_eq; beq_iff = eq_iff }

abbrev pub rate_key_beq : RateKey → RateKey → Bool
rate_key_beq a b = str_eq a.bucket_key b.bucket_key && a.window_start == b.window_start

pub rate_key_beq_iff : (a b : RateKey) → (rate_key_beq a b ≡ true) ↔ (a ≡ b)
rate_key_beq_iff a b = ground (arith, eq_iff a.bucket_key b.bucket_key)

instance abbrev pub rate_key_eq : Eq RateKey
rate_key_eq = record { beq = rate_key_beq; beq_iff = rate_key_beq_iff }

abbrev pub request_key_beq : RequestKey → RequestKey → Bool
request_key_beq a b = a.user_id == b.user_id && str_eq a.idempotency_key b.idempotency_key

pub request_key_beq_iff : (a b : RequestKey) → (request_key_beq a b ≡ true) ↔ (a ≡ b)
request_key_beq_iff a b = ground (arith, eq_iff a.idempotency_key b.idempotency_key)

instance abbrev pub request_key_eq : Eq RequestKey
request_key_eq = record { beq = request_key_beq; beq_iff = request_key_beq_iff }

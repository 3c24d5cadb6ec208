-- ===== src/Product/Schema.antt =====
-- The tables of unrender/product/database.py, as far as the modelled operations use them. Row ids,
-- tokens and file paths are only compared, so they are numbers; a time is a number of seconds, as
-- ISO texts of one form are ordered like the instants. A table keeps its PRIMARY KEY or its UNIQUE
-- columns as its key. Columns that no modelled operation reads and that only feed the display are
-- left out: progress_stage, error_message, heartbeat_at and the names.
mod Keys
pub use Keys.{LedgerKey, AttemptKey, VersionKey, RollupKey, RateKey, RequestKey}
pub use Keys.{
  ledger_key_eq, attempt_key_eq, option_beq, version_key_eq, rollup_key_eq, rate_key_eq,
  string_key_eq, request_key_eq,
}
use unrender.Base.{ℕ, String, Option, none, Bool, List, [], ◌==◌}
use unrender.Base.Int.{ℤ}
use unrender.Base.Table.{Table}

pub data Status : Type 0 where
  queued running review approved failed cancelled : Status

pub data AccountKind : Type 0 where
  customer demo : AccountKind

pub record User : Type 0 where
  pub email : String
  pub account_active : Bool
  pub account_kind : AccountKind
  pub credit_balance : ℕ

pub record Job : Type 0 where
  pub user_id : ℕ
  pub upload_id : Option ℕ
  pub source_path : ℕ
  pub source_sha256 : String
  pub source_byte_size : ℕ
  pub status : Status
  pub attempt : ℕ
  pub recovery_count : ℕ
  pub cancel_requested : Bool
  pub reservation_active : Bool
  pub provider_dispatched : Bool
  pub provider_dispatched_at : Option ℕ
  pub worker_owner : Option ℕ
  pub lease_token : Option ℕ
  pub lease_generation : ℕ
  pub lease_expires_at : Option ℕ
  pub result_reservation_bytes : ℕ
  pub result_reservation_attempt : Option ℕ
  pub retained_byte_reservation : ℕ
  pub extractor : Option String
  pub model_version : Option String
  pub raw_result : Option String
  pub original_result_json : Option String
  pub current_result_json : Option String
  pub error_code : Option String
  pub approved_at : Option ℕ
  pub created_at : ℕ
  pub updated_at : ℕ

pub data Source : Type 0 where
  extraction correction reprocess : Source

pub record Version : Type 0 where
  pub id : ℕ
  pub user_id : ℕ
  pub source : Source
  pub chart_json : String
  pub extraction_receipt_json : String
  pub created_at : ℕ

pub record Entry : Type 0 where
  pub user_id : ℕ
  pub delta : ℤ
  pub balance_after : ℕ
  pub reason : String
  pub created_at : ℕ

pub data Outcome : Type 0 where
  dispatched succeeded failed cancelled : Outcome

pub record Attempt : Type 0 where
  pub user_id : ℕ
  pub dispatched_at : ℕ
  pub outcome : Outcome
  pub completed_at : Option ℕ

pub record Event : Type 0 where
  pub id : ℕ
  pub user_id : Option ℕ
  pub job_id : Option ℕ
  pub event_type : String
  pub created_at : ℕ

pub record Rollup : Type 0 where
  pub event_count : ℕ
  pub first_at : ℕ
  pub last_at : ℕ

pub record Budget : Type 0 where
  pub day : ℕ
  pub used : ℕ
  pub paused : Bool

pub record BillingEvent : Type 0 where
  pub event_type : String
  pub payload_sha256 : String
  pub processed_at : ℕ

pub record Upload : Type 0 where
  pub user_id : ℕ
  pub storage_path : ℕ
  pub byte_size : ℕ
  pub sha256 : String
  pub page_count : ℕ
  pub expires_at : ℕ

pub record PendingDeletion : Type 0 where
  pub user_id : Option ℕ
  pub byte_size : ℕ
  pub reason : String
  pub attempts : ℕ
  pub created_at : ℕ

pub record StorageReservation : Type 0 where
  pub owner_token : ℕ
  pub user_id : Option ℕ
  pub kind : String
  pub byte_count : ℕ
  pub storage_path : Option ℕ
  pub expires_at : ℕ

-- `api_idempotency`: one request key of an account, and the response once it is known.
pub record Idempotency : Type 0 where
  pub request_sha256 : String
  pub response_json : Option String
  pub created_at : ℕ
  pub completed_at : Option ℕ
  pub expires_at : ℕ
  pub expired_at : Option ℕ

-- Both audit tables, which only `_audit` and the retention task write.
pub record AuditLog : Type 0 where
  pub events : List Event
  pub rollups : Table RollupKey Rollup

-- `others` holds the owner of each row of the tables that are not modelled: they only count.
pub record Db : Type 0 where
  pub users : Table ℕ User
  pub jobs : Table ℕ Job
  pub versions : Table VersionKey Version
  pub ledger : Table LedgerKey Entry
  pub attempts : Table AttemptKey Attempt
  pub audit_log : AuditLog
  pub budget : Option Budget
  pub billing_events : Table String BillingEvent
  pub uploads : Table ℕ Upload
  pub pending_deletions : Table ℕ PendingDeletion
  pub storage_reservations : Table ℕ StorageReservation
  pub rate_limits : Table RateKey ℕ
  pub idempotency : Table RequestKey Idempotency
  pub others : List (Option ℕ)

abbrev pub empty : Db
empty = record {
  users = [];
  jobs = [];
  versions = [];
  ledger = [];
  attempts = [];
  audit_log = record { events = []; rollups = [] };
  budget = none;
  billing_events = [];
  uploads = [];
  pending_deletions = [];
  storage_reservations = [];
  rate_limits = [];
  idempotency = [];
  others = [];
}

-- `status IN ('queued')` and so on.
abbrev pub is_status : Status → Status → Bool
is_status queued queued = Bool.true
is_status running running = Bool.true
is_status review review = Bool.true
is_status approved approved = Bool.true
is_status Status.failed Status.failed = Bool.true
is_status Status.cancelled Status.cancelled = Bool.true
is_status _ _ = Bool.false

-- A column compared with a value: NULL is equal to nothing.
abbrev pub is_value : Option ℕ → ℕ → Bool
is_value none v = Bool.false
is_value (Option.some w) v = w == v

-- ===== src/Product/Submission/Requests.antt =====
-- The request keys of an account: `_create_idempotency_record` and `_idempotent_response` of
-- unrender/product/service.py. A response is the public view of a job, which a JSON encoder writes.
use unrender.Base.{
  ℕ, ◌+◌, Bool, true, false, ◌&&◌, ◌||◌, not, Option, none, some, String, [], ◌∷◌, ltb, leb, ◌==◌,
  if◌then◌else◌,
}
use unrender.Base.Lists.{count_if}
use unrender.Base.Table.{Table, lookup, put}
use text.Mathlib.Text.{◌==◌ as str_eq}
use unrender.Product.Settings.{Settings}
use unrender.Product.Jobs.Updates.{nonempty}
use unrender.Product.Schema.{Db, Job, Status, Idempotency, RequestKey, request_key_eq}
use unrender.Product.Tx.{
  Tx, ◌>>=◌, ◌>>◌, gets, modify, raise_if, or_raise, idempotency_quota_reached,
  idempotency_key_expired, idempotency_conflict, request_in_progress, idempotency_state_invalid,
  integrity_error,
}
use unrender.Product.Admission.{insert_unique}

-- What a customer sees of a job, less the columns that only feed the display. A result is the text of
-- its JSON.
pub record PublicJob : Type 0 where
  pub id : ℕ
  pub status : Status
  pub attempt : ℕ
  pub recovery_count : ℕ
  pub extractor : Option String
  pub model_version : Option String
  pub error : Option String
  pub approved_at : Option ℕ
  pub created_at : ℕ
  pub updated_at : ℕ
  pub provider_dispatched_at : Option ℕ
  pub result : Option String
  pub original_result : Option String

unfoldable pub public_job : ℕ → Job → PublicJob
public_job k row = record {
  id = k;
  status = row.status;
  attempt = row.attempt;
  recovery_count = row.recovery_count;
  extractor = row.extractor;
  model_version = row.model_version;
  error = nonempty row.error_code;
  approved_at = row.approved_at;
  created_at = row.created_at;
  updated_at = row.updated_at;
  provider_dispatched_at = row.provider_dispatched_at;
  result = nonempty row.current_result_json;
  original_result = nonempty row.original_result_json;
}

abbrev pub Response : Type 0
Response = PublicJob

-- `json.dumps` of a response, and `json.loads` where it gives an object
pub record Encoder : Type 0 where
  pub dumps : Response → String
  pub loads : String → Option Response

abbrev pub request_key : ℕ → String → RequestKey
request_key u key = record { user_id = u; idempotency_key = key }

-- `SET response_json=NULL,expired_at=expires_at WHERE user_id=? AND expires_at<=? AND expired_at IS
-- NULL`
abbrev pub expired_row : ℕ → ℕ → RequestKey → Idempotency → Idempotency
expired_row u now k r =
    if k.user_id == u && leb r.expires_at now
    then elim r.expired_at [
      | none ↦ record r { response_json = none; expired_at = some r.expires_at }
      | some t ↦ r
    ]
    else r

unfoldable pub expire_requests : ℕ → ℕ → Table RequestKey Idempotency → Table RequestKey Idempotency
expire_requests u now [] = []
expire_requests u now ((k, r) ∷ t) = (k, expired_row u now k r) ∷ expire_requests u now t

-- `WHERE user_id=? AND expired_at<?`, with the time of the tombstones moved to the left
abbrev pub is_tombstone : Settings → ℕ → ℕ → RequestKey → Option ℕ → Bool
is_tombstone s u now k none = false
is_tombstone s u now k (some t) = k.user_id == u && ltb (t + s.idempotency_tombstone_seconds) now

unfoldable pub delete_tombstones :
    Settings → ℕ → ℕ → Table RequestKey Idempotency → Table RequestKey Idempotency
delete_tombstones s u now [] = []
delete_tombstones s u now ((k, r) ∷ t) =
    let rest = delete_tombstones s u now t in
    if is_tombstone s u now k r.expired_at then rest else (k, r) ∷ rest

abbrev pub with_requests : Table RequestKey Idempotency → Db → Db
with_requests t d = record d { idempotency = t }

abbrev pub is_present : {A : Type 0} → Option A → Bool
is_present none = false
is_present (some a) = true

module _ (s : Settings) (now u : ℕ) (stored_key request_sha256 : String) where
  abbrev pub new_request : Idempotency
  new_request = record {
    request_sha256 = request_sha256;
    response_json = none;
    created_at = now;
    completed_at = none;
    expires_at = now + s.idempotency_ttl_seconds;
    expired_at = none;
  }

  unfoldable pub create_idempotency_record : Tx Unit
  create_idempotency_record = do
    modify (λ d. with_requests (expire_requests u now d.idempotency) d)
    modify (λ d. with_requests (delete_tombstones s u now d.idempotency) d)
    count ← gets (λ d. count_if (λ r. r.0.user_id == u) d.idempotency)
    raise_if (leb s.max_idempotency_records_per_user count) idempotency_quota_reached
    insert_unique s (some u) false 0
        (λ d. is_present (lookup (request_key u stored_key) d.idempotency)) integrity_error
        (λ d. with_requests (put (request_key u stored_key) new_request d.idempotency) d)

unfoldable pub idempotent_response : Encoder → ℕ → String → Idempotency → Tx Response
idempotent_response enc now request_sha256 row = do
  raise_if (is_present row.expired_at || leb row.expires_at now) idempotency_key_expired
  raise_if (not (str_eq row.request_sha256 request_sha256)) idempotency_conflict
  text ← or_raise (nonempty row.response_json) request_in_progress
  or_raise (enc.loads text) idempotency_state_invalid

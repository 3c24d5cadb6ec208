-- ===== src/Product/Storage.antt =====
-- Retained bytes and the reservations for a result: `_retained_storage_bytes`,
-- `_unrealized_storage_reservations`, `_assert_retained_byte_capacity`, `_reserve_result_capacity` and
-- `_next_result_version` of unrender/product/service.py.
pub mod Rules
pub mod Reservations
pub mod Deletions
pub mod Draining
pub mod Consumed
use Prim.Native.String.{len}
use unrender.Base.{
  ℕ, ◌+◌, ◌-◌, ◌*◌, Bool, true, false, ◌&&◌, ◌||◌, not, Option, none, some, String, List, [], ◌∷◌,
  ltb, leb, ◌==◌, if◌then◌else◌, max,
}
use unrender.Base.Table.{Table, lookup, sum, nat_eq}
use unrender.Product.Settings.{
  Settings, max_receipt_bytes, result_version_reservation_bytes,
  result_publication_reservation_bytes,
}
use unrender.Product.Schema.{Db, Job, Version, VersionKey, is_value}
use unrender.Product.Tx.{
  Tx, ◌>>=◌, ◌>>◌, pure, gets, raise_if, service_storage_capacity_reached, storage_free_space_guard,
  history_storage_quota_reached, version_quota_reached, invalid_result, Error,
}
use unrender.Product.Admission.{one_if}

-- What the file system reports: the size of the database files, and the free space.
pub record Disk : Type 0 where
  pub database_bytes : ℕ
  pub free : ℕ
  -- what `storage.copy_to_job` raises, if it raises
  pub copy_error : Option Error

text_bytes : Option String → ℕ
text_bytes none = 0
text_bytes (some text) = len text

version_bytes : Version → ℕ
version_bytes v = len v.chart_json + len v.extraction_receipt_json

unfoldable pub unrealized_storage_reservations : Db → ℕ
unrealized_storage_reservations d =
    sum (λ k r. r.byte_count) d.storage_reservations
    + sum (λ k j. j.retained_byte_reservation) d.jobs

module _ (s : Settings) (disk : Disk) where
  unfoldable pub retained_storage_bytes : Db → ℕ
  unfolding text_bytes version_bytes
  retained_storage_bytes d =
      sum (λ k u. u.byte_size) d.uploads
      + sum (λ k j. j.source_byte_size) d.jobs
      + sum (λ k p. p.byte_size) d.pending_deletions
      + sum (λ k r. r.byte_count) d.storage_reservations
      + sum (λ k j. j.retained_byte_reservation) d.jobs
      + sum (λ k v. version_bytes v) d.versions
      + sum
          (λ k j.
            text_bytes j.raw_result
            + text_bytes j.original_result_json
            + text_bytes j.current_result_json)
          d.jobs
      + disk.database_bytes
      + s.database_headroom_bytes

  unfoldable pub assert_retained_byte_capacity : ℕ → Tx Unit
  assert_retained_byte_capacity additional = do
    retained ← gets retained_storage_bytes
    raise_if (ltb s.max_storage_bytes_global (retained + additional))
        service_storage_capacity_reached
    unrealized ← gets unrealized_storage_reservations
    raise_if
        (ltb disk.free
          (s.min_free_storage_bytes + s.database_headroom_bytes + unrealized + additional))
        storage_free_space_guard

  -- `id<>?`, unless the id is NULL
  abbrev other_job : Option ℕ → ℕ → Bool
  other_job none k = true
  other_job (some job) k = not (k == job)

  count_versions : ℕ → ℕ → Table VersionKey Version → ℕ
  count_versions u job = sum (λ k v. one_if (k.job_id == job && v.user_id == u))

  -- An attempt is a positive number in every call, so the guard against others is left out.
  unfoldable pub reserve_result_capacity : ℕ → Option ℕ → Tx Unit
  unfolding count_versions version_bytes
  reserve_result_capacity u job = do
    history ← gets (λ d. sum (λ k v. if v.user_id == u then version_bytes v else 0) d.versions)
    reserved ← gets (λ d.
        sum (λ k j. if j.user_id == u && other_job job k then j.result_reservation_bytes else 0)
          d.jobs)
    raise_if
        (ltb s.max_history_bytes_per_user (history + reserved + result_version_reservation_bytes s))
        history_storage_quota_reached
    versions ← gets (λ d. elim job [ none ↦ 0 | some k ↦ count_versions u k d.versions ])
    raise_if (elim job [ none ↦ false | some k ↦ leb s.max_result_versions_per_job versions ])
        version_quota_reached
    assert_retained_byte_capacity (result_publication_reservation_bytes s)

-- `COALESCE(MAX(version),0)` over the versions of a job
unfoldable pub latest_version : ℕ → ℕ → Table VersionKey Version → ℕ
latest_version u job [] = 0
latest_version u job ((k, v) ∷ t) =
    let rest = latest_version u job t in
    if k.job_id == job && v.user_id == u then max k.version rest else rest

-- `CASE WHEN result_reservation_attempt=? THEN result_reservation_bytes ELSE 0 END`
own_reservation : ℕ → Option ℕ → Option Job → ℕ
own_reservation u (some attempt) (some j) =
    if j.user_id == u && is_value j.result_reservation_attempt attempt
    then j.result_reservation_bytes
    else 0
own_reservation u _ _ = 0

unfoldable pub next_result_version : Settings → ℕ → ℕ → ℕ → ℕ → Option ℕ → Tx ℕ
unfolding latest_version own_reservation version_bytes count_versions
next_result_version s u job encoded_bytes receipt_bytes attempt = do
  raise_if (ltb s.max_result_json_bytes encoded_bytes) invalid_result
  raise_if (ltb max_receipt_bytes receipt_bytes) invalid_result
  job_versions ← gets (λ d. sum (λ k v. one_if (k.job_id == job && v.user_id == u)) d.versions)
  raise_if (leb s.max_result_versions_per_job job_versions) version_quota_reached
  user_bytes ← gets (λ d. sum (λ k v. if v.user_id == u then version_bytes v else 0) d.versions)
  reserved ←
      gets (λ d. sum (λ k j. if j.user_id == u then j.result_reservation_bytes else 0) d.jobs)
  own ← gets (λ d. own_reservation u attempt (lookup job d.jobs))
  raise_if
      (ltb s.max_history_bytes_per_user
        (user_bytes + reserved - own + encoded_bytes + receipt_bytes))
      history_storage_quota_reached
  latest ← gets (λ d. latest_version u job d.versions)
  pure (latest + 1)

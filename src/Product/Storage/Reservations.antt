-- ===== src/Product/Storage/Reservations.antt =====
-- Durable storage reservations: `_reserve_storage_bytes`, `_resize_storage_reservation`,
-- `_consume_storage_reservation`, `_drop_storage_reservation` and `cleanup_storage_reservations` of
-- service.py. `now` is the clock reading, `ident` and `token` are the fresh id and owner token.
use unrender.Base.{
  ℕ, ◌+◌, ◌-◌, Bool, true, false, ◌&&◌, not, Option, none, some, String, ltb, ◌==◌, if◌then◌else◌,
}
use unrender.Base.Table.{Table, lookup, put, erase, nat_eq}
use text.Mathlib.Text.{◌==◌ as str_eq}
use unrender.Product.Settings.{Settings}
use unrender.Product.Schema.{Db, StorageReservation, is_value}
use unrender.Product.Tx.{
  Tx, ◌>>=◌, ◌>>◌, pure, gets, modify, raise_if, or_raise, when, storage_reservation_lost, Error,
  Result, err, transaction,
}
use unrender.Product.Admission.{insert_row}
use unrender.Product.Storage.{Disk, assert_retained_byte_capacity}

-- `StorageReservation` of service.py: what its holder keeps
pub record Ticket : Type 0 where
  pub reservation_id : ℕ
  pub owner_token : ℕ

abbrev pub with_reservations : Table ℕ StorageReservation → Db → Db
with_reservations t d = record d { storage_reservations = t }

-- `owner_token=? AND user_id=?`
unfoldable pub is_owned : ℕ → Ticket → StorageReservation → Bool
is_owned u ticket r = r.owner_token == ticket.owner_token && is_value r.user_id u

abbrev pub reservation_if :
    (StorageReservation → Bool) → Option StorageReservation → Option StorageReservation
reservation_if test none = none
reservation_if test (some r) = if test r then some r else none

unfoldable pub matching : ℕ → (StorageReservation → Bool) → Db → Option StorageReservation
matching k test d = reservation_if test (lookup k d.storage_reservations)

abbrev pub is_some : {A : Type 0} → Option A → Bool
is_some none = false
is_some (some a) = true

-- `DELETE FROM storage_reservations WHERE id=? AND ...`: whether its row count is 1
unfoldable pub delete_reservation : ℕ → (StorageReservation → Bool) → Tx Bool
unfolding matching
delete_reservation k test = do
  row ← gets (matching k test)
  when (is_some row) (modify (λ d. with_reservations (erase k d.storage_reservations) d))
  pure (is_some row)

module _ (s : Settings) (disk : Disk) (now : ℕ) where
  unfoldable pub reserve_storage_bytes : ℕ → ℕ → ℕ → ℕ → String → Option ℕ → Tx Ticket
  reserve_storage_bytes ident token u byte_count kind path = do
    assert_retained_byte_capacity s disk byte_count
    insert_row s (some u) false 0 (λ d.
        with_reservations
          (put ident
            (record {
              owner_token = token;
              user_id = some u;
              kind = kind;
              byte_count = byte_count;
              storage_path = path;
              expires_at = now + s.storage_reservation_ttl_seconds;
            })
            d.storage_reservations)
          d)
    pure (record { reservation_id = ident; owner_token = token })

  abbrev pub resized : ℕ → String → Option ℕ → StorageReservation → StorageReservation
  resized byte_count kind path r = record r {
    kind = kind;
    byte_count = byte_count;
    storage_path = path;
    expires_at = now + s.storage_reservation_ttl_seconds;
  }

  -- The row that the first statement reads is the one that the second updates: both have the same
  -- WHERE clause, and nothing comes between them.
  unfoldable pub resize_storage_reservation : ℕ → Ticket → ℕ → String → Option ℕ → Tx Unit
  resize_storage_reservation u ticket byte_count kind path = do
    row ← gets (matching ticket.reservation_id (λ r. is_owned u ticket r && ltb now r.expires_at))
    r ← or_raise row storage_reservation_lost
    when (ltb r.byte_count byte_count)
        (assert_retained_byte_capacity s disk (byte_count - r.byte_count))
    modify (λ d.
        with_reservations
          (put ticket.reservation_id (resized byte_count kind path r) d.storage_reservations) d)

module _ (now : ℕ) where
  unfoldable pub consume_storage_reservation : ℕ → Ticket → String → ℕ → ℕ → Tx Unit
  consume_storage_reservation u ticket kind byte_count path = do
    changed ← delete_reservation ticket.reservation_id (λ r.
        is_owned u ticket r
        && str_eq r.kind kind
        && r.byte_count == byte_count
        && is_value r.storage_path path
        && ltb now r.expires_at)
    raise_if (not changed) storage_reservation_lost

unfoldable pub drop_storage_reservation : ℕ → Ticket → Tx Bool
drop_storage_reservation u ticket = delete_reservation ticket.reservation_id (is_owned u ticket)

-- `except Exception`: the files are deleted, the reservation is released, and the error is raised
-- again. A deletion that raises ends this with its own error, and the reservation stays.
abbrev pub release_after : {A : Type 0} → ℕ → Ticket → Option Error → Error → Db → Result A × Db
release_after u ticket none x d = (err x, (transaction (drop_storage_reservation u ticket) d).1)
release_after u ticket (some y) x d = (err y, d)

-- ===== src/Product/Storage/Consumed.antt =====
-- A storage reservation is consumed at most once.
use unrender.Base.{ℕ, ◌≡◌, refl, ap, Bool, true, false, not, Option, none, some, String, arith}
use unrender.Base.Table.{lookup, erase, lookup-erase, nat_eq}
use unrender.Product.Schema.{Db, StorageReservation}
use unrender.Product.Tx.{Tx, ok, err, ◌>>=◌, ◌>>◌, pure, when, raise_if, storage_reservation_lost}
use unrender.Product.Tx.{continue}
use unrender.Product.Tx.Ensures.{
  Ensures, Ensures-pure, Ensures-bind, Ensures-gets_bind, Ensures-when, Ensures-modify,
  Ensures-raise_if, Ensures-of_run,
}
use unrender.Product.Storage.Reservations.{
  Ticket, delete_reservation, matching, is_some, reservation_if, consume_storage_reservation,
  drop_storage_reservation,
}

erased : (k : ℕ) (d : Db) → lookup k (erase k d.storage_reservations) ≡ none
erased k d = ground (arith, lookup-erase k k d.storage_reservations)

delete-gone :
    (k : ℕ) (test : StorageReservation → Bool) (d : Db)
    → Ensures
        (delete_reservation k test)
        d
        (λ b e. b ≡ true → lookup k e.storage_reservations ≡ none)
unfolding delete_reservation
delete-gone k test d = Ensures-gets_bind _ d _ _ (
    Ensures-bind _ d
      (λ _ e. is_some (matching k test d) ≡ true → lookup k e.storage_reservations ≡ none) _ _
      (Ensures-when _ d _ _ (λ _. Ensures-modify _ d _ λ _. erased k d)
        λ absent held. absurd (cc (absent, held)))
      λ _ e p. Ensures-pure _ e _ p)

absent_row :
    (o : Option StorageReservation) (m : Tx Unit) (d : Db)
    → o ≡ none
    → (when (is_some o) m >> pure (is_some o)) d ≡ ok (false, d)
unfolding ◌>>=◌
absent_row none m d h = refl
absent_row (some r) m d h = absurd (cc (h))

-- A row that is not there is not deleted.
delete-absent :
    (k : ℕ) (test : StorageReservation → Bool) (d : Db)
    → lookup k d.storage_reservations ≡ none
    → delete_reservation k test d ≡ ok (false, d)
unfolding delete_reservation matching ◌>>=◌
delete-absent k test d h = absent_row _ _ d (ap (reservation_if test) h)

consumed-gone :
    (now u : ℕ) (ticket : Ticket) (kind : String) (bytes path : ℕ) (d : Db)
    → Ensures
        (consume_storage_reservation now u ticket kind bytes path)
        d
        (λ _ e. lookup ticket.reservation_id e.storage_reservations ≡ none)
unfolding consume_storage_reservation
consumed-gone now u ticket kind bytes path d =
    Ensures-bind _ d _ _ _ (delete-gone ticket.reservation_id _ d)
      λ b e p. Ensures-raise_if _ e _ _ λ kept. p (ground (arith, kept))

-- When a reservation has been consumed, its row is gone: to consume it again fails, for any holder, amount and
-- path, and to release it deletes nothing.
pub consume-once :
    (now later u v kind_bytes bytes path other : ℕ) (ticket : Ticket) (kind kind' : String)
    (token : ℕ) (d e : Db)
    → consume_storage_reservation now u ticket kind kind_bytes path d ≡ ok (tt, e)
    → (lookup ticket.reservation_id e.storage_reservations ≡ none)
      × (consume_storage_reservation later v
            (record ticket { owner_token = token })
            kind'
            bytes
            other
            e
          ≡ err storage_reservation_lost)
      × (drop_storage_reservation v (record ticket { owner_token = token }) e ≡ ok (false, e))
unfolding consume_storage_reservation drop_storage_reservation ◌>>=◌
consume-once now later u v kind_bytes bytes path other ticket kind kind' token d e h =
    let gone = Ensures-of_run _ d _ tt e (consumed-gone now u ticket kind kind_bytes path d) h in
    (
      gone,
      ap (λ r. continue r (λ changed. raise_if (not changed) storage_reservation_lost))
          (delete-absent ticket.reservation_id _ e gone),
      delete-absent ticket.reservation_id _ e gone,
    )

-- ===== src/Product/Submission/Failure.antt =====
-- A `create_job` that fails leaves the database as it was.
use unrender.Base.{
  ℕ, ◌≡◌, ◌⊎◌, inl, inr, refl, sym, ap, ◌∙◌, Option, none, some, String, [], ◌∷◌, arith,
}
use unrender.Base.Table.{Table, lookup, put, erase, lookup-put_self, nat_eq}
use unrender.Product.Settings.{Settings}
use unrender.Product.Schema.{Db, Upload, StorageReservation}
use unrender.Product.Tx.{Result, Error, ok, err, transaction, pure, when, modify, ◌>>=◌, ◌>>◌}
use unrender.Product.Tx.Ensures.{
  Ensures, Ensures-pure, Ensures-guard_bind, Ensures-bind, Ensures-of_run,
}
use unrender.Product.Admission.Rules.{Ensures-insert_row}
use unrender.Product.Storage.{Disk}
use unrender.Product.Storage.Rules.{assert_retained_byte_capacity-pure}
use unrender.Product.Storage.Reservations.{
  Ticket, with_reservations, reserve_storage_bytes, drop_storage_reservation, delete_reservation,
  matching, is_owned, is_some, release_after,
}
use unrender.Product.Jobs.Requests.{DemoFixture}
use unrender.Product.Submission.Requests.{Response, Encoder}
use unrender.Product.Submission.{Submission}
use unrender.Product.Submission.Create.{create_job, checked, reserved, released}

erase-put :
    {R : Type 0} (k : ℕ) (r : R) (t : Table ℕ R) → lookup k t ≡ none → erase k (put k r t) ≡ t
unfolding lookup put erase
erase-put k r [] h = ground arith
erase-put k r ((j, x) ∷ t) h = ground (arith, erase-put k r t)

-- A reservation that has been made, by the ticket of its holder.
abbrev pub IsReserved : ℕ → ℕ → ℕ → Db → Ticket → Db → Type 0
IsReserved u id token d ticket e =
    (ticket ≡ record { reservation_id = id; owner_token = token })
    × ((r : StorageReservation) × (r.owner_token ≡ token)
        × (r.user_id ≡ some u)
        × (e ≡ with_reservations (put id r d.storage_reservations) d))

pub reserve-IsReserved :
    (s : Settings) (disk : Disk) (now id token u n : ℕ) (kind : String) (path : Option ℕ) (d : Db)
    → Ensures
        (reserve_storage_bytes s disk now id token u n kind path)
        d
        (λ ticket e. IsReserved u id token d ticket e)
unfolding reserve_storage_bytes
reserve-IsReserved s disk now id token u n kind path d =
    Ensures-guard_bind _ d _ _ (assert_retained_byte_capacity-pure s disk d n) λ _.
      Ensures-bind _ d
        (λ _ e.
          (r : StorageReservation) × (r.owner_token ≡ token)
          × (r.user_id ≡ some u)
          × (e ≡ with_reservations (put id r d.storage_reservations) d))
        _ _ (Ensures-insert_row s _ d _ _ _ _ (_, refl, refl, refl))
        λ _ e p. Ensures-pure _ e _ (refl, p)

found-run :
    (o : Option StorageReservation) (r : StorageReservation) (f : Db → Db) (d : Db)
    → o ≡ some r
    → (transaction (when (is_some o) (modify f) >> pure (is_some o)) d).1 ≡ f d
unfolding transaction ◌>>=◌
found-run none r f d h = absurd (cc)
found-run (some x) r f d h = refl

owned-matching :
    (u id token : ℕ) (r : StorageReservation) (d : Db)
    → r.owner_token ≡ token
    → r.user_id ≡ some u
    → lookup id d.storage_reservations ≡ some r
    → matching id (is_owned u (record { reservation_id = id; owner_token = token })) d ≡ some r
unfolding matching is_owned
owned-matching u id token r d p q h = ground (arith, h, p, q)

-- The release of a reservation that was just made gives back the table.
release-run :
    (u id token : ℕ) (r : StorageReservation) (d : Db)
    → r.owner_token ≡ token
    → r.user_id ≡ some u
    → lookup id d.storage_reservations ≡ none
    → (transaction
        (drop_storage_reservation u (record { reservation_id = id; owner_token = token }))
        (with_reservations (put id r d.storage_reservations) d)).1
      ≡ d
unfolding drop_storage_reservation delete_reservation transaction ◌>>=◌
release-run u id token r d p q h =
    let e : Db = with_reservations (put id r d.storage_reservations) d in
    found-run _ r (λ x. with_reservations (erase id x.storage_reservations) x) e
      (owned-matching u id token r e p q (lookup-put_self id r d.storage_reservations))
    ∙ ap (λ t. with_reservations t d) (erase-put id r d.storage_reservations h)

-- What a failed call leaves: the database as it was, or, if `storage.delete` raised the error, the
-- reservation for the copy too.
abbrev pub IsUndone : ℕ → ℕ → ℕ → Option Error → Error → Db → Db → Type 0
IsUndone u id token deletion x d e =
    (e ≡ d)
    ⊎ ((deletion ≡ some x)
        × ((r : StorageReservation) × (r.owner_token ≡ token)
            × (r.user_id ≡ some u)
            × (e ≡ with_reservations (put id r d.storage_reservations) d)))

module _ (u id token : ℕ) (d : Db) (free : lookup id d.storage_reservations ≡ none) where
  release_after-lem :
      {A : Type 0} (deletion : Option Error) (r : StorageReservation) (x y : Error) (e : Db)
      → r.owner_token ≡ token
      → r.user_id ≡ some u
      → ◌≡◌ {A = Result A × Db}
          (release_after u
            (record { reservation_id = id; owner_token = token })
            deletion
            y
            (with_reservations (put id r d.storage_reservations) d))
          (err x, e)
      → IsUndone u id token deletion x d e
  release_after-lem none r x y e p q h =
      inl (sym (ap (λ z. z.1) h) ∙ release-run u id token r d p q free)
  release_after-lem (some z) r x y e p q h =
      let same : z ≡ x = cc (ap (λ w. w.0) h) in
      inr (ap (λ (w : Error). some w) same, (r, p, q, sym (ap (λ w. w.1) h)))

module _ (s : Settings) (disk : Disk) (fixture : DemoFixture) (enc : Encoder) (ident now : ℕ)
    (q : Submission) (k source_path id token : ℕ) (deletion : Option Error) where
  released-err :
      (r : StorageReservation) (d e : Db) (x : Error) (o : Result (Response × Db))
      → lookup id d.storage_reservations ≡ none
      → r.owner_token ≡ token
      → r.user_id ≡ some q.user
      → released s disk fixture enc ident now q k source_path id token deletion
          (record { reservation_id = id; owner_token = token })
          (with_reservations (put id r d.storage_reservations) d)
          o
        ≡ (err x, e)
      → IsUndone q.user id token deletion x d e
  released-err r d e x (ok (response, f)) free p own h = absurd (cc (ap (λ z. z.0) h))
  released-err r d e x (err y) free p own h =
      release_after-lem q.user id token d free deletion r x y e p own h

  reserved-err :
      (r : Upload) (d e : Db) (x : Error) (o : Result (Ticket × Db))
      → ((ticket : Ticket) (f : Db) → o ≡ ok (ticket, f) → IsReserved q.user id token d ticket f)
      → lookup id d.storage_reservations ≡ none
      → reserved s disk fixture enc ident now q k source_path id token deletion r d o ≡ (err x, e)
      → IsUndone q.user id token deletion x d e
  reserved-err r d e x (err y) run free h = inl (sym (ap (λ p. p.1) h))
  reserved-err r d e x (ok (ticket, f)) run free h =
      let (same, (row, token_of, owner, after)) = run ticket f refl in
      let answer : Ticket → Db → Result Response × Db = λ t a.
        reserved s disk fixture enc ident now q k source_path id token deletion r d (ok (t, a)) in
      released-err row d e x _ free token_of owner (
        sym (
          ap (λ (t : Ticket). answer t f) same
          ∙ ap (λ (a : Db). answer (record { reservation_id = id; owner_token = token }) a) after)
        ∙ h)

  checked-err :
      (d e : Db) (x : Error) (o : Result ((Response ⊎ Upload) × Db))
      → lookup id d.storage_reservations ≡ none
      → checked s disk fixture enc ident now q k source_path id token deletion d o ≡ (err x, e)
      → IsUndone q.user id token deletion x d e
  checked-err d e x (err y) free h = inl (sym (ap (λ p. p.1) h))
  checked-err d e x (ok (inl response, f)) free h = absurd (cc (ap (λ p. p.0) h))
  checked-err d e x (ok (inr r, f)) free h =
      reserved-err r d e x _
        (λ ticket f run.
          Ensures-of_run _ d _ ticket f
            (reserve-IsReserved s disk now id token q.user r.byte_size "job_copy" (some source_path)
              d)
            run)
        free h

-- If the id drawn for the storage reservation is not in its table, a call of `create_job` that
-- raises, from whichever of its transactions, leaves the database exactly as it found it, with one
-- exception: if the error is the one that `storage.delete` raises when the copy is cleaned up, the
-- reservation for the copy may stay, under its owner and token, and nothing else differs.
pub create_job-failure :
    (s : Settings) (disk : Disk) (fixture : DemoFixture) (enc : Encoder) (ident now : ℕ)
    (q : Submission) (k source_path reservation_id token : ℕ) (deletion : Option Error) (d e : Db)
    (x : Error)
    → lookup reservation_id d.storage_reservations ≡ none
    → create_job s disk fixture enc ident now q k source_path reservation_id token deletion d
      ≡ (err x, e)
    → IsUndone q.user reservation_id token deletion x d e
unfolding create_job
create_job-failure s disk fixture enc ident now q k source_path id token deletion d e x free h =
    checked-err s disk fixture enc ident now q k source_path id token deletion d e x _ free h

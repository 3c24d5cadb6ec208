-- ===== src/Product/Uploads/Failure.antt =====
-- What the preparation of an upload leaves when it fails.
use unrender.Base.{
  ℕ, ◌≡◌, refl, subst, ap, ◌∙◌, Bool, true, false, Option, none, some, String, arith, ◌==◌,
  Bool-cases, inl, inr,
}
use unrender.Base.Table.{lookup, erase, lookup-erase, nat_eq}
use unrender.Product.Settings.{Settings}
use unrender.Product.Schema.{Db, StorageReservation, RateKey, rate_key_eq}
use unrender.Product.Tx.{
  Tx, Result, Error, ok, err, transaction, ◌>>=◌, ◌>>◌, pure, when, modify, upload_rate_limited,
}
use unrender.Product.Tx.Ensures.{
  Holds, Ensures, Ensures-gets_bind, Ensures-modify, Ensures-guard_bind, Ensures-or_raise_bind,
  Ensures-when,
}
use unrender.Product.Storage.{Disk}
use unrender.Product.Storage.Rules.{assert_retained_byte_capacity-pure}
use unrender.Product.Storage.Reservations.{
  Ticket, with_reservations, resize_storage_reservation, drop_storage_reservation,
  delete_reservation, matching, is_owned, is_some, reservation_if, release_after,
}
use unrender.Product.RateLimit.{rate_limit, count_in, refused_or_counted}
use unrender.Product.Admission.Rules.{Ensures-insert_row}
use unrender.Product.Uploads.{
  Inspection, store_upload, stored, resized, rated, prepare_staged_upload, first_raised,
}

-- Only the windows of the rate limiter and the storage reservations may differ.
abbrev pub SameElse : Db → Db → Type 0
SameElse d e =
    e ≡ record d { rate_limits = e.rate_limits; storage_reservations = e.storage_reservations }

pub SameElse-trans : (a b c : Db) → SameElse a b → SameElse b c → SameElse a c
SameElse-trans a b c p q =
    q
    ∙ ap
        (λ (x : Db). record x {
          rate_limits = c.rate_limits;
          storage_reservations = c.storage_reservations;
        })
        p

refused-SameElse :
    (fits : Bool) (r : Result (Unit {0} × Db)) (d : Db)
    → Holds (λ _ e. SameElse d e) r
    → Holds (λ _ e. SameElse d e) (refused_or_counted fits r d)
unfolding refused_or_counted
refused-SameElse fits (ok (_, e)) d h = h
refused-SameElse fits (err x) d h = refl

count-SameElse :
    (s : Settings) (limit amount : ℕ) (key : RateKey) (o : Option ℕ) (d : Db)
    → Ensures (count_in s limit amount key o) d (λ _ e. SameElse d e)
unfolding count_in
count-SameElse s limit amount key (some n) d = record { at = refl }
count-SameElse s limit amount key none d = record {
  at = refused-SameElse _ _ d (Ensures-insert_row s (λ _ e. SameElse d e) d none false 0 _ refl).at;
}

rate_limit-SameElse :
    (s : Settings) (now : ℕ) (bucket : String) (limit : Option ℕ) (amount : ℕ) (d : Db)
    → Ensures (rate_limit s now bucket limit amount) d (λ _ e. SameElse d e)
unfolding rate_limit
rate_limit-SameElse s now bucket limit amount d = record {
  at = elim (Bool-cases (amount == 0)) [
    | inl zero ↦ rw zero tt
    | inr more ↦ rw more (count-SameElse s _ amount _ _ d).at
  ];
}

pub resize-SameElse :
    (s : Settings) (disk : Disk) (now u : ℕ) (ticket : Ticket) (n : ℕ) (kind : String)
    (path : Option ℕ) (d : Db)
    → Ensures (resize_storage_reservation s disk now u ticket n kind path) d (λ _ e. SameElse d e)
unfolding resize_storage_reservation
resize-SameElse s disk now u ticket n kind path d = Ensures-gets_bind _ d _ _ (
    Ensures-or_raise_bind _ d _ _ _ λ r _.
      Ensures-guard_bind _ d _ _
        (Ensures-when _ d _ _ (λ _. assert_retained_byte_capacity-pure s disk d _) λ _. refl)
        λ _. Ensures-modify _ d _ refl)

-- A committed or rolled back transaction that keeps the rest keeps it either way.
pub transaction-SameElse :
    {A : Type 0} (m : Tx A) (d : Db)
    → Ensures m d (λ _ e. SameElse d e)
    → SameElse d (transaction m d).1
unfolding transaction
transaction-SameElse {A = A} m d h = go (m d) h.at
  where
    go :
        (r : Result (A × Db))
        → Holds (λ _ e. SameElse d e) r
        → SameElse d
            (elim r as (λ _. Result A × Db) [ ok (a, e) ↦ (ok a, e) | err x ↦ (err x, d) ]).1
    go (ok (a, e)) p = p
    go (err x) p = refl

pub unmatched :
    (k : ℕ) (test : StorageReservation → Bool) (d : Db)
    → lookup k d.storage_reservations ≡ none
    → matching k test d ≡ none
unfolding matching
unmatched k test d h = ap (reservation_if test) h

-- The reservation of a ticket is gone, and nothing but reservations has changed.
abbrev pub IsReleased : ℕ → Ticket → Db → Db → Type 0
IsReleased u ticket d e =
    SameElse d e × (matching ticket.reservation_id (is_owned u ticket) e ≡ none)

dropped-IsReleased :
    (o : Option StorageReservation) (u : ℕ) (ticket : Ticket) (d : Db)
    → matching ticket.reservation_id (is_owned u ticket) d ≡ o
    → IsReleased u ticket d
        (transaction
          (when (is_some o) (
              modify
                (λ x. with_reservations (erase ticket.reservation_id x.storage_reservations) x))
            >> pure (is_some o))
          d).1
unfolding transaction ◌>>=◌
dropped-IsReleased none u ticket d h = (refl, h)
dropped-IsReleased (some r) u ticket d h = (
  refl,
  unmatched ticket.reservation_id _ _ (
      ground
        (arith, lookup-erase ticket.reservation_id ticket.reservation_id d.storage_reservations)),
)

pub release-IsReleased :
    (u : ℕ) (ticket : Ticket) (d : Db)
    → IsReleased u ticket d (transaction (drop_storage_reservation u ticket) d).1
unfolding drop_storage_reservation delete_reservation transaction ◌>>=◌
release-IsReleased u ticket d = dropped-IsReleased _ u ticket d refl

failed-SameElse :
    {A : Type 0} (m : Tx A) (d : Db) (x : Error) (e : Db)
    → transaction m d ≡ (err x, e)
    → SameElse d e
unfolding transaction
failed-SameElse {A = A} m d x e h = go (m d) h
  where
    go :
        (r : Result (A × Db))
        → (elim r as (λ _. Result A × Db) [ ok (a, f) ↦ (ok a, f) | err y ↦ (err y, d) ])
          ≡ (err x, e)
        → SameElse d e
    go (ok (a, f)) p = absurd (cc (ap (λ y. y.0) p))
    go (err y) p = subst (SameElse d) (ap (λ z. z.1) p) refl

module _ (u : ℕ) (ticket : Ticket) (staged final : Option Error) where
  -- What a failure leaves: the ticket's reservation is gone if no deletion raised.
  abbrev pub IsUndone : Db → Db → Type 0
  IsUndone d e =
      SameElse d e
      × (staged ≡ none → final ≡ none → matching ticket.reservation_id (is_owned u ticket) e ≡ none)

  -- The answer of a step that has failed and cleaned up.
  release_after-IsUndone :
      (deletion : Option Error) (a d e : Db) (x y : Error)
      → (staged ≡ none → final ≡ none → deletion ≡ none)
      → SameElse a d
      → ◌≡◌ {A = Result ℕ × Db} (release_after u ticket deletion y d) (err x, e)
      → IsUndone a e
  release_after-IsUndone none a d e x y quiet p h =
      let q = subst (IsReleased u ticket d) (ap (λ z. z.1) h) (release-IsReleased u ticket d) in
      (SameElse-trans a d e p q.0, λ _ _. q.1)
  release_after-IsUndone (some z) a d e x y quiet p h =
      (subst (SameElse a) (ap (λ w. w.1) h) p, λ s f. absurd (cc (quiet s f)))

module _ (s : Settings) (ident now u k path : ℕ) (ticket : Ticket) (found : Inspection)
    (credit : Bool) (fixture : Option String) (commit : Option Error)
    (staged final : Option Error) where
  quiet :
      staged ≡ none
      → final ≡ none
      → first_raised s ident now u k path ticket found credit fixture commit staged final ≡ none
  quiet p q = rw q p

  stored-err :
      (r : Result (Unit {0}) × Db) (a e : Db) (x : Error)
      → ((y : Error) (d : Db) → r ≡ (err y, d) → SameElse a d)
      → stored s ident now u k path ticket found credit fixture commit staged final r ≡ (err x, e)
      → IsUndone u ticket staged final a e
  stored-err (ok _, d) a e x p h = absurd (cc (ap (λ y. y.0) h))
  stored-err (err y, d) a e x p h =
      release_after-IsUndone u ticket staged final _ a d e x y quiet (p y d refl) h

  resized-err :
      (r : Result (Unit {0}) × Db) (a e : Db) (x : Error)
      → SameElse a r.1
      → resized s ident now u k path ticket found credit fixture commit staged final r ≡ (err x, e)
      → IsUndone u ticket staged final a e
  resized-err (ok _, d) a e x p h =
      stored-err _ a e x
        (λ y f q. SameElse-trans a d f p (
          failed-SameElse (store_upload s ident now u k path ticket found credit fixture commit) d y
            f q))
        h
  resized-err (err y, d) a e x p h =
      release_after-IsUndone u ticket staged final _ a d e x y quiet p h

  rated-err :
      (disk : Disk) (bucket : String) (r : Result Bool × Db) (a e : Db) (x : Error)
      → SameElse a r.1
      → rated s ident now u k path ticket found credit fixture commit staged final disk bucket r
        ≡ (err x, e)
      → IsUndone u ticket staged final a e
  rated-err disk bucket (ok true, d) a e x p h =
      resized-err _ a e x
        (SameElse-trans a d _ p (
          transaction-SameElse _ d
            (resize-SameElse s disk now u ticket found.byte_size "upload" (some path) d)))
        h
  rated-err disk bucket (ok false, d) a e x p h =
      release_after-IsUndone u ticket staged final staged a d e x upload_rate_limited (λ no _. no) p
        h
  rated-err disk bucket (err y, d) a e x p h =
      release_after-IsUndone u ticket staged final staged a d e x y (λ no _. no) p h

-- If the preparation of an upload raises, at whichever of its transactions, then the database is as it
-- was but for the counts of the rate limiter and the storage reservations; and if `storage.delete`
-- raises neither for the staged file nor for the final one, no reservation that the ticket can claim
-- is left.
pub prepare_staged_upload-failure :
    (s : Settings) (ident now u k path : ℕ) (ticket : Ticket) (found : Inspection) (credit : Bool)
    (fixture : Option String) (commit : Option Error)
    (staged_deletion final_deletion : Option Error) (disk : Disk) (bucket : String) (d e : Db)
    (x : Error)
    → prepare_staged_upload s ident now u k path ticket found credit fixture commit staged_deletion
        final_deletion disk bucket d
      ≡ (err x, e)
    → SameElse d e
      × (staged_deletion ≡ none
          → final_deletion ≡ none
          → matching ticket.reservation_id (is_owned u ticket) e ≡ none)
unfolding prepare_staged_upload
prepare_staged_upload-failure s ident now u k path ticket found credit fixture commit staged final
      disk bucket d e x h =
    rated-err s ident now u k path ticket found credit fixture commit staged final disk bucket _ d e
      x
      (transaction-SameElse _ d
        (rate_limit-SameElse s now bucket (some s.max_upload_bytes_per_minute) found.byte_size d))
      h

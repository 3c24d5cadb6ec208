-- ===== src/Product/Uploads/Attempts.antt =====
-- An upload that fails anywhere leaves no reservation behind.
use unrender.Base.{ℕ, ◌≡◌, refl, sym, subst, ap, ◌∙◌, true, none, some, String, Option}
use unrender.Base.Table.{lookup, nat_eq}
use unrender.Product.Settings.{Settings}
use unrender.Product.Schema.{Db}
use unrender.Product.Tx.{Tx, Result, Error, ok, err, transaction}
use unrender.Product.Tx.Ensures.{
  Ensures, Holds, Ensures-gets_bind, Ensures-or_raise_bind, Ensures-raise_if, Ensures-weaken,
}
use unrender.Product.Storage.{Disk}
use unrender.Product.Storage.Reservations.{Ticket, reserve_storage_bytes, matching, is_owned}
use unrender.Product.Submission.Failure.{reserve-IsReserved}
use unrender.Product.Uploads.{Inspection}
use unrender.Product.Uploads.Failure.{
  SameElse, SameElse-trans, IsReleased, release-IsReleased, transaction-SameElse, resize-SameElse,
  prepare_staged_upload-failure, unmatched,
}
use unrender.Product.Uploads.Streamed.{
  cleaned, cleanup, staged, inspected, begun, permitted, prepare_upload_stream,
  require_customer_account,
}

customer-same : (u : ℕ) (d : Db) → Ensures (require_customer_account u) d (λ _ e. e ≡ d)
unfolding require_customer_account
customer-same u d =
    Ensures-gets_bind _ d _ _
      (Ensures-or_raise_bind _ d _ _ _ λ x _. Ensures-raise_if _ d _ _ λ _. refl)

-- A transaction that only reads leaves the database as it is, also when it raises.
transaction-same :
    {A : Type 0} (m : Tx A) (d : Db) → Ensures m d (λ _ e. e ≡ d) → (transaction m d).1 ≡ d
unfolding transaction
transaction-same {A = A} m d h = go (m d) h.at
  where
    go :
        (r : Result (A × Db))
        → Holds (λ _ e. e ≡ d) r
        → (elim r as (λ _. Result A × Db) [ ok (a, e) ↦ (ok a, e) | err x ↦ (err x, d) ]).1 ≡ d
    go (ok (a, e)) p = p
    go (err x) p = refl

-- A transaction that raises leaves the database as it is.
failed-same :
    {A : Type 0} (m : Tx A) (d : Db) (x : Error)
    → (transaction m d).0 ≡ err x
    → (transaction m d).1 ≡ d
unfolding transaction
failed-same {A = A} m d x h = go (m d) h
  where
    go :
        (r : Result (A × Db))
        → (elim r as (λ _. Result A × Db) [ ok (a, e) ↦ (ok a, e) | err y ↦ (err y, d) ]).0 ≡ err x
        → (elim r as (λ _. Result A × Db) [ ok (a, e) ↦ (ok a, e) | err y ↦ (err y, d) ]).1 ≡ d
    go (ok (a, e)) p = absurd (cc (p))
    go (err y) p = refl

module _ (s : Settings) (disk : Disk) (ident now u upload_id path id token staging_path : ℕ)
    (bucket : String) (staging : Result Inspection)
    (commit staged_deletion final_deletion : Option Error) where
  abbrev ticket : Ticket
  ticket = record { reservation_id = id; owner_token = token }

  -- What a failure leaves.
  abbrev pub IsUndone : Db → Db → Type 0
  IsUndone d e =
      (staged_deletion ≡ none → final_deletion ≡ none → matching id (is_owned u ticket) e ≡ none)
      × (staged_deletion ≡ none → SameElse d e)

  cleaned-err :
      (r : Result (Unit {0}) × Db) (a e : Db) (x y : Error)
      → (staged_deletion ≡ none → SameElse a r.1)
      → cleaned s disk ident now u upload_id path id token staging_path bucket staging commit
          staged_deletion final_deletion x r
        ≡ (err y, e)
      → IsUndone a e
  cleaned-err (ok _, d) a e x y p h =
      let q = subst (IsReleased u ticket d) (ap (λ z. z.1) h) (release-IsReleased u ticket d) in
      (λ _ _. q.1, λ yes. SameElse-trans a d e (p yes) q.0)
  cleaned-err (err z, d) a e x y p h =
      let q = subst (IsReleased u ticket d) (ap (λ w. w.1) h) (release-IsReleased u ticket d) in
      (λ _ _. q.1, λ yes. SameElse-trans a d e (p yes) q.0)

  cleanup-err :
      (b : Option Error) (x y : Error) (a d e : Db)
      → (staged_deletion ≡ none → b ≡ none)
      → SameElse a d
      → cleanup s disk ident now u upload_id path id token staging_path bucket staging commit
          staged_deletion final_deletion b x d
        ≡ (err y, e)
      → IsUndone a e
  cleanup-err none x y a d e same p h = cleaned-err (ok tt, d) a e x y (λ _. p) h
  cleanup-err (some z) x y a d e same p h = cleaned-err _ a e x y (λ yes. absurd (cc (same yes))) h

  staged-err :
      (found : Inspection) (r : Result (Unit {0}) × Db) (a e : Db) (y : Error)
      → SameElse a r.1
      → staged s disk ident now u upload_id path id token staging_path bucket staging commit
          staged_deletion final_deletion found r
        ≡ (err y, e)
      → IsUndone a e
  staged-err found (ok _, d) a e y p h =
      let q =
        prepare_staged_upload-failure s ident now u upload_id path ticket found true none commit
          staged_deletion final_deletion disk bucket d e y h in
      (q.1, λ _. SameElse-trans a d e p q.0)
  staged-err found (err x, d) a e y p h = cleanup-err staged_deletion x y a d e (λ yes. yes) p h

  inspected-err :
      (r : Result Inspection) (a d e : Db) (y : Error)
      → SameElse a d
      → inspected s disk ident now u upload_id path id token staging_path bucket staging commit
          staged_deletion final_deletion r d
        ≡ (err y, e)
      → IsUndone a e
  inspected-err (ok found) a d e y p h =
      staged-err found _ a e y
        (SameElse-trans a d _ p (
          transaction-SameElse _ d
            (resize-SameElse s disk now u ticket found.byte_size "staging" (some staging_path) d)))
        h
  inspected-err (err x) a d e y p h = cleanup-err staged_deletion x y a d e (λ yes. yes) p h

  begun-err :
      (r : Result Ticket × Db) (a e : Db) (y : Error)
      → SameElse a r.1
      → ((x : Error) → r.0 ≡ err x → r.1 ≡ a)
      → lookup id a.storage_reservations ≡ none
      → begun s disk ident now u upload_id path id token staging_path bucket staging commit
          staged_deletion final_deletion r
        ≡ (err y, e)
      → IsUndone a e
  begun-err (ok _, d) a e y p kept free h = inspected-err staging a d e y p h
  begun-err (err x, d) a e y p kept free h =
      subst (IsUndone a) (sym (kept x refl) ∙ ap (λ z. z.1) h)
        (λ _ _. unmatched id _ a free, λ _. refl)

  reserve-SameElse :
      (d : Db)
      → Ensures
          (reserve_storage_bytes s disk now id token u s.max_upload_bytes "staging"
            (some staging_path))
          d
          (λ _ e. SameElse d e)
  reserve-SameElse d =
      Ensures-weaken _ _ _ d
        (reserve-IsReserved s disk now id token u s.max_upload_bytes "staging" (some staging_path)
          d)
        λ _ e p. subst (SameElse d) (sym p.1.3) refl

  permitted-err :
      (r : Result (Unit {0}) × Db) (d e : Db) (y : Error)
      → r.1 ≡ d
      → lookup id d.storage_reservations ≡ none
      → permitted s disk ident now u upload_id path id token staging_path bucket staging commit
          staged_deletion final_deletion r
        ≡ (err y, e)
      → IsUndone d e
  permitted-err (ok _, f) d e y same free h =
      subst (λ a. IsUndone a e) same
        (begun-err _ f e y (transaction-SameElse _ f (reserve-SameElse f)) (failed-same _ f)
          (ap (λ (a : Db). lookup id a.storage_reservations) same ∙ free) h)
  permitted-err (err x, f) d e y same free h =
      subst (IsUndone d) (sym same ∙ ap (λ z. z.1) h) (λ _ _. unmatched id _ d free, λ _. refl)

-- If the id drawn for the reservation is not in its table, then an upload that fails anywhere, from the
-- check of the account to the audit of the stored upload, leaves no reservation that its ticket can
-- claim if `storage.delete` raises for neither of its files; and if it does not raise for the staged
-- file, everything is as it was but the counts of the rate limiter and the storage reservations.
pub prepare_upload_stream-failure :
    (s : Settings) (disk : Disk) (ident now u upload_id path id token staging_path : ℕ)
    (bucket : String) (staging : Result Inspection)
    (commit staged_deletion final_deletion : Option Error) (d e : Db) (x : Error)
    → lookup id d.storage_reservations ≡ none
    → prepare_upload_stream s disk ident now u upload_id path id token staging_path bucket staging
        commit staged_deletion final_deletion d
      ≡ (err x, e)
    → (staged_deletion ≡ none
        → final_deletion ≡ none
        → matching id (is_owned u (record { reservation_id = id; owner_token = token })) e ≡ none)
      × (staged_deletion ≡ none → SameElse d e)
unfolding prepare_upload_stream
prepare_upload_stream-failure s disk ident now u upload_id path id token staging_path bucket staging
      commit staged_deletion final_deletion d e x free h =
    permitted-err s disk ident now u upload_id path id token staging_path bucket staging commit
      staged_deletion final_deletion _ d e x
      (transaction-same (require_customer_account u) d (customer-same u d)) free h

-- ===== src/Product/Uploads/Quotas.antt =====
-- The quotas of an account's uploads.
use unrender.Product.Tx.{Error}
use unrender.Base.{
  ℕ, ◌+◌, ◌≤◌, ◌≡◌, refl, subst, ◌∙◌, Bool, false, ◌&&◌, Option, none, some, String, [], ◌∷◌, arith,
  ltb, leb, ◌==◌, if◌then◌else◌,
}
use unrender.Base.Lists.{count_if}
use unrender.Base.Table.{Table, lookup, put, sum-put_new, nat_eq}
use unrender.Product.Settings.{Settings}
use unrender.Product.Schema.{Db, Upload}
use unrender.Product.Tx.Ensures.{
  Ensures, Ensures-pure, Ensures-bind, Ensures-gets_bind, Ensures-modify, Ensures-raise_if,
  Ensures-raise_if_bind, Ensures-or_raise_bind, Ensures-guard_bind, Ensures-read_bind, Ensures-when,
  Ensures-outside_call,
}
use unrender.Product.Admission.Rules.{admit_database_rows-pure, Ensures-insert_unique}
use unrender.Product.Audit.Frame.{Ensures-audit}
use unrender.Product.Storage.Reservations.{Ticket, consume_storage_reservation, delete_reservation}
use unrender.Product.Submission.Capacity.{assert_upload_capacity, user_bytes, is_unattached}
use unrender.Product.Submission.Submitted.{absent}
use unrender.Product.Uploads.{Inspection, add_upload, new_upload, store_upload}

abbrev pub user_uploads : ℕ → Db → ℕ
user_uploads u d = count_if (λ r. r.1.user_id == u) d.uploads

abbrev pub unattached_uploads : ℕ → Db → ℕ
unattached_uploads u d = count_if (λ r. r.1.user_id == u && is_unattached d.jobs r.0) d.uploads

-- An account within its quotas.
pub record IsWithin (s : Settings) (u : ℕ) (d : Db) : Type 0 where
  pub records : user_uploads u d ≤ s.max_upload_records_per_user
  pub unattached : unattached_uploads u d ≤ s.max_unattached_uploads
  pub bytes : user_bytes u d ≤ s.max_user_storage_bytes

count_if-put_new :
    {R : Type 0} (p : ℕ × R → Bool) (k : ℕ) (r : R) (t : Table ℕ R)
    → lookup k t ≡ none
    → count_if p (put k r t) ≡ count_if p t + (if p (k, r) then 1 else 0)
unfolding lookup put
count_if-put_new p k r [] h = omega arith
count_if-put_new p k r ((j, x) ∷ t) h = ground (arith, count_if-put_new p k r t)

-- Two databases with the same files.
abbrev SameFiles : Db → Db → Type 0
SameFiles d e =
    (e.uploads ≡ d.uploads) × (e.jobs ≡ d.jobs) × (e.pending_deletions ≡ d.pending_deletions)

consume-SameFiles :
    (now u : ℕ) (ticket : Ticket) (kind : String) (bytes path : ℕ) (d : Db)
    → Ensures (consume_storage_reservation now u ticket kind bytes path) d (λ _ e. SameFiles d e)
unfolding consume_storage_reservation delete_reservation
consume-SameFiles now u ticket kind bytes path d =
    Ensures-bind _ d (λ _ e. SameFiles d e) _ _
      (Ensures-gets_bind _ d _ _ (
        Ensures-bind _ d (λ _ e. SameFiles d e) _ _
          (Ensures-when _ d _ _ (λ _. Ensures-modify _ d _ (refl, refl, refl))
            λ _. (refl, refl, refl))
          λ _ e p. Ensures-pure _ e _ p))
      λ b e p. Ensures-raise_if _ e _ _ λ _. p

-- What the check on the quotas has found.
abbrev HasRoom : Settings → ℕ → ℕ → Db → Type 0
HasRoom s u n d =
    (leb s.max_unattached_uploads (unattached_uploads u d) ≡ false)
    × (leb s.max_upload_records_per_user (user_uploads u d) ≡ false)
    × (ltb s.max_user_storage_bytes (user_bytes u d + n) ≡ false)

assert_upload_capacity-lem :
    (s : Settings) (u n : ℕ) (credit : Bool) (fixture : Option String) (d : Db)
    → Ensures (assert_upload_capacity s u n credit fixture) d (λ _ e. (e ≡ d) × HasRoom s u n d)
unfolding assert_upload_capacity
assert_upload_capacity-lem s u n credit fixture d = Ensures-gets_bind _ d _ _ (
    Ensures-or_raise_bind _ d _ _ _ λ x _. Ensures-raise_if_bind _ d _ _ _ λ _.
      Ensures-gets_bind _ d _ _ (
        Ensures-gets_bind _ d _ _ (
          Ensures-gets_bind _ d _ _ (
            Ensures-gets_bind _ d _ _ (
              Ensures-raise_if_bind _ d _ _ _ λ _. Ensures-raise_if_bind _ d _ _ _ λ unattached.
                Ensures-raise_if_bind _ d _ _ _ λ records.
                  Ensures-raise_if _ d _ _ λ bytes. (refl, (unattached, records, bytes)))))))

user_bytes-add :
    (u k : ℕ) (r : Upload) (d : Db)
    → lookup k d.uploads ≡ none
    → r.user_id ≡ u
    → user_bytes u (add_upload k r d) ≡ user_bytes u d + r.byte_size
unfolding user_bytes
user_bytes-add u k r d free own =
    let moved = sum-put_new (λ i x. if x.user_id == u then x.byte_size else 0) k r d.uploads free in
    ground (arith, moved, own)

module _ (s : Settings) (u n : ℕ) (d : Db) where
  -- One more upload fits if the check has passed.
  add-IsWithin :
      (k : ℕ) (r : Upload)
      → HasRoom s u n d
      → lookup k d.uploads ≡ none
      → r.user_id ≡ u
      → r.byte_size ≡ n
      → IsWithin s u (add_upload k r d)
  add-IsWithin k r room free own size = record {
    records = ground (arith, count_if-put_new (λ x. x.1.user_id == u) k r d.uploads free, room.1);
    unattached = ground (
      arith,
      count_if-put_new (λ x. x.1.user_id == u && is_unattached d.jobs x.0) k r d.uploads free,
      room.0,
    );
    bytes = ground (arith, user_bytes-add u k r d free own, room.2, size);
  }

SameFiles-IsWithin :
    (s : Settings) (u : ℕ) (d e : Db) → SameFiles d e → IsWithin s u d → IsWithin s u e
unfolding user_bytes
SameFiles-IsWithin s u d e same h = record {
  records = rw same.0 h.records;
  unattached = rw (same.0, same.1) h.unattached;
  bytes = rw (same.0, same.1, same.2) h.bytes;
}

SameFiles-trans : (a b c : Db) → SameFiles a b → SameFiles b c → SameFiles a c
SameFiles-trans a b c p q = (q.0 ∙ p.0, q.1 ∙ p.1, q.2 ∙ p.2)

module _ (s : Settings) (ident now u k path : ℕ) (ticket : Ticket) (found : Inspection)
    (credit : Bool) (fixture : Option String) (commit : Option Error) (d : Db) where
  -- A stored upload: a new row in an account that is within its quotas.
  abbrev pub IsStored : Db → Type 0
  IsStored e =
      (lookup k d.uploads ≡ none)
      × SameFiles
          (add_upload k (new_upload s ident now u k path ticket found credit fixture commit) d) e
      × IsWithin s u e

  pub store_upload-IsStored :
      Ensures
        (store_upload s ident now u k path ticket found credit fixture commit)
        d
        (λ _ e. IsStored e)
  unfolding store_upload
  store_upload-IsStored =
      let r : Upload = new_upload s ident now u k path ticket found credit fixture commit in
      Ensures-guard_bind _ d _ _ (admit_database_rows-pure s (some u) 1 false 0 d) λ _.
        Ensures-read_bind _ d (λ _. HasRoom s u found.byte_size d) _ _
          (assert_upload_capacity-lem s u found.byte_size credit fixture d)
          λ _ room. Ensures-outside_call _ d commit _ (
            Ensures-bind _ d (λ _ e. (lookup k d.uploads ≡ none) × (e ≡ add_upload k r d)) _ _
              (Ensures-insert_unique s _ d _ _ _ _ _ _ λ free. (absent _ free, refl))
              λ _ a p.
                Ensures-bind _ a (λ _ b. SameFiles a b) _ _
                  (consume-SameFiles now u ticket "upload" found.byte_size path a)
                  λ _ b q. Ensures-audit s _ ident now (some u) none "upload_prepared" b λ l.
                    let same : SameFiles (add_upload k r d) b = subst (λ x. SameFiles x b) p.1 q in
                    (
                      p.0,
                      same,
                      SameFiles-IsWithin s u _ _ same
                          (add-IsWithin s u found.byte_size d k r room p.0 refl refl),
                    ))

-- ===== src/Product/Review/Stored.antt =====
-- What a correction and an approval leave in the database, and what they return.

use unrender.Base.{
  ℕ, ◌+◌, ◌≡◌, refl, sym, subst, ap, ◌∙◌, Bool, true, false, not, ◌||◌, Option, none, some, String,
  arith, ◌==◌,
}
use unrender.Base.Table.{Table, lookup, put, lookup-put_self, nat_eq}
use unrender.Product.Settings.{Settings}
use unrender.Product.Schema.{
  Db, Job, Version, version_key_eq, is_status, review, approved, VersionKey,
}
use unrender.Product.Tx.{pure, ◌>>=◌}
use unrender.Product.Tx.Ensures.{
  Ensures, Ensures-pure, Ensures-bind, Ensures-gets_bind, Ensures-raise_if_bind, Ensures-or_raise,
  Ensures-or_raise_bind, Ensures-read_bind, Ensures-guard_bind, Ensures-weaken,
}
use unrender.Product.Admission.Rules.{Ensures-insert_unique}
use unrender.Product.Audit.{audit}
use unrender.Product.Tx.{◌>>◌}
use unrender.Product.Audit.Frame.{Ensures-audit}
use unrender.Product.Storage.{Disk, next_result_version, latest_version}
use unrender.Product.Storage.Rules.{assert_retained_byte_capacity-pure}
use unrender.Product.Jobs.Statements.{Ensures-update_sure, update_job}
use unrender.Product.Jobs.Requests.{owned_job}
use unrender.Product.Jobs.Owned.{IsOwned, owned_job-row}
use unrender.Product.Review.Snapshot.{
  Receipt, Codec, Snapshot, snapshot_of, review_snapshot, latest_row, assert_review_revision,
  conflicts,
}
use unrender.Product.Review.Corrections.{
  version_key, is_taken, receipt_text, corrected, receipt_or_latest, insert_correction, correction,
  store_correction, reviewed_row,
}

pub next_result_version-latest :
    (s : Settings) (u k encoded receipt : ℕ) (attempt : Option ℕ) (d : Db)
    → Ensures
        (next_result_version s u k encoded receipt attempt)
        d
        (λ n e. (e ≡ d) × (n ≡ latest_version u k d.versions + 1))
unfolding next_result_version
next_result_version-latest s u k encoded receipt attempt d = Ensures-raise_if_bind _ d _ _ _ λ _.
    Ensures-raise_if_bind _ d _ _ _ λ _. Ensures-gets_bind _ d _ _ (
      Ensures-raise_if_bind _ d _ _ _ λ _. Ensures-gets_bind _ d _ _ (
        Ensures-gets_bind _ d _ _ (
          Ensures-gets_bind _ d _ _ (
            Ensures-raise_if_bind _ d _ _ _
              λ _. Ensures-gets_bind _ d _ _ (Ensures-pure _ d _ (refl, refl))))))

pub review_snapshot-seen :
    (c : Codec) (k : ℕ) (row : Job) (d : Db)
    → Ensures
        (review_snapshot c k row)
        d
        (λ snap e. (e ≡ d) × (snapshot_of c k row d.versions ≡ some snap))
unfolding review_snapshot
review_snapshot-seen c k row d =
    Ensures-gets_bind _ d _ _ (Ensures-or_raise _ d _ _ λ snap p. (refl, p))

-- The row of a request and the view of its result, whose revision is the expected one.
pub record IsReviewed (c : Codec) (u k : ℕ) (expected : String) (d : Db) (row : Job) : Type 0 where
  pub owned : IsOwned u k d row
  pub snapshot : Snapshot
  pub seen : snapshot_of c k row d.versions ≡ some snapshot
  pub agrees : conflicts expected snapshot.reviewed ≡ false

module _ (c : Codec) (u k : ℕ) (expected : String) (d : Db) where
  pub reviewed_row-IsReviewed :
      Ensures (reviewed_row c u k expected) d (λ row e. (e ≡ d) × IsReviewed c u k expected d row)
  unfolding reviewed_row assert_review_revision
  reviewed_row-IsReviewed = Ensures-read_bind _ d (IsOwned u k d) _ _ (owned_job-row u k d) λ row p.
      Ensures-read_bind _ d _ _ _ (review_snapshot-seen c k row d) λ snap q.
        Ensures-raise_if_bind _ d _ _ _ λ r.
          Ensures-pure _ d row (refl, record { owned = p; snapshot = snap; seen = q; agrees = r })

-- The accounts, the ledger and the provider calls are the same.
abbrev pub SameBooks : Db → Db → Type 0
SameBooks d e = (e.users ≡ d.users) × (e.ledger ≡ d.ledger) × (e.attempts ≡ d.attempts)

pub SameBooks-trans : (a b c : Db) → SameBooks a b → SameBooks b c → SameBooks a c
SameBooks-trans a b c p q = (q.0 ∙ p.0, q.1 ∙ p.1, q.2 ∙ p.2)

books_of :
    (d : Db) (v : Table VersionKey Version) (e : Db) → e ≡ record d { versions = v } → SameBooks d e
books_of d v e p =
    (ap (λ (x : Db). x.users) p, ap (λ (x : Db). x.ledger) p, ap (λ (x : Db). x.attempts) p)

not-false : (b : Bool) → not b ≡ false → b ≡ true
not-false true h = refl
not-false false h = absurd (cc)

-- The receipt of a correction is the given one, or that of the latest version.
abbrev pub Taken : ℕ → ℕ → Db → String → Option String → Type 0
Taken u k d receipt_json none =
    (r : ℕ × Version) × (latest_row u k d.versions ≡ some r)
    × (r.1.extraction_receipt_json ≡ receipt_json)
Taken u k d receipt_json (some text) = text ≡ receipt_json

-- A correction adds one version with the next number, and shows it on the job.
pub record IsStored (c : Codec) (version_id now u k : ℕ) (row : Job) (encoded : String)
    (given_receipt : Option String) (d : Db) (snap : Snapshot) (e : Db) : Type 0 where
  pub receipt_json : String
  pub receipt : Receipt
  pub taken : Taken u k d receipt_json given_receipt
  pub fresh : lookup (version_key k (latest_version u k d.versions + 1)) d.versions ≡ none
  pub versions :
      e.versions
      ≡ put
          (version_key k (latest_version u k d.versions + 1))
          (correction version_id now u encoded receipt_json)
          d.versions
  pub jobs : e.jobs ≡ put k (corrected now encoded receipt row) d.jobs
  pub seen : snapshot_of c k (corrected now encoded receipt row) e.versions ≡ some snap
  pub editable : (is_status row.status review || is_status row.status approved) ≡ true
  pub books : SameBooks d e

receipt_text-some :
    (o : Option (ℕ × Version)) (text : String)
    → receipt_text o ≡ some text
    → (r : ℕ × Version) × (o ≡ some r) × (r.1.extraction_receipt_json ≡ text)
receipt_text-some none text h = absurd (cc)
receipt_text-some (some r) text h = (r, refl, cc)

receipt_or_latest-Taken :
    (u k : ℕ) (given_receipt : Option String) (d : Db)
    → Ensures
        (receipt_or_latest u k given_receipt)
        d
        (λ text e. (e ≡ d) × Taken u k d text given_receipt)
unfolding receipt_or_latest
receipt_or_latest-Taken u k none d = Ensures-gets_bind _ d _ _ (
    Ensures-or_raise _ d _ _ λ text p. (refl, receipt_text-some (latest_row u k d.versions) text p))
receipt_or_latest-Taken u k (some text) d = Ensures-pure _ d text (refl, refl)

found-absent : (o : Option Version) → is_taken o ≡ false → o ≡ none
found-absent none h = refl
found-absent (some v) h = absurd (cc)

module _ (s : Settings) (u k n : ℕ) (v : Version) (d : Db) where
  insert_correction-lem : Ensures (insert_correction s u k n v) d (λ _ e.
      (lookup (version_key k n) d.versions ≡ none)
      × (e ≡ record d { versions = put (version_key k n) v d.versions }))
  unfolding insert_correction
  insert_correction-lem =
      Ensures-insert_unique s _ d _ _ _ _ _ _ λ free. (found-absent _ free, refl)

module _ (c : Codec) (s : Settings) (disk : Disk) (ident version_id now k : ℕ) (d : Db) where
  -- the row that an UPDATE has just written, read again
  reread-lem :
      (u : ℕ) (row : Job) (e : Db)
      → e.jobs ≡ put k row d.jobs
      → Ensures (owned_job u k) e (λ j f. (f ≡ e) × (j ≡ row))
  reread-lem u row e p =
      Ensures-weaken _ _ _ e (owned_job-row u k e)
        λ j f q. (q.0, cc (q.1.0, ap (lookup k) p, lookup-put_self k row d.jobs))

  -- the end of a correction and of an approval: the view that is returned is that of the new row
  pub view-lem :
      (u : ℕ) (row : Job) (event_type : String) (e : Db)
      → e.jobs ≡ put k row d.jobs
      → Ensures
          (do
            current ← owned_job u k
            snapshot ← review_snapshot c k current
            audit s ident now (some u) (some k) event_type
            pure snapshot)
          e
          (λ snap f.
            (f.jobs ≡ e.jobs)
            × (f.versions ≡ e.versions)
            × (snapshot_of c k row e.versions ≡ some snap)
            × SameBooks e f)
  view-lem u row event_type e p = Ensures-read_bind _ e _ _ _ (reread-lem u row e p) λ j q.
      Ensures-read_bind _ e _ _ _ (review_snapshot-seen c k j e) λ snap r.
        Ensures-bind _ e _ _ _
          (Ensures-audit s (λ f. (f.jobs ≡ e.jobs) × (f.versions ≡ e.versions) × SameBooks e f)
            ident now (some u) (some k) event_type e (λ l. (refl, refl, (refl, refl, refl))))
          λ _ f t.
            Ensures-pure _ f snap
              (t.0, t.1, subst (λ x. snapshot_of c k x e.versions ≡ some snap) q r, t.2)

  module _ (row : Job) (encoded : String) (given_receipt : Option String) (text : String)
      (receipt : Receipt) where
    corrected-IsStored :
        (e : Db)
        → lookup k d.jobs ≡ some row
        → Taken row.user_id k d text given_receipt
        → lookup (version_key k (latest_version row.user_id k d.versions + 1)) d.versions ≡ none
        → (is_status row.status review || is_status row.status approved) ≡ true
        → SameBooks d e
        → e.jobs ≡ d.jobs
        → e.versions
          ≡ put
              (version_key k (latest_version row.user_id k d.versions + 1))
              (correction version_id now row.user_id encoded text)
              d.versions
        → Ensures
            (do
              update_job k (λ j. j.user_id == row.user_id) (corrected now encoded receipt)
              current ← owned_job row.user_id k
              snapshot ← review_snapshot c k current
              audit s ident now (some row.user_id) (some k) "result_corrected"
              pure snapshot)
            e
            (λ snap f. IsStored c version_id now row.user_id k row encoded given_receipt d snap f)
    corrected-IsStored e found taken free editable books jobs versions =
        Ensures-bind _ e
          (λ _ f.
            (f.jobs ≡ put k (corrected now encoded receipt row) d.jobs)
            × (f.versions ≡ e.versions)
            × SameBooks e f)
          _ _
          (Ensures-update_sure _ e k _ _ row (ap (lookup k) jobs ∙ found) (ground arith)
            (ap (put k (corrected now encoded receipt row)) jobs, refl, (refl, refl, refl)))
          λ _ f q.
            Ensures-weaken _ _ _ f
              (view-lem row.user_id (corrected now encoded receipt row) "result_corrected" f q.0)
              λ snap g r. record {
                receipt_json = text;
                receipt = receipt;
                taken = taken;
                fresh = free;
                versions = r.1 ∙ q.1 ∙ versions;
                jobs = r.0 ∙ q.0;
                seen =
                    subst (λ v. snapshot_of c k (corrected now encoded receipt row) v ≡ some snap)
                      (sym r.1) r.2;
                editable = editable;
                books = SameBooks-trans d f g (SameBooks-trans d e f books q.2) r.3;
              }

  pub store_correction-IsStored :
      (row : Job) (encoded : String) (given_receipt : Option String)
      → lookup k d.jobs ≡ some row
      → Ensures
          (store_correction c s disk ident version_id now k row encoded given_receipt)
          d
          (λ snap e. IsStored c version_id now row.user_id k row encoded given_receipt d snap e)
  unfolding store_correction
  store_correction-IsStored row encoded given_receipt found =
      Ensures-raise_if_bind _ d _ _ _ λ closed.
        Ensures-read_bind _ d _ _ _ (receipt_or_latest-Taken row.user_id k given_receipt d)
          λ text taken. Ensures-or_raise_bind _ d _ _ _ λ receipt parsed.
            Ensures-read_bind _ d _ _ _ (next_result_version-latest s row.user_id k _ _ none d)
              λ n next.
                Ensures-guard_bind _ d _ _ (assert_retained_byte_capacity-pure s disk d _) λ _.
                  Ensures-bind _ d _ _ _
                    (insert_correction-lem s row.user_id k n
                      (correction version_id now row.user_id encoded text) d)
                    λ _ e stored.
                      corrected-IsStored row encoded given_receipt text receipt e found taken
                        (subst (λ m. lookup (version_key k m) d.versions ≡ none) next stored.0)
                        (not-false _ closed) (books_of d _ e stored.1) (cc (stored.1))
                        (cc (stored.1, next))

-- ===== src/Product/Review/Reads.antt =====
-- What the reads of a review return, and what the revision of a view depends on.
use unrender.Base.{
  ℕ, ◌≡◌, refl, sym, subst, Bool, true, false, Option, none, some, String, arith, ◌==◌,
  if◌then◌else◌,
}
use unrender.Base.Table.{lookup, nat_eq}
use text.Mathlib.TextEquality.{eq_iff}
use unrender.Product.Schema.{Db, Job, Version, version_key_eq}
use unrender.Product.Tx.{ok, err, Result, ◌>>=◌, result_conflict}
use unrender.Product.Jobs.Statements.{row_if}
use unrender.Product.Jobs.Requests.{owned_job}
use unrender.Product.Review.Snapshot.{
  Codec, Reviewed, Snapshot, revision_of, snapshot_of, snapshot_of_text, snapshot_of_version,
  latest_row, review_snapshot, get_job, conflicts, assert_review_revision,
}
use unrender.Product.Review.Corrections.{reviewed_row}

row_found :
    (u : ℕ) (o : Option Job) (row : Job)
    → o ≡ some row
    → row.user_id ≡ u
    → row_if (λ j. j.user_id == u) o ≡ some row
row_found u o row p h =
    subst (λ (x : Option Job). row_if (λ j. j.user_id == u) x ≡ some row) (sym p) (ground arith)

-- Reads of a row and of its view, at a database where they are known.
pub owned_job-run :
    (u k : ℕ) (d : Db) (row : Job)
    → lookup k d.jobs ≡ some row
    → row.user_id ≡ u
    → owned_job u k d ≡ ok (row, d)
unfolding owned_job ◌>>=◌
owned_job-run u k d row p h = rw (row_found u (lookup k d.jobs) row p h)

pub review_snapshot-run :
    (c : Codec) (k : ℕ) (row : Job) (snap : Snapshot) (d : Db)
    → snapshot_of c k row d.versions ≡ some snap
    → review_snapshot c k row d ≡ ok (snap, d)
unfolding review_snapshot ◌>>=◌
review_snapshot-run c k row snap d h = rw h

module _ (c : Codec) (u k : ℕ) (expected : String) (d : Db) (row : Job) (snap : Snapshot) where
  pub get_job-run :
      lookup k d.jobs ≡ some row
      → row.user_id ≡ u
      → snapshot_of c k row d.versions ≡ some snap
      → get_job c u k d ≡ ok (snap, d)
  unfolding get_job ◌>>=◌
  get_job-run p h q = rw (owned_job-run u k d row p h, review_snapshot-run c k row snap d q)

  pub reviewed_row-run :
      (b : Bool)
      → lookup k d.jobs ≡ some row
      → row.user_id ≡ u
      → snapshot_of c k row d.versions ≡ some snap
      → conflicts expected snap.reviewed ≡ b
      → reviewed_row c u k expected d
        ≡ if◌then◌else◌ {A = Result (Job × Db)} b (err result_conflict) (ok (row, d))
  unfolding reviewed_row assert_review_revision ◌>>=◌
  reviewed_row-run true p h q r =
      rw (owned_job-run u k d row p h, review_snapshot-run c k row snap d q, r)
  reviewed_row-run false p h q r =
      rw (owned_job-run u k d row p h, review_snapshot-run c k row snap d q, r)

-- The revision of a view is that of the latest version and of the row.
module _ (c : Codec) (k : ℕ) (row : Job) (snap : Snapshot) (rv : Reviewed)
    (shown : snap.reviewed ≡ some rv) where
  version-revision :
      (text : String) (o : Option (ℕ × Version))
      → snapshot_of_version c k row text o ≡ some snap
      → (r : ℕ × Version) × (o ≡ some r) × (rv.review_revision ≡ revision_of c k row r.1)
  unfolding snapshot_of_version
  version-revision text none h = absurd (cc)
  version-revision text (some (n, v)) h = ((n, v), refl, ground arith)

  text-revision :
      (o : Option String) (d : Db)
      → snapshot_of_text c k row d.versions o ≡ some snap
      → (r : ℕ × Version) × (latest_row row.user_id k d.versions ≡ some r)
        × (rv.review_revision ≡ revision_of c k row r.1)
  unfolding snapshot_of_text
  text-revision none d h = absurd (ground arith)
  text-revision (some text) d h = version-revision text _ h

  pub snapshot-revision :
      (d : Db)
      → snapshot_of c k row d.versions ≡ some snap
      → (r : ℕ × Version) × (latest_row row.user_id k d.versions ≡ some r)
        × (rv.review_revision ≡ revision_of c k row r.1)
  unfolding snapshot_of
  snapshot-revision d h = text-revision _ d h

-- A revision is accepted only if it is that of the view.
pub agrees-revision :
    (expected : String) (o : Option Reviewed)
    → conflicts expected o ≡ false
    → (rv : Reviewed) × (o ≡ some rv) × (rv.review_revision ≡ expected)
agrees-revision expected none h = absurd (cc)
agrees-revision expected (some rv) h =
    (rv, refl, ground (arith, eq_iff rv.review_revision expected))

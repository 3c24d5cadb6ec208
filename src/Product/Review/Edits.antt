-- ===== src/Product/Review/Edits.antt =====
-- The three transactions that edit a result, and what each leaves behind.
use unrender.Base.{
  ℕ, ◌+◌, ◌≡◌, ◌≢◌, ◌⊎◌, inl, inr, refl, sym, subst, ◌∙◌, Bool, true, false, not, ◌||◌, ◌&&◌,
  Option, none, some, String, arith, ==_iff,
}
use unrender.Base.Table.{lookup, put, nat_eq}
use unrender.Product.Settings.{Settings}
use unrender.Product.Schema.{Db, Job, Version, version_key_eq, is_status, review, approved, Status}
use unrender.Product.Tx.{Tx}
use unrender.Product.Tx.Ensures.{
  Ensures, Ensures-bind, Ensures-gets_bind, Ensures-raise_if_bind, Ensures-or_raise_bind,
  Ensures-read_bind, Ensures-weaken,
}
use unrender.Product.Storage.{Disk, latest_version}
use unrender.Product.Jobs.Statements.{Ensures-update_sure}
use unrender.Product.Soundness.Invariant.{IsConsistent}
use unrender.Product.Soundness.Rows.{KeepsAttempt}
use unrender.Product.Review.Snapshot.{Receipt, Codec, Snapshot, snapshot_of}
use unrender.Product.Review.Corrections.{
  version_key, corrected, approved_row, save_correction, restore_version, approve, store_approval,
  store_correction,
}
use unrender.Product.Review.Stored.{
  IsReviewed, reviewed_row-IsReviewed, IsStored, store_correction-IsStored, view-lem, SameBooks,
  SameBooks-trans,
}

pub data Edit : Type 0 where
  save : String → Edit
  restore : ℕ → Edit
  approval : Edit

module _ (c : Codec) (s : Settings) (disk : Disk) (ident version_id now u k : ℕ)
    (expected : String) where
  -- A save of a valid table, a restore or an approval, by a customer who saw `expected`.
  unfoldable pub perform_edit : Edit → Tx Snapshot
  perform_edit (Edit.save encoded) =
      save_correction c s disk ident version_id now u k (some encoded) expected
  perform_edit (Edit.restore n) = restore_version c s disk ident version_id now u k n expected
  perform_edit Edit.approval = approve c s disk ident version_id now u k expected

-- A new version with the next number and a fresh id.
pub record IsAdded (version_id u k : ℕ) (d : Db) (v : Version) (e : Db) : Type 0 where
  pub id : v.id ≡ version_id
  pub owner : v.user_id ≡ u
  pub fresh : lookup (version_key k (latest_version u k d.versions + 1)) d.versions ≡ none
  pub versions : e.versions ≡ put (version_key k (latest_version u k d.versions + 1)) v d.versions

pub record IsApproved (row row' : Job) (d e : Db) : Type 0 where
  pub before : row.status ≡ review
  pub after : row'.status ≡ approved
  pub versions : e.versions ≡ d.versions

-- What a successful edit leaves: the row that the customer has seen is replaced, the view that is
-- returned is that of the new row, and either a version was added or the result approved.
pub record IsEdited (c : Codec) (version_id u k : ℕ) (expected : String) (edit : Edit) (d : Db)
    (snap : Snapshot) (e : Db) : Type 0 where
  pub row : Job
  pub row' : Job
  pub reviewed : IsReviewed c u k expected d row
  pub owner : row'.user_id ≡ u
  pub jobs : e.jobs ≡ put k row' d.jobs
  pub seen : snapshot_of c k row' e.versions ≡ some snap
  pub books : SameBooks d e
  pub keeps : IsConsistent row → KeepsAttempt row row'
  pub draft : edit ≢ Edit.approval → row'.status ≡ review
  pub change : ((v : Version) × IsAdded version_id u k d v e) ⊎ IsApproved row row' d e

corrected-KeepsAttempt :
    (now : ℕ) (encoded : String) (receipt : Receipt) (j : Job)
    → (is_status j.status review || is_status j.status approved) ≡ true
    → IsConsistent j
    → KeepsAttempt j (corrected now encoded receipt j)
unfolding corrected
corrected-KeepsAttempt now encoded receipt j h ok = ground arith

approved-KeepsAttempt :
    (now : ℕ) (j : Job) → j.status ≡ review → IsConsistent j → KeepsAttempt j (approved_row now j)
unfolding approved_row
approved-KeepsAttempt now j h ok = ground arith

review-only : (x : Status) → is_status x review ≡ true → x ≡ review
review-only x h = ground (arith, h)

and-left : (a b : Bool) → not (a && b) ≡ false → a ≡ true
and-left true b h = refl
and-left false b h = absurd (cc)

module _ (c : Codec) (s : Settings) (disk : Disk) (ident version_id now u k : ℕ) (expected : String)
    (d : Db) where
  owner-eq : (row : Job) → IsReviewed c u k expected d row → row.user_id ≡ u
  owner-eq row p = (==_iff row.user_id u).0 p.owned.1

  stored-IsEdited :
      (edit : Edit) (row : Job) (encoded : String) (given_receipt : Option String) (snap : Snapshot)
      (e : Db)
      → IsReviewed c u k expected d row
      → IsStored c version_id now row.user_id k row encoded given_receipt d snap e
      → IsEdited c version_id u k expected edit d snap e
  unfolding corrected
  stored-IsEdited edit row encoded given_receipt snap e p q =
      let same = owner-eq row p in
      let stored =
        subst (λ w. IsStored c version_id now w k row encoded given_receipt d snap e) same q in
      record {
        row = row;
        row' = corrected now encoded stored.receipt row;
        reviewed = p;
        owner = same;
        jobs = stored.jobs;
        seen = stored.seen;
        books = stored.books;
        keeps = corrected-KeepsAttempt now encoded stored.receipt row stored.editable;
        draft = λ _. refl;
        change = inl (
          _,
          record { id = refl; owner = refl; fresh = stored.fresh; versions = stored.versions },
        );
      }

  correction-IsEdited :
      (edit : Edit) (row : Job) (encoded : String) (given_receipt : Option String)
      → IsReviewed c u k expected d row
      → Ensures
          (store_correction c s disk ident version_id now k row encoded given_receipt)
          d
          (λ snap e. IsEdited c version_id u k expected edit d snap e)
  correction-IsEdited edit row encoded given_receipt p =
      Ensures-weaken _ _ _ d
        (store_correction-IsStored c s disk ident version_id now k d row encoded given_receipt
          p.owned.0)
        λ snap e q. stored-IsEdited edit row encoded given_receipt snap e p q

  approval-IsEdited :
      (row : Job)
      → IsReviewed c u k expected d row
      → row.status ≡ review
      → Ensures
          (store_approval c s disk ident version_id now u k)
          d
          (λ snap e. IsEdited c version_id u k expected Edit.approval d snap e)
  unfolding store_approval approved_row
  approval-IsEdited row p draft =
      Ensures-bind _ d
        (λ _ f.
          (f.jobs ≡ put k (approved_row now row) d.jobs)
          × (f.versions ≡ d.versions)
          × SameBooks d f)
        _ _ (Ensures-update_sure _ d k _ _ row p.owned.0 p.owned.1 (refl, refl, (refl, refl, refl)))
        λ _ f q.
          Ensures-weaken _ _ _ f
            (view-lem c s disk ident version_id now k d u (approved_row now row) "result_approved" f
              q.0)
            λ snap e r. record {
              row = row;
              row' = approved_row now row;
              reviewed = p;
              owner = owner-eq row p;
              jobs = r.0 ∙ q.0;
              seen =
                  subst (λ v. snapshot_of c k (approved_row now row) v ≡ some snap) (sym r.1) r.2;
              books = SameBooks-trans d f e q.2 r.3;
              keeps = approved-KeepsAttempt now row draft;
              draft = λ other. absurd (other refl);
              change = inr record { before = draft; after = refl; versions = r.1 ∙ q.1 };
            }

  pub perform_edit-IsEdited :
      (edit : Edit)
      → Ensures
          (perform_edit c s disk ident version_id now u k expected edit)
          d
          (λ snap e. IsEdited c version_id u k expected edit d snap e)
  unfolding perform_edit save_correction restore_version approve
  perform_edit-IsEdited (Edit.save encoded) = Ensures-or_raise_bind _ d _ _ _ λ text given_text.
      Ensures-read_bind _ d _ _ _ (reviewed_row-IsReviewed c u k expected d)
        λ row p. correction-IsEdited (Edit.save encoded) row text none p
  perform_edit-IsEdited (Edit.restore n) =
      Ensures-read_bind _ d _ _ _ (reviewed_row-IsReviewed c u k expected d) λ row p.
        Ensures-gets_bind _ d _ _ (
          Ensures-or_raise_bind _ d _ _ _ λ saved found.
            correction-IsEdited (Edit.restore n) row saved.chart_json
              (some saved.extraction_receipt_json) p)
  perform_edit-IsEdited Edit.approval =
      Ensures-read_bind _ d _ _ _ (reviewed_row-IsReviewed c u k expected d) λ row p.
        Ensures-raise_if_bind _ d _ _ _
          λ approvable. approval-IsEdited row p (review-only row.status (and-left _ _ approvable))

-- ===== src/Product/Review/Approval.antt =====
-- Save and approve: the revision that a correction returns is accepted by the approval.
use unrender.Base.{
  ℕ, ◌≡◌, ◌≢◌, inl, inr, refl, sym, ap, ◌∙◌, true, false, Option, none, some, String, arith, ◌==◌,
  Option-cases,
}
use text.Mathlib.TextEquality.{eq_iff}
use unrender.Base.Table.{Table, lookup, put, lookup-put_self, nat_eq}
use unrender.Product.Settings.{Settings}
use unrender.Product.Schema.{Db, Job, Version, VersionKey, version_key_eq, review}
use unrender.Product.Tx.{Error, ok, err, ◌>>=◌, ◌>>◌, pure}
use unrender.Product.Tx.Raises.{Raises-bind, Raises-pure, Raises-of_run}
use unrender.Product.Tx.Ensures.{Ensures-of_run, Ensures-bind, Ensures-pure}
use unrender.Product.Audit.{audit}
use unrender.Product.Audit.Frame.{Ensures-audit}
use unrender.Product.Audit.Capacity.{audit-Raises}
use unrender.Product.Admission.Capacity.{IsFull}
use unrender.Product.Storage.{Disk}
use unrender.Product.Jobs.Statements.{update_job-matched}
use unrender.Product.Review.Snapshot.{
  Codec, Reviewed, Snapshot, snapshot_of, snapshot_of_text, snapshot_of_version, result_text,
  conflicts, isascii, reviewed_of,
}
use unrender.Product.Review.Corrections.{approve, store_approval, approved_row, is_approvable}
use unrender.Product.Review.Conflicts.{edit-IsEdited, found}
use unrender.Product.Review.Edits.{Edit, perform_edit}
use unrender.Product.Review.Reads.{
  snapshot-revision, owned_job-run, review_snapshot-run, reviewed_row-run,
}

-- SHA-256 in hexadecimal digits is a nonempty ASCII text.
abbrev pub IsHex : Codec → Type 0
IsHex c = (text : String) → (isascii (c.sha256 text) ≡ true) × (c.sha256 text ≢ "")

module _ (c : Codec) (s : Settings) (disk : Disk) (ident version_id now u k : ℕ) (d : Db)
    (row : Job) (found : lookup k d.jobs ≡ some row) (owner : row.user_id ≡ u) where
  updated : Db
  updated = record d { jobs = put k (approved_row now row) d.jobs }

  approved-run :
      (snap : Snapshot)
      → snapshot_of c k (approved_row now row) d.versions ≡ some snap
      → store_approval c s disk ident version_id now u k d
        ≡ (audit s ident now (some u) (some k) "result_approved" >> pure snap) updated
  unfolding store_approval updated ◌>>=◌ approved_row
  approved-run snap h = rw (
    update_job-matched k (λ j. j.user_id == u) (approved_row now) d row found (ground arith),
    owned_job-run u k updated (approved_row now row)
        (lookup-put_self k (approved_row now row) d.jobs) owner,
    review_snapshot-run c k (approved_row now row) snap updated h,
  )

hex-agrees :
    (c : Codec) (rv : Reviewed) (text : String)
    → IsHex c
    → rv.review_revision ≡ c.sha256 text
    → conflicts rv.review_revision (some rv) ≡ false
hex-agrees c rv text hex same = ground (
  arith,
  eq_iff rv.review_revision "",
  eq_iff rv.review_revision rv.review_revision,
  hex text,
  same,
  ap isascii same,
)

-- Approval changes neither the text nor the version that a view shows.
module _ (c : Codec) (k now : ℕ) (row : Job) (snap : Snapshot) (rv : Reviewed)
    (shown : snap.reviewed ≡ some rv) where
  version-approved :
      (text : String) (o : Option (ℕ × Version))
      → snapshot_of_version c k row text o ≡ some snap
      → (snap' : Snapshot) × (snapshot_of_version c k (approved_row now row) text o ≡ some snap')
  unfolding snapshot_of_version
  version-approved text none h = absurd (cc)
  version-approved text (some (n, v)) h =
      elim (Option-cases (c.parse_receipt v.extraction_receipt_json)) [
        | inl e ↦ absurd (ground (arith, e))
        | inr (receipt, e) ↦
            (reviewed_of c k (approved_row now row) (n, v) receipt, ground (arith, e))
      ]

  text-approved :
      (o : Option String) (t : Table VersionKey Version)
      → snapshot_of_text c k row t o ≡ some snap
      → (elim o [ none ↦ false | some text ↦ true ] ≡ true)
        × ((snap' : Snapshot) × (snapshot_of_text c k (approved_row now row) t o ≡ some snap'))
  unfolding snapshot_of_text approved_row
  text-approved none t h = absurd (ground arith)
  text-approved (some text) t h = (refl, version-approved text _ h)

  approved-view :
      (d : Db)
      → snapshot_of c k row d.versions ≡ some snap
      → row.status ≡ review
      → (is_approvable row ≡ true)
        × ((snap' : Snapshot) × (snapshot_of c k (approved_row now row) d.versions ≡ some snap'))
  unfolding snapshot_of approved_row
  approved-view d h draft =
      let (present, view) = text-approved (result_text row.current_result_json) d.versions h in
      (ground (arith, present, draft), view)

-- An approval with the revision of the current view of a draft goes through to its audit event.
module _ (c : Codec) (s : Settings) (disk : Disk) (ident version_id now u k : ℕ) (d : Db)
    (row : Job) (snap : Snapshot) (rv : Reviewed) (shown : snap.reviewed ≡ some rv)
    (found : lookup k d.jobs ≡ some row) (owner : row.user_id ≡ u)
    (seen : snapshot_of c k row d.versions ≡ some snap) (draft : row.status ≡ review)
    (hex : IsHex c) where
  approve-run :
      (snap' : Snapshot) × (approve c s disk ident version_id now u k rv.review_revision d
        ≡ (audit s ident now (some u) (some k) "result_approved" >> pure snap')
            (updated c s disk ident version_id now u k d row found owner))
  unfolding approve ◌>>=◌
  approve-run =
      let (approvable, view) = approved-view c k now row snap rv shown d seen draft in
      let (r, rp, rr) = snapshot-revision c k row snap rv shown d seen in
      let agrees = hex-agrees c rv _ hex rr in
      (
        view.0,
        rw
            (
              reviewed_row-run c u k rv.review_revision d row snap false found owner seen
                  (ap (conflicts rv.review_revision) shown ∙ agrees),
              approvable,
            )
            (approved-run c s disk ident version_id now u k d row found owner view.0 view.1),
      )

  approve-errors :
      (x : Error)
      → approve c s disk ident version_id now u k rv.review_revision d ≡ err x
      → IsFull x
  approve-errors x h =
      Raises-of_run IsFull _ _ x
        (Raises-bind _ _ _ (audit-Raises s ident now (some u) (some k) "result_approved")
          λ _. Raises-pure _ approve-run.0)
        (sym approve-run.1 ∙ h)

  approve-jobs :
      (snap' : Snapshot) (e : Db)
      → approve c s disk ident version_id now u k rv.review_revision d ≡ ok (snap', e)
      → e.jobs ≡ put k (approved_row now row) d.jobs
  unfolding updated
  approve-jobs snap' e h =
      Ensures-of_run (λ _ f. f.jobs ≡ put k (approved_row now row) d.jobs) _ _ snap' e
        (Ensures-bind _ _ (λ _ f. f.jobs ≡ put k (approved_row now row) d.jobs) _ _
          (Ensures-audit s _ ident now (some u) (some k) "result_approved" _ (λ l. refl))
          λ _ f p. Ensures-pure _ f _ p)
        (sym approve-run.1 ∙ h)

-- Save and approve. If SHA-256 gives nonempty ASCII texts, and a save or a restore has returned a view with a revision, then
-- on the database that it has committed the owner's approval with that revision is refused only
-- for want of rows for its audit event, and if it is granted the job is the one that was saved,
-- now approved at the time of the approval.
pub save-approve :
    (c : Codec) (s : Settings) (disk disk' : Disk)
    (ident version_id now ident' version_id' now' u k : ℕ) (expected : String) (edit : Edit)
    (d : Db) (snap : Snapshot) (e : Db) (rv : Reviewed)
    → IsHex c
    → edit ≢ Edit.approval
    → perform_edit c s disk ident version_id now u k expected edit d ≡ ok (snap, e)
    → snap.reviewed ≡ some rv
    → ((x : Error)
        → approve c s disk' ident' version_id' now' u k rv.review_revision e ≡ err x
        → IsFull x)
      × ((snap' : Snapshot) (f : Db)
          → approve c s disk' ident' version_id' now' u k rv.review_revision e ≡ ok (snap', f)
          → (row : Job) × (lookup k e.jobs ≡ some row)
            × (lookup k f.jobs ≡ some (approved_row now' row)))
save-approve c s disk disk' ident version_id now ident' version_id' now' u k expected edit d snap e
      rv hex other h shown =
    let edited = edit-IsEdited c s disk ident version_id now u k expected edit d snap e h in
    let here = found c version_id u k expected edit d snap e edited in
    (
      approve-errors c s disk' ident' version_id' now' u k e edited.row' snap rv shown here
          edited.owner edited.seen (edited.draft other) hex,
      λ snap' f q. (
        edited.row',
        here,
        ap (lookup k) (
              approve-jobs c s disk' ident' version_id' now' u k e edited.row' snap rv shown here
                edited.owner edited.seen (edited.draft other) hex snap' f q)
            ∙ lookup-put_self k (approved_row now' edited.row') e.jobs,
      ),
    )

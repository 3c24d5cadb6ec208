-- ===== src/Product/Review/Conflicts.antt =====
-- The revision of a result guards its edits: an edit returns the view that it has committed, the
-- history keeps every version, and a view that is out of date edits nothing.
use unrender.Base.{
  ℕ, ◌+◌, ◌≡◌, ◌≢◌, ◌⊎◌, inl, inr, sym, ap, ◌∙◌, true, some, String, arith, Bool-cases,
}
use unrender.Base.Table.{lookup, lookup-put_self, lookup-put_ne, nat_eq}
use unrender.Product.Settings.{Settings}
use unrender.Product.Schema.{Db, Version, version_key_eq}
use unrender.Product.Tx.{ok, err, ◌>>=◌, result_conflict}
use unrender.Product.Tx.Ensures.{Ensures-of_run}
use unrender.Product.Storage.{Disk, latest_version}
use unrender.Product.Review.Snapshot.{
  Codec, Reviewed, Snapshot, Identity, latest_row, get_job, conflicts,
}
use unrender.Product.Review.Latest.{IsUnused, latest_row-put, latest_row-ne-unused}
use unrender.Product.Review.Corrections.{
  version_key, reviewed_row, save_correction, restore_version, approve,
}
use unrender.Product.Review.Reads.{
  get_job-run, reviewed_row-run, snapshot-revision, agrees-revision,
}
use unrender.Product.Review.Edits.{
  Edit, perform_edit, perform_edit-IsEdited, IsEdited, IsAdded, IsApproved,
}

-- Two views with one revision show the same version and the same status.
abbrev pub NoCollision : Codec → Type 0
NoCollision c =
    (a b : Identity)
    → c.sha256 (c.dump_identity a) ≡ c.sha256 (c.dump_identity b)
    → (a.version_id ≡ b.version_id) × (a.status ≡ b.status)

module _ (c : Codec) (version_id u k : ℕ) (expected : String) (edit : Edit) (d : Db)
    (snap : Snapshot) (e : Db) (edited : IsEdited c version_id u k expected edit d snap e) where
  pub found : lookup k e.jobs ≡ some edited.row'
  found = ap (lookup k) edited.jobs ∙ lookup-put_self k edited.row' d.jobs

  pub edited-view : get_job c u k e ≡ ok (snap, e)
  edited-view = get_job-run c u k expected e edited.row' snap found edited.owner edited.seen

  version-kept :
      (j n : ℕ) (v : Version)
      → lookup (version_key j n) d.versions ≡ some v
      → lookup (version_key j n) e.versions ≡ some v
  version-kept j n v h = kept edited.change
    where
      kept :
          ((w : Version) × IsAdded version_id u k d w e) ⊎ IsApproved edited.row edited.row' d e
          → lookup (version_key j n) e.versions ≡ some v
      kept (inl (w, a)) =
          ap (lookup (version_key j n)) a.versions
          ∙ lookup-put_ne _ (version_key j n) w d.versions
              (λ same. absurd (cc (a.fresh, h, ap (λ x. lookup x d.versions) same)))
          ∙ h
      kept (inr a) = ap (lookup (version_key j n)) a.versions ∙ h

  new_latest :
      (w : Version)
      → IsAdded version_id u k d w e
      → latest_row u k e.versions ≡ some (latest_version u k d.versions + 1, w)
  new_latest w a =
      ap (latest_row u k) a.versions
      ∙ latest_row-put u k _ w d.versions a.fresh a.owner (omega arith)

  module _ (different : NoCollision c) (unused : IsUnused version_id d.versions) where
    different_versions :
        (r r' : ℕ × Version)
        → latest_row edited.row.user_id k d.versions ≡ some r
        → latest_row edited.row'.user_id k e.versions ≡ some r'
        → r.1.id ≡ r'.1.id
        → edited.row.status ≡ edited.row'.status
        → ((v : Version) × IsAdded version_id u k d v e) ⊎ IsApproved edited.row edited.row' d e
        → ⊥
    different_versions r r' p q ids states (inl (w, a)) =
        latest_row-ne-unused edited.row.user_id k version_id r.0 r.1 d.versions unused p
          (cc (ids, a.id, q, edited.owner, new_latest w a))
    different_versions r r' p q ids states (inr a) = cc (states, a.before, a.after)

    different-revision :
        (old new : Reviewed)
        → edited.reviewed.snapshot.reviewed ≡ some old
        → snap.reviewed ≡ some new
        → old.review_revision ≢ new.review_revision
    different-revision old new p q same =
        let (r, rp, rr) =
          snapshot-revision c k edited.row edited.reviewed.snapshot old p d edited.reviewed.seen in
        let (r', rp', rr') = snapshot-revision c k edited.row' snap new q e edited.seen in
        let (ids, states) = different _ _ (sym rr ∙ same ∙ rr') in
        different_versions r r' rp rp' ids states edited.change

    outdated-conflicts : conflicts expected snap.reviewed ≡ true
    outdated-conflicts = elim (Bool-cases (conflicts expected snap.reviewed)) [
      | inl h ↦ h
      | inr h ↦
          let (old, p, r) = agrees-revision expected _ edited.reviewed.agrees in
          let (new, q, t) = agrees-revision expected snap.reviewed h in
          absurd (different-revision old new p q (r ∙ sym t))
    ]

    pub outdated-row : reviewed_row c u k expected e ≡ err result_conflict
    outdated-row =
        reviewed_row-run c u k expected e edited.row' snap true found edited.owner edited.seen
          outdated-conflicts

module _ (c : Codec) (s : Settings) (disk : Disk) (ident version_id now u k : ℕ)
    (expected : String) where
  conflict-stops :
      (edit : Edit) (d : Db)
      → reviewed_row c u k expected d ≡ err result_conflict
      → perform_edit c s disk ident version_id now u k expected edit d ≡ err result_conflict
  unfolding perform_edit save_correction restore_version approve ◌>>=◌
  conflict-stops (Edit.save encoded) d h = rw h
  conflict-stops (Edit.restore n) d h = rw h
  conflict-stops Edit.approval d h = rw h

  pub edit-IsEdited :
      (edit : Edit) (d : Db) (snap : Snapshot) (e : Db)
      → perform_edit c s disk ident version_id now u k expected edit d ≡ ok (snap, e)
      → IsEdited c version_id u k expected edit d snap e
  edit-IsEdited edit d snap e h =
      Ensures-of_run _ d _ snap e
        (perform_edit-IsEdited c s disk ident version_id now u k expected d edit) h

-- The view of a result that a save, a restore or an approval returns is what `get_job` reads from the database that
-- it has committed; and every version that the history held, of this job and of every other, is
-- still there, unchanged.
pub edit-view :
    (c : Codec) (s : Settings) (disk : Disk) (ident version_id now u k : ℕ) (expected : String)
    (edit : Edit) (d : Db) (snap : Snapshot) (e : Db)
    → perform_edit c s disk ident version_id now u k expected edit d ≡ ok (snap, e)
    → (get_job c u k e ≡ ok (snap, e))
      × ((j n : ℕ) (v : Version)
          → lookup (version_key j n) d.versions ≡ some v
          → lookup (version_key j n) e.versions ≡ some v)
edit-view c s disk ident version_id now u k expected edit d snap e h =
    let edited = edit-IsEdited c s disk ident version_id now u k expected edit d snap e h in
    (
      edited-view c version_id u k expected edit d snap e edited,
      version-kept c version_id u k expected edit d snap e edited,
    )

-- If two views with the same revision always show the same version and status, and the version id that an edit is given is
-- not used by any version, then on the database that a successful save, restore or approval leaves,
-- every save, restore or approval of the job with the same expected revision raises
-- result_conflict.
pub edit-once :
    (c : Codec) (s : Settings) (disk disk' : Disk)
    (ident version_id now ident' version_id' now' u k : ℕ) (expected : String) (edit later : Edit)
    (d : Db) (snap : Snapshot) (e : Db)
    → NoCollision c
    → IsUnused version_id d.versions
    → perform_edit c s disk ident version_id now u k expected edit d ≡ ok (snap, e)
    → perform_edit c s disk' ident' version_id' now' u k expected later e ≡ err result_conflict
edit-once c s disk disk' ident version_id now ident' version_id' now' u k expected edit later d snap
      e different unused h =
    conflict-stops c s disk' ident' version_id' now' u k expected later e (
      outdated-row c version_id u k expected edit d snap e
        (edit-IsEdited c s disk ident version_id now u k expected edit d snap e h) different unused)

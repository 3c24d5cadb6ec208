-- ===== src/Product/Review/Restored.antt =====
-- A restored version is shown again as the latest one.
use unrender.Base.{
  ℕ, ◌+◌, ◌≡◌, refl, sym, subst, ap, ◌∙◌, Option, none, some, String, arith, ◌==◌, ==_iff,
  Bool-cases, inl, inr,
}
use unrender.Base.Table.{lookup, lookup-put_self, nat_eq}
use unrender.Product.Settings.{Settings}
use unrender.Product.Schema.{Db, Job, Version, version_key_eq}
use unrender.Product.Tx.{ok}
use unrender.Product.Tx.Ensures.{
  Ensures, Ensures-gets_bind, Ensures-or_raise_bind, Ensures-read_bind, Ensures-weaken,
  Ensures-of_run,
}
use unrender.Product.Storage.{Disk, latest_version}
use unrender.Product.Review.Snapshot.{Codec, Snapshot, latest_row}
use unrender.Product.Review.Latest.{latest_row-put}
use unrender.Product.Review.Corrections.{version_key, restore_version, owned_version, corrected}
use unrender.Product.Review.Stored.{reviewed_row-IsReviewed, IsStored, store_correction-IsStored}

owned_version-some :
    (u : ℕ) (o : Option Version) (v : Version) → owned_version u o ≡ some v → o ≡ some v
owned_version-some u none v h = absurd (cc)
owned_version-some u (some w) v h = elim (Bool-cases (w.user_id == u)) [
  | inl e ↦ rw e at h
  | inr e ↦ absurd (cc (rw e at h))
]

-- The latest version and the row of a job after a restore of `v`.
abbrev pub IsRestored : ℕ → ℕ → Db → Version → Db → Type 0
IsRestored u k d v e =
    ((w : Version) × (latest_row u k e.versions ≡ some (latest_version u k d.versions + 1, w))
      × (w.chart_json ≡ v.chart_json)
      × (w.extraction_receipt_json ≡ v.extraction_receipt_json))
    × ((row : Job) × (lookup k e.jobs ≡ some row)
        × (row.current_result_json ≡ some v.chart_json)
        × (row.approved_at ≡ none))

module _ (c : Codec) (version_id now u k : ℕ) (d : Db) where
  stored-IsRestored :
      (row : Job) (v : Version) (snap : Snapshot) (e : Db)
      → row.user_id ≡ u
      → IsStored c version_id now row.user_id k row v.chart_json
          (some v.extraction_receipt_json)
          d
          snap
          e
      → IsRestored u k d v e
  unfolding corrected
  stored-IsRestored row v snap e same q =
      let stored =
        subst
          (λ w.
            IsStored c version_id now w k row v.chart_json (some v.extraction_receipt_json) d snap
              e)
          same q in
      (
        (
          _,
          ap (latest_row u k) stored.versions
              ∙ latest_row-put u k _ _ d.versions stored.fresh refl (omega arith),
          refl,
          sym stored.taken,
        ),
        (_, ap (lookup k) stored.jobs ∙ lookup-put_self k _ d.jobs, refl, refl),
      )

  restore-Ensures :
      (s : Settings) (disk : Disk) (ident n : ℕ) (expected : String)
      → Ensures (restore_version c s disk ident version_id now u k n expected) d (λ snap e.
        (v : Version) × (lookup (version_key k n) d.versions ≡ some v) × IsRestored u k d v e)
  unfolding restore_version
  restore-Ensures s disk ident n expected =
      Ensures-read_bind _ d _ _ _ (reviewed_row-IsReviewed c u k expected d) λ row p.
        Ensures-gets_bind _ d _ _ (
          Ensures-or_raise_bind _ d _ _ _ λ saved found.
            Ensures-weaken _ _ _ d
              (store_correction-IsStored c s disk ident version_id now k d row saved.chart_json
                (some saved.extraction_receipt_json) p.owned.0)
              λ snap e q. (
                saved,
                owned_version-some u _ saved found,
                stored-IsRestored row saved snap e ((==_iff row.user_id u).0 p.owned.1) q,
              ))

-- When a version has been restored, the latest version of the job has the next number and the text and receipt of the version asked
-- for, and the job shows that text as an unapproved result.
pub restore_version-lem :
    (c : Codec) (s : Settings) (disk : Disk) (ident version_id now u k n : ℕ) (expected : String)
    (d : Db) (snap : Snapshot) (e : Db)
    → restore_version c s disk ident version_id now u k n expected d ≡ ok (snap, e)
    → (v : Version) × (lookup (version_key k n) d.versions ≡ some v) × IsRestored u k d v e
restore_version-lem c s disk ident version_id now u k n expected d snap e h =
    Ensures-of_run _ d _ snap e (restore-Ensures c version_id now u k d s disk ident n expected) h

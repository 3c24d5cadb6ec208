-- ===== src/Product/Uploads/Staged.antt =====
-- What a stored upload leaves: its row, and an account within its quotas.
use unrender.Base.{
  ℕ, ◌+◌, ◌<◌, ◌≤◌, ◌≡◌, ◌≢◌, sym, ap, ◌∙◌, Bool, true, false, ◌&&◌, Option, some, String, arith,
  ltb, ◌==◌,
}
use unrender.Base.Table.{lookup, lookup-put_self, lookup-put_ne, nat_eq}
use unrender.Product.Settings.{Settings}
use unrender.Product.Schema.{Db, Upload, rate_key_eq}
use unrender.Product.Tx.{ok, err, ◌>>=◌, upload_not_found, Error}
use unrender.Product.Tx.Ensures.{Ensures-of_run}
use unrender.Product.Storage.Reservations.{Ticket}
use unrender.Product.Submission.Capacity.{upload}
use unrender.Product.Uploads.{Inspection, new_upload, store_upload}
use unrender.Product.Uploads.Quotas.{IsStored, IsWithin, store_upload-IsStored}

module _ (now v k : ℕ) (e : Db) (r : Upload) where
  live-run :
      lookup k e.uploads ≡ some r
      → r.user_id ≡ v
      → now < r.expires_at
      → upload now v k e ≡ ok (r, e)
  unfolding upload ◌>>=◌
  live-run found own early =
      let same : (r.user_id == v && ltb now r.expires_at) ≡ true = ground (arith, own, early) in
      rw (found, same)

  dead-run :
      lookup k e.uploads ≡ some r
      → (r.user_id == v && ltb now r.expires_at) ≡ false
      → upload now v k e ≡ err upload_not_found
  unfolding upload ◌>>=◌
  dead-run found dead = rw (found, dead)

module _ (s : Settings) (ident now u k path : ℕ) (ticket : Ticket) (found : Inspection)
    (credit : Bool) (fixture : Option String) (commit : Option Error) (d e : Db)
    (h : store_upload s ident now u k path ticket found credit fixture commit d ≡ ok (tt, e)) where
  row : Upload
  row = new_upload s ident now u k path ticket found credit fixture commit

  done : IsStored s ident now u k path ticket found credit fixture commit d e
  done =
      Ensures-of_run _ d _ tt e
        (store_upload-IsStored s ident now u k path ticket found credit fixture commit d) h

  found_after :
      lookup k e.uploads ≡ some (new_upload s ident now u k path ticket found credit fixture commit)
  found_after =
      ap (lookup k) done.1.0
      ∙ lookup-put_self k (new_upload s ident now u k path ticket found credit fixture commit)
          d.uploads

  -- If the transaction of an upload returns, then until the upload expires its owner can read
  -- exactly the stored row; every other account, and everybody from then on, gets
  -- upload_not_found. Every other upload is as it was.
  pub store_upload-upload :
      (now' v j : ℕ)
      → (v ≡ u
          → now' < now + s.upload_ttl_seconds
          → upload now' v k e
            ≡ ok (new_upload s ident now u k path ticket found credit fixture commit, e))
        × (v ≢ u → upload now' v k e ≡ err upload_not_found)
        × (now + s.upload_ttl_seconds ≤ now' → upload now' v k e ≡ err upload_not_found)
        × (j ≢ k → lookup j e.uploads ≡ lookup j d.uploads)
  store_upload-upload now' v j = (
    λ own early. live-run now' v k e _ found_after (sym own) early,
    λ other. dead-run now' v k e _ found_after (ground (arith, other)),
    λ late. dead-run now' v k e _ found_after (ground (arith, late)),
    λ other. ap (lookup j) done.1.0 ∙ lookup-put_ne k j _ d.uploads (λ same. other (sym same)),
  )

  -- If the transaction of an upload returns, the account is within its quotas: the number of its
  -- uploads, the number of those that no job uses, and the bytes of its uploads, of the sources of
  -- its jobs and of its pending deletions.
  pub store_upload-IsWithin : IsWithin s u e
  store_upload-IsWithin = done.2

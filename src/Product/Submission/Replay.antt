-- ===== src/Product/Submission/Replay.antt =====
-- A request key is used for one job: what a second request with the same key is answered.
use unrender.Base.{
  ℕ, ◌+◌, ◌<◌, ◌≤◌, ◌≡◌, ◌≢◌, refl, sym, ◌∙◌, Bool, true, false, Option, none, some, String, arith,
  leb, le→leb,
}
use unrender.Base.Table.{lookup, nat_eq}
use text.Mathlib.Text.{◌==◌ as str_eq}
use text.Mathlib.TextEquality.{eq_iff}
use unrender.Product.Settings.{Settings}
use unrender.Product.Schema.{Db, Idempotency, StorageReservation, request_key_eq}
use unrender.Product.Tx.{
  ok, err, ◌>>=◌, ◌>>◌, pure, when, modify, idempotency_conflict, idempotency_key_expired,
}
use unrender.Product.Tx.Ensures.{Ensures-of_run}
use unrender.Product.Storage.{Disk}
use unrender.Product.Storage.Reservations.{
  Ticket, drop_storage_reservation, delete_reservation, is_some,
}
use unrender.Product.Soundness.Statements.{SameCore}
use unrender.Product.Submission.Requests.{
  Response, Encoder, request_key, new_request, idempotent_response,
}
use unrender.Product.Submission.{
  Submission, completed_request, submit, replay_or_submit, submit_new,
}
use unrender.Product.Submission.Submitted.{submit_new-IsSubmitted}

-- The request keys and the tables of jobs, credits and calls are the same.
abbrev pub SameAnswers : Db → Db → Type 0
SameAnswers d e = SameCore d e × (e.idempotency ≡ d.idempotency)

dropped_row :
    (o : Option StorageReservation) (f : Db → Db) (d : Db)
    → SameAnswers d (f d)
    → (b : Bool) × (e : Db) × ((when (is_some o) (modify f) >> pure (is_some o)) d ≡ ok (b, e))
      × SameAnswers d e
unfolding ◌>>=◌
dropped_row none f d h = (false, d, refl, ((refl, refl, refl, refl), refl))
dropped_row (some r) f d h = (true, f d, refl, h)

-- A release of a reservation always returns.
drop-run :
    (u : ℕ) (ticket : Ticket) (d : Db)
    → (b : Bool) × (e : Db) × (drop_storage_reservation u ticket d ≡ ok (b, e)) × SameAnswers d e
unfolding drop_storage_reservation delete_reservation ◌>>=◌
drop-run u ticket d = dropped_row _ _ d ((refl, refl, refl, refl), refl)

module _ (s : Settings) (disk : Disk) (enc : Encoder) (ident now k source_path : ℕ)
    (ticket : Ticket) (costs : Bool) (q : Submission) (d : Db) where
  pub new-run :
      lookup (request_key q.user q.stored_key) d.idempotency ≡ none
      → submit s disk enc ident now k source_path ticket costs q d
        ≡ submit_new s disk enc ident now k source_path ticket costs q d
  unfolding submit replay_or_submit ◌>>=◌
  new-run h = rw h

  pub replay-run :
      (row : Idempotency)
      → lookup (request_key q.user q.stored_key) d.idempotency ≡ some row
      → (e : Db) × (submit s disk enc ident now k source_path ticket costs q d
          ≡ idempotent_response enc now q.request_sha256 row e)
        × SameAnswers d e
  unfolding submit replay_or_submit ◌>>=◌
  replay-run row h = let (b, e, p, same) = drop-run q.user ticket d in (e, rw (h, p), same)

unexpired : (row : Idempotency) (now : ℕ) → now < row.expires_at → leb row.expires_at now ≡ false
unexpired row now h = ground arith

differs : (a b : String) → a ≢ b → str_eq a b ≡ false
differs a b h = ground (arith, eq_iff a b)

agrees : (a b : String) → a ≡ b → str_eq a b ≡ true
agrees a b h = ground (arith, eq_iff a b)

-- The answer of a key whose response is known.
module _ (enc : Encoder) (now : ℕ) (hash : String) (row : Idempotency) (d : Db)
    (live : row.expired_at ≡ none) where
  expired-run :
      row.expires_at ≤ now → idempotent_response enc now hash row d ≡ err idempotency_key_expired
  unfolding idempotent_response ◌>>=◌
  expired-run h = rw (live, le→leb row.expires_at now h)

  conflict-run :
      now < row.expires_at
      → row.request_sha256 ≢ hash
      → idempotent_response enc now hash row d ≡ err idempotency_conflict
  unfolding idempotent_response ◌>>=◌
  conflict-run h other = rw (live, unexpired row now h, differs row.request_sha256 hash other)

  response-run :
      (text : String) (response : Response)
      → now < row.expires_at
      → row.request_sha256 ≡ hash
      → row.response_json ≡ some text
      → text ≢ ""
      → enc.loads text ≡ some response
      → idempotent_response enc now hash row d ≡ ok (response, d)
  unfolding idempotent_response ◌>>=◌
  response-run text response h same stored present loaded = rw (
    live,
    unexpired row now h,
    agrees row.request_sha256 hash same,
    stored,
    differs text "" present,
    loaded,
  )

-- A submission under a new request key has returned. If the JSON encoder gives a nonempty text for the response that reads
-- back as the response, then every later submission under that key, whatever upload it names and
-- whatever ids it has drawn, changes neither jobs nor credits nor keys on the database that the
-- first has left: before the key expires it returns the same response if the request's digest is
-- the same and raises idempotency_conflict if it is another, and from then on it raises
-- idempotency_key_expired.
pub submit-again :
    (s : Settings) (disk disk' : Disk) (enc : Encoder)
    (ident now k source_path ident' now' k' source_path' upload' page' : ℕ)
    (ticket ticket' : Ticket) (costs costs' : Bool) (hash : String) (q : Submission) (d e : Db)
    (response : Response)
    → enc.dumps response ≢ ""
    → enc.loads (enc.dumps response) ≡ some response
    → lookup (request_key q.user q.stored_key) d.idempotency ≡ none
    → submit s disk enc ident now k source_path ticket costs q d ≡ ok (response, e)
    → let again =
        submit s disk' enc ident' now' k' source_path' ticket' costs'
          (record q { upload_id = upload'; page_index = page'; request_sha256 = hash })
          e in
      (now' < now + s.idempotency_ttl_seconds
        → q.request_sha256 ≡ hash
        → (f : Db) × (again ≡ ok (response, f)) × SameAnswers e f)
      × (now' < now + s.idempotency_ttl_seconds
          → q.request_sha256 ≢ hash
          → again ≡ err idempotency_conflict)
      × (now + s.idempotency_ttl_seconds ≤ now' → again ≡ err idempotency_key_expired)
submit-again s disk disk' enc ident now k source_path ident' now' k' source_path' upload' page'
      ticket ticket' costs costs' hash q d e response present loaded fresh h =
    let row =
      completed_request now (enc.dumps response)
        (new_request s now q.user q.stored_key q.request_sha256) in
    let done =
      Ensures-of_run _ d _ response e
        (submit_new-IsSubmitted s disk enc ident now k source_path ticket costs q d)
        (sym (new-run s disk enc ident now k source_path ticket costs q d fresh) ∙ h) in
    let (f, p, same) =
      replay-run s disk' enc ident' now' k' source_path' ticket' costs'
        (record q { upload_id = upload'; page_index = page'; request_sha256 = hash }) e row
        done.request in
    (
      λ early equal. (
        f,
        p
            ∙ response-run enc now' hash row f refl (enc.dumps response) response early equal refl
                present loaded,
        same,
      ),
      λ early other. p ∙ conflict-run enc now' hash row f refl early other,
      λ late. p ∙ expired-run enc now' hash row f refl late,
    )

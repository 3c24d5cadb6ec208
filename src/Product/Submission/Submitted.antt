-- ===== src/Product/Submission/Submitted.antt =====
-- What a submission leaves in the database.
use unrender.Base.{
  ℕ, ◌≡◌, refl, sym, ap, ◌∙◌, ◌⊎◌, inl, inr, Bool, true, false, Option, none, some, String, ◌<◌,
  arith,
}
use unrender.Base.Int.{negsuc}
use unrender.Base.Table.{lookup, put, lookup-put_self, nat_eq}
use unrender.Product.Settings.{Settings}
use unrender.Product.Schema.{Db, Job, Upload, LedgerKey, Idempotency, RequestKey, request_key_eq}
use unrender.Product.Tx.{pure, ◌>>◌, when}
use unrender.Product.Tx.Ensures.{
  Ensures, Ensures-pure, Ensures-bind, Ensures-gets_bind, Ensures-modify, Ensures-modify_bind,
  Ensures-raise_if, Ensures-raise_if_bind, Ensures-or_raise, Ensures-or_raise_bind,
  Ensures-guard_bind, Ensures-weaken, Ensures-when, Ensures-read_bind, Ensures-outside_call,
}
use unrender.Product.Admission.Rules.{Ensures-insert_unique}
use unrender.Product.Audit.{audit}
use unrender.Product.Audit.Frame.{Ensures-audit}
use unrender.Product.Credits.{change_credits}
use unrender.Product.Credits.Rules.{Posted, Replayed, change_credits-Posted}
use unrender.Product.Storage.{Disk}
use unrender.Product.Storage.Rules.{reserve_result_capacity-pure}
use unrender.Product.Storage.Reservations.{Ticket, consume_storage_reservation, delete_reservation}
use unrender.Product.Soundness.Statements.{SameCore}
use unrender.Product.Submission.Requests.{
  Response, Encoder, request_key, is_present, new_request, create_idempotency_record, public_job,
}
use unrender.Product.Submission.Capacity.{assert_job_capacity, upload, live_upload}
use unrender.Product.Submission.{
  Submission, new_job, add_job, insert_job, complete_request, completed_request, submit_new,
}

pub absent : {A : Type 0} (o : Option A) → is_present o ≡ false → o ≡ none
absent none h = refl
absent (some a) h = absurd (cc)

module _ (s : Settings) (now u : ℕ) (d : Db) where
  live_upload-lem :
      (o : Option Upload) (r : Upload)
      → live_upload u now o ≡ some r
      → (o ≡ some r) × (r.user_id ≡ u) × (now < r.expires_at)
  live_upload-lem none r h = absurd (cc (h))
  live_upload-lem (some x) r h = ground (arith, h)

  upload-lem :
      (k : ℕ)
      → Ensures (upload now u k) d (λ r e.
        (e ≡ d) × ((lookup k d.uploads ≡ some r) × (r.user_id ≡ u) × (now < r.expires_at)))
  unfolding upload
  upload-lem k =
      Ensures-gets_bind _ d _ _
        (Ensures-or_raise _ d _ _ λ r p. (refl, live_upload-lem (lookup k d.uploads) r p))

  assert_job_capacity-pure : (n : ℕ) → Ensures (assert_job_capacity s u n) d (λ _ e. e ≡ d)
  unfolding assert_job_capacity
  assert_job_capacity-pure n = Ensures-gets_bind _ d _ _ (
      Ensures-or_raise_bind _ d _ _ _ λ x p. Ensures-gets_bind _ d _ _ (
        Ensures-gets_bind _ d _ _ (
          Ensures-raise_if_bind _ d _ _ _
            λ _. Ensures-raise_if_bind _ d _ _ _ λ _. Ensures-raise_if _ d _ _ λ _. refl)))

  create_record-lem :
      (key hash : String)
      → Ensures (create_idempotency_record s now u key hash) d (λ _ e.
        SameCore d e
        × (lookup (request_key u key) e.idempotency ≡ some (new_request s now u key hash)))
  unfolding create_idempotency_record
  create_record-lem key hash = Ensures-modify_bind _ d _ _ (
      Ensures-modify_bind _ _ _ _ (
        Ensures-gets_bind _ _ _ _ (
          Ensures-raise_if_bind _ _ _ _ _ λ _.
            Ensures-insert_unique s _ _ _ _ _ _ _ _
              λ _. ((refl, refl, refl, refl), lookup-put_self (request_key u key) _ _))))

SameCore-trans : (a b c : Db) → SameCore a b → SameCore b c → SameCore a c
SameCore-trans a b c p q = (q.0 ∙ p.0, q.1 ∙ p.1, q.2 ∙ p.2, q.3 ∙ p.3)

-- The credit of a submission: one line of the ledger for a job that costs one, and nothing for one that is free.
abbrev pub Charged : Settings → ℕ → ℕ → Bool → Db → Db → Type 0
Charged s u k true d e =
    Replayed (LedgerKey.reserve k 1) d e ⊎ Posted s u (negsuc 0) (LedgerKey.reserve k 1) false d e
Charged s u k false d e = e ≡ d

-- An upload of the submission's user, under the id that the submission names, that has not expired.
abbrev pub IsLive : ℕ → Submission → Db → Upload → Type 0
IsLive now q d r =
    (lookup q.upload_id d.uploads ≡ some r) × (r.user_id ≡ q.user) × (now < r.expires_at)

-- A job has been submitted: its row is new, its owner has been charged, and the request key holds
-- the response.
pub record IsSubmitted (s : Settings) (enc : Encoder) (now k source_path : ℕ) (costs : Bool)
    (q : Submission) (d : Db) (response : Response) (e : Db) : Type 0 where
  pub source : Upload
  pub response_row :
      response ≡ public_job k (new_job s now q.user q.upload_id source_path source costs)
  pub found : IsLive now q d source
  pub unused : lookup k d.jobs ≡ none
  pub before : Db
  pub after : Db
  pub same_before :
      SameCore (add_job k (new_job s now q.user q.upload_id source_path source costs) d) before
  pub charged : Charged s q.user k costs before after
  pub same_after : SameCore after e
  pub request :
      lookup (request_key q.user q.stored_key) e.idempotency
      ≡ some (
          completed_request now
            (enc.dumps response)
            (new_request s now q.user q.stored_key q.request_sha256))

charge-Charged :
    (s : Settings) (now u k : ℕ) (costs : Bool) (d : Db)
    → Ensures
        (when costs (do
          change_credits s now u (negsuc 0) "job_reserved" (LedgerKey.reserve k 1) false
          pure tt))
        d
        (λ _ e. (e.idempotency ≡ d.idempotency) × Charged s u k costs d e)
charge-Charged s now u k true d =
    Ensures-when _ d true _
      (λ _. Ensures-bind _ d _ _ _ (change_credits-Posted s now u _ _ _ _ d) λ b e p.
        Ensures-pure _ e tt (elim p [
          | inl r ↦ (ap (λ (x : Db). x.idempotency) r.unchanged, inl r)
          | inr r ↦ (ap (λ (x : Db). x.idempotency) r.after, inr r)
        ]))
      λ h. absurd (cc)
charge-Charged s now u k false d = Ensures-when _ d false _ (λ h. absurd (cc)) λ _. (refl, refl)

module _ (s : Settings) (disk : Disk) (enc : Encoder) (ident now : ℕ) where
  insert_job-lem :
      (k : ℕ) (j : Job) (costs : Bool) (d : Db)
      → Ensures
          (insert_job s disk enc ident now k j costs)
          d
          (λ _ e. (lookup k d.jobs ≡ none) × (e ≡ add_job k j d))
  unfolding insert_job
  insert_job-lem k j costs d = Ensures-insert_unique s _ d _ _ _ _ _ _ λ free. (absent _ free, refl)

  consume-lem :
      (u : ℕ) (ticket : Ticket) (kind : String) (bytes path : ℕ) (d : Db)
      → Ensures
          (consume_storage_reservation now u ticket kind bytes path)
          d
          (λ _ e. SameCore d e × (e.idempotency ≡ d.idempotency))
  unfolding consume_storage_reservation delete_reservation
  consume-lem u ticket kind bytes path d =
      Ensures-bind _ d (λ _ e. SameCore d e × (e.idempotency ≡ d.idempotency)) _ _
        (Ensures-gets_bind _ d _ _ (
          Ensures-bind _ d (λ _ e. SameCore d e × (e.idempotency ≡ d.idempotency)) _ _
            (Ensures-when _ d _ _ (λ _. Ensures-modify _ d _ ((refl, refl, refl, refl), refl))
              λ _. ((refl, refl, refl, refl), refl))
            λ _ e p. Ensures-pure _ e _ p))
        λ b e p. Ensures-raise_if _ e _ _ λ _. p

  complete_request-lem :
      (key : RequestKey) (response : Response) (r : Idempotency) (d : Db)
      → lookup key d.idempotency ≡ some r
      → Ensures (complete_request s disk enc ident now key response) d (λ _ e.
        SameCore d e
        × (lookup key e.idempotency ≡ some (completed_request now (enc.dumps response) r)))
  unfolding complete_request
  complete_request-lem key response r d h =
      Ensures-modify _ d _ (rw h ((refl, refl, refl, refl), lookup-put_self key _ _))

  -- the end of the transaction, once the credit has been taken
  finish-lem :
      (k source_path bytes : ℕ) (ticket : Ticket) (q : Submission) (j : Job) (r : Idempotency)
      (d : Db)
      → lookup (request_key q.user q.stored_key) d.idempotency ≡ some r
      → Ensures {A = Response}
          (do
            audit s ident now (some q.user) (some k) "job_queued"
            complete_request s disk enc ident now (request_key q.user q.stored_key) (public_job k j)
            consume_storage_reservation now q.user ticket "job_copy" bytes source_path
            pure (public_job k j))
          d
          (λ response e.
            (response ≡ (public_job k j))
            × SameCore d e
            × (lookup (request_key q.user q.stored_key) e.idempotency
                ≡ some (completed_request now (enc.dumps (public_job k j)) r)))
  finish-lem k source_path bytes ticket q j r d h =
      Ensures-bind _ d (λ _ a. SameCore d a × (a.idempotency ≡ d.idempotency)) _ _
        (Ensures-audit s _ ident now (some q.user) (some k) "job_queued" d
          (λ l. ((refl, refl, refl, refl), refl)))
        λ _ a p.
          Ensures-bind _ a _ _ _
            (complete_request-lem (request_key q.user q.stored_key) (public_job k j) r a
              (ap (lookup (request_key q.user q.stored_key)) p.1 ∙ h))
            λ _ b m.
              Ensures-bind _ b _ _ _ (consume-lem q.user ticket "job_copy" bytes source_path b)
                λ _ e n. Ensures-pure _ e (public_job k j) (
                  refl,
                  SameCore-trans d b e (SameCore-trans d a b p.0 m.0) n.0,
                  ap (lookup (request_key q.user q.stored_key)) n.1 ∙ m.1,
                )

  pub submit_new-IsSubmitted :
      (k source_path : ℕ) (ticket : Ticket) (costs : Bool) (q : Submission) (d : Db)
      → Ensures
          (submit_new s disk enc ident now k source_path ticket costs q)
          d
          (λ response e. IsSubmitted s enc now k source_path costs q d response e)
  unfolding submit_new
  submit_new-IsSubmitted k source_path ticket costs q d =
      Ensures-read_bind _ d _ _ _ (upload-lem s now q.user d q.upload_id) λ r live.
        Ensures-guard_bind _ d _ _ (assert_job_capacity-pure s now q.user d r.byte_size) λ _.
          Ensures-guard_bind _ d _ _ (reserve_result_capacity-pure s disk d q.user none) λ _.
            Ensures-bind _ d _ _ _ (create_record-lem s now q.user d q.stored_key q.request_sha256)
              λ _ a made. Ensures-outside_call _ a disk.copy_error _ (
                let j = new_job s now q.user q.upload_id source_path r costs in
                Ensures-bind _ a _ _ _ (insert_job-lem k j costs a) λ _ b inserted.
                  Ensures-bind _ b _ _ _ (charge-Charged s now q.user k costs b) λ _ f charged.
                    Ensures-weaken _ _ _ f
                      (finish-lem k source_path r.byte_size ticket q j
                        (new_request s now q.user q.stored_key q.request_sha256) f
                        (ap (lookup (request_key q.user q.stored_key)) charged.0
                          ∙ ap (λ (x : Db). lookup (request_key q.user q.stored_key) x.idempotency)
                              inserted.1
                          ∙ made.1))
                      λ response e done. record {
                        source = r;
                        response_row = done.0;
                        found = live;
                        unused = ap (lookup k) (sym made.0.1) ∙ inserted.0;
                        before = b;
                        after = f;
                        same_before = (
                          ap (λ (x : Db). x.users) inserted.1 ∙ made.0.0,
                          ap (λ (x : Db). x.jobs) inserted.1 ∙ ap (put k j) made.0.1,
                          ap (λ (x : Db). x.ledger) inserted.1 ∙ made.0.2,
                          ap (λ (x : Db). x.attempts) inserted.1 ∙ made.0.3,
                        );
                        charged = charged.1;
                        same_after = done.1;
                        request =
                            done.2
                            ∙ ap
                                (λ (x : Response). some (
                                  completed_request now (enc.dumps x)
                                    (new_request s now q.user q.stored_key q.request_sha256)))
                                (sym done.0);
                      })

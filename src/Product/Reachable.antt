-- ===== src/Product/Reachable.antt =====
-- The databases that the service can reach from an empty one: accounts and credits, submissions,
-- reviews, every transaction on jobs, and any change outside the tables of users, jobs, credits and
-- provider calls (an upload, a session, a deletion), in any order, with any arguments and with fresh
-- ids.
use unrender.Base.{
  ℕ, ◌+◌, ◌≡◌, refl, sym, subst, ◌∙◌, Bool, Option, none, some, String, arith, Option-cases, inl,
  inr,
}
use unrender.Base.Table.{lookup, sum, nat_eq}
use unrender.Product.Settings.{Settings}
use unrender.Product.Schema.{
  Db, User, Attempt, AttemptKey, AccountKind, LedgerKey, Idempotency, empty, ledger_key_eq,
  attempt_key_eq, request_key_eq,
}
use unrender.Product.Tx.{ok}
use unrender.Product.Tx.Ensures.{
  Ensures, Ensures-of_run, Ensures-raise_if_bind, Ensures-or_raise_bind, Ensures-or_raise,
}
use unrender.Product.Credits.{ledger_count, refundable}
use unrender.Product.Credits.Balance.{credited, debited}
use unrender.Product.Storage.{Disk}
use unrender.Product.Storage.Reservations.{Ticket}
use unrender.Product.Accounts.{create_user, grant_credits}
use unrender.Product.Accounts.Sound.{create_user-IsSound, grant_credits-IsSound}
use unrender.Product.Submission.{Submission, submit}
use unrender.Product.Submission.Requests.{Response, Encoder, request_key, idempotent_response}
use unrender.Product.Submission.Submitted.{submit_new-IsSubmitted}
use unrender.Product.Submission.Replay.{new-run, replay-run}
use unrender.Product.Submission.Sound.{IsFreshJob, submitted-IsSound, SameCore-IsSound}
use unrender.Product.Review.Snapshot.{Codec, Snapshot}
use unrender.Product.Review.Edits.{Edit, perform_edit, IsEdited}
use unrender.Product.Review.Conflicts.{edit-IsEdited}
use unrender.Product.Soundness.Settled.{IsSound}
use unrender.Product.Soundness.Statements.{SameCore, with_job}
use unrender.Product.Soundness.Operations.{with_job-IsSound}
use unrender.Product.Soundness.Reach.{Operation, perform, perform-IsSound}

-- One committed step after another. A new account's id is one that the ledger has not heard of, and
-- a new job's id one that neither the ledger nor the provider calls have heard of. `elsewhere` is a
-- transaction that leaves the users, the jobs, the ledger and the provider calls as they are.
pub data Reachable (s : Settings) : Db → Type 0 where
  start : Reachable s empty
  account :
      {d e : Db} (ident now u n id : ℕ) (reason : String) (email : Option String)
      (kind : AccountKind) (active : Bool)
      → Reachable s d
      → ledger_count u d.ledger ≡ 0
      → create_user s ident now u email kind active n reason d ≡ ok (id, e)
      → Reachable s e
  grant :
      {d e : Db} (ident now credits : ℕ) (email : Option String) (reference : String)
      → Reachable s d
      → grant_credits s ident now email credits reference d ≡ ok (tt, e)
      → Reachable s e
  submission :
      {d e : Db} (disk : Disk) (enc : Encoder) (ident now k source_path : ℕ) (ticket : Ticket)
      (costs : Bool) (q : Submission) (response : Response)
      → Reachable s d
      → IsFreshJob k d
      → submit s disk enc ident now k source_path ticket costs q d ≡ ok (response, e)
      → Reachable s e
  edit :
      {d e : Db} (c : Codec) (disk : Disk) (ident version_id now u k : ℕ) (expected : String)
      (change : Edit) (snap : Snapshot)
      → Reachable s d
      → perform_edit c s disk ident version_id now u k expected change d ≡ ok (snap, e)
      → Reachable s e
  elsewhere : {d e : Db} → Reachable s d → SameCore d e → Reachable s e
  operation : {d : Db} (now : ℕ) (op : Operation) → Reachable s d → Reachable s (perform s now op d)

module _ (s : Settings) where
  empty-IsSound : IsSound s empty
  unfolding lookup ledger_count refundable sum
  empty-IsSound = record {
    coherent = record {
      consistent = λ k j p. absurd (cc (p));
      keyed = tt;
      balanced = record { at = λ u x p. absurd (cc (p)) };
      refund_of = λ k a x j p q. absurd (cc (p));
      reserve_of = λ k a x j p q. absurd (cc (p));
      call_of = λ key x j p q. absurd (cc (p));
      exclusive = λ key x p. refl;
      single = λ key other x y p q r t. absurd (cc (p));
    };
    headroom = record { at = λ u. omega arith };
  }

  replayed-same :
      (enc : Encoder) (now : ℕ) (hash : String) (row : Idempotency) (d : Db)
      → Ensures (idempotent_response enc now hash row) d (λ _ e. e ≡ d)
  unfolding idempotent_response
  replayed-same enc now hash row d = Ensures-raise_if_bind _ d _ _ _ λ _.
      Ensures-raise_if_bind _ d _ _ _
        λ _. Ensures-or_raise_bind _ d _ _ _ λ text _. Ensures-or_raise _ d _ _ λ response _. refl

  submit-IsSound :
      (disk : Disk) (enc : Encoder) (ident now k source_path : ℕ) (ticket : Ticket) (costs : Bool)
      (q : Submission) (d : Db) (response : Response) (e : Db)
      → IsFreshJob k d
      → submit s disk enc ident now k source_path ticket costs q d ≡ ok (response, e)
      → IsSound s d
      → IsSound s e
  submit-IsSound disk enc ident now k source_path ticket costs q d response e fresh p h =
      elim (Option-cases (lookup (request_key q.user q.stored_key) d.idempotency)) [
        | inl unknown ↦
            submitted-IsSound s enc now k source_path costs q d response e
              (Ensures-of_run _ d _ response e
                (submit_new-IsSubmitted s disk enc ident now k source_path ticket costs q d)
                (sym (new-run s disk enc ident now k source_path ticket costs q d unknown) ∙ p))
              fresh h
        | inr (row, known) ↦
            let (f, run, same) =
              replay-run s disk enc ident now k source_path ticket costs q d row known in
            subst (IsSound s)
              (sym (
                Ensures-of_run _ f _ response e (replayed-same enc now q.request_sha256 row f)
                  (sym run ∙ p)))
              (SameCore-IsSound s d f same.0 h)
      ]

  edited-IsSound :
      (c : Codec) (version_id u k : ℕ) (expected : String) (change : Edit) (d : Db)
      (snap : Snapshot) (e : Db)
      → IsEdited c version_id u k expected change d snap e
      → IsSound s d
      → IsSound s e
  edited-IsSound c version_id u k expected change d snap e p h =
      let found = p.reviewed.owned.0 in
      SameCore-IsSound s (with_job k p.row' d) e (p.books.0, p.jobs, p.books.1, p.books.2)
        (with_job-IsSound s k p.row p.row' d found h
          (p.keeps (h.coherent.consistent k p.row found)))

  -- Every reachable database satisfies the invariant.
  Reachable-IsSound : {d : Db} (r : Reachable s d) → IsSound s d
  Reachable-IsSound Reachable.start = empty-IsSound
  Reachable-IsSound
        (Reachable.account {d} {e} ident now u n id reason email kind active r fresh p) =
      Ensures-of_run _ d _ id e
        (create_user-IsSound s ident now d (Reachable-IsSound r) u email kind active n reason fresh)
        p
  Reachable-IsSound (Reachable.grant {d} {e} ident now credits email reference r p) =
      Ensures-of_run _ d _ tt e
        (grant_credits-IsSound s ident now d (Reachable-IsSound r) email credits reference) p
  Reachable-IsSound
        (Reachable.submission {d} {e} disk enc ident now k path ticket costs q response r fresh p) =
      submit-IsSound disk enc ident now k path ticket costs q d response e fresh p
        (Reachable-IsSound r)
  Reachable-IsSound
        (Reachable.edit {d} {e} c disk ident version_id now u k expected change snap r p) =
      edited-IsSound c version_id u k expected change d snap e
        (edit-IsEdited c s disk ident version_id now u k expected change d snap e p)
        (Reachable-IsSound r)
  Reachable-IsSound (Reachable.elsewhere {d} {e} r same) =
      SameCore-IsSound s d e same (Reachable-IsSound r)
  Reachable-IsSound (Reachable.operation {d} now op r) =
      perform-IsSound s now op d (Reachable-IsSound r)

-- In every database that the service reaches from an empty one by the modelled transactions, and by
-- any that leave the users, jobs, ledger and provider calls alone, each balance plus what the ledger has debited
-- is what the ledger has credited; no attempt of a job for which a provider was called has a refund
-- in the ledger; and two provider calls for the same attempt of the same job were made under the
-- same lease generation.
pub Reachable-lem :
    (s : Settings) (d : Db)
    → Reachable s d
    → ((u : ℕ) (x : User)
        → lookup u d.users ≡ some x
        → x.credit_balance + debited u d.ledger ≡ credited u d.ledger)
      × ((key : AttemptKey) (x : Attempt)
          → lookup key d.attempts ≡ some x
          → lookup (LedgerKey.refund key.job_id key.attempt) d.ledger ≡ none)
      × ((key other : AttemptKey) (x y : Attempt)
          → lookup key d.attempts ≡ some x
          → lookup other d.attempts ≡ some y
          → key.job_id ≡ other.job_id
          → key.attempt ≡ other.attempt
          → key.lease_generation ≡ other.lease_generation)
Reachable-lem s d r =
    let h = Reachable-IsSound s r in
    (h.coherent.balanced.at, h.coherent.exclusive, h.coherent.single)

-- ===== src/Product/Soundness/Reach.antt =====
-- Sequences of transactions, in any order and with any arguments: workers, customers, the billing
-- webhook and the recovery task interleave only between transactions, since the database has one
-- writer (`BEGIN IMMEDIATE`).
pub mod Held
use unrender.Base.{ℕ, ◌+◌, ◌≡◌, refl, String, Option, none, some, List, [], ◌∷◌, Bool, true}
use unrender.Base.Table.{lookup, nat_eq}
use unrender.Product.Settings.{Settings}
use unrender.Product.Schema.{
  Db, User, Job, Attempt, AttemptKey, LedgerKey, attempt_key_eq, ledger_key_eq,
}
use unrender.Product.Tx.{Tx, Result, ok, err, transaction}
use unrender.Product.Tx.Ensures.{Ensures, Holds}
use unrender.Product.Credits.Balance.{credited, debited}
use unrender.Product.Storage.{Disk}
use unrender.Product.Jobs.Updates.{WorkerClaim}
use unrender.Product.Jobs.Finish.{finish_failed_claim, finish_cancelled_claim}
use unrender.Product.Jobs.Worker.{
  Output, claim_next_job, heartbeat_claim, update_claim_progress, release_claim_for_shutdown,
  publish_result,
}
use unrender.Product.Jobs.Dispatch.{begin_provider_dispatch}
use unrender.Product.Jobs.Requests.{DemoFixture, cancel, reprocess, apply_billing_event}
use unrender.Product.Jobs.Recovery.{recover_interrupted_jobs}
use unrender.Product.Soundness.Settled.{IsSound}
use unrender.Product.Soundness.Operations.{
  claim_next_job-IsSound, heartbeat_claim-IsSound, update_claim_progress-IsSound,
  release_claim_for_shutdown-IsSound, finish_failed_claim-IsSound, finish_cancelled_claim-IsSound,
  publish_result-IsSound, begin_provider_dispatch-IsSound, cancel-IsSound, reprocess-IsSound,
  apply_billing_event-IsSound, recover_interrupted_jobs-IsSound,
}

-- One transaction, with its clock reading `now`, the fresh ids that it draws, and its arguments.
pub data Operation : Type 0 where
  claiming : (ident owner token : ℕ) → Operation
  heartbeat : WorkerClaim → Operation
  progress dispatch release cancellation : (ident checked : ℕ) → WorkerClaim → Operation
  failure : (ident checked : ℕ) → WorkerClaim → String → Operation
  publication : (ident version_id checked : ℕ) → WorkerClaim → Output → Operation
  cancel_request : (ident user job : ℕ) → Operation
  reprocess_request : ℕ → Disk → DemoFixture → (user job : ℕ) → Operation
  billing : ℕ → (event_id event_type : String) → (user credits : ℕ) → String → Operation
  recovery : ℕ → Operation

module _ (s : Settings) where
  -- The database after the transaction has been committed or rolled back.
  unfoldable pub perform : ℕ → Operation → Db → Db
  unfolding transaction claim_next_job heartbeat_claim update_claim_progress begin_provider_dispatch
      release_claim_for_shutdown finish_cancelled_claim finish_failed_claim publish_result cancel
      reprocess apply_billing_event recover_interrupted_jobs
  perform now (Operation.claiming ident owner token) d =
      (transaction (claim_next_job s ident now owner token) d).1
  perform now (Operation.heartbeat c) d = (transaction (heartbeat_claim s 0 now c) d).1
  perform now (Operation.progress ident checked c) d =
      (transaction (update_claim_progress s ident now checked c) d).1
  perform now (Operation.dispatch ident checked c) d =
      (transaction (begin_provider_dispatch s ident now checked c) d).1
  perform now (Operation.release ident checked c) d =
      (transaction (release_claim_for_shutdown s ident now checked c) d).1
  perform now (Operation.cancellation ident checked c) d =
      (transaction (finish_cancelled_claim s ident now checked c) d).1
  perform now (Operation.failure ident checked c code) d =
      (transaction (finish_failed_claim s ident now checked c code) d).1
  perform now (Operation.publication ident version_id checked c out) d =
      (transaction (publish_result s ident now version_id checked c out) d).1
  perform now (Operation.cancel_request ident u k) d = (transaction (cancel s ident now u k) d).1
  perform now (Operation.reprocess_request ident disk fixture u k) d =
      (transaction (reprocess s ident now disk fixture u k) d).1
  perform now (Operation.billing ident event_id event_type u credits payload) d =
      (transaction (apply_billing_event s ident now event_id event_type u credits payload) d).1
  perform now (Operation.recovery ident) d =
      (transaction (recover_interrupted_jobs s now ident) d).1

  -- A history: each operation with the time at which it runs, the first one first.
  unfoldable pub run : List (ℕ × Operation) → Db → Db
  unfolding perform
  run [] d = d
  run ((now, op) ∷ ops) d = run ops (perform now op d)

module _ {A : Type 0} (P : Db → Type 0) (m : Tx A) (d : Db) where
  pub transaction-keeps : Ensures m d (λ _ e. P e) → P d → P (transaction m d).1
  unfolding transaction
  transaction-keeps h start = go (m d) h.at
    where
      go :
          (r : Result (A × Db))
          → Holds (λ _ e. P e) r
          → P (elim r as (λ _. Result A × Db) [ ok (a, e) ↦ (ok a, e) | err x ↦ (err x, d) ]).1
      go (ok (a, e)) p = p
      go (err x) p = start

module _ (s : Settings) where
  pub perform-IsSound :
      (now : ℕ) (op : Operation) (d : Db) → IsSound s d → IsSound s (perform s now op d)
  unfolding perform
  perform-IsSound now (Operation.claiming ident owner token) d h =
      transaction-keeps (IsSound s) _ d (claim_next_job-IsSound s now d h ident owner token) h
  perform-IsSound now (Operation.heartbeat c) d h =
      transaction-keeps (IsSound s) _ d (heartbeat_claim-IsSound s now d h 0 c) h
  perform-IsSound now (Operation.progress ident checked c) d h =
      transaction-keeps (IsSound s) _ d (update_claim_progress-IsSound s now d h ident checked c) h
  perform-IsSound now (Operation.dispatch ident checked c) d h =
      transaction-keeps (IsSound s) _ d (begin_provider_dispatch-IsSound s ident now c checked d h)
        h
  perform-IsSound now (Operation.release ident checked c) d h =
      transaction-keeps (IsSound s) _ d
        (release_claim_for_shutdown-IsSound s now d h ident checked c) h
  perform-IsSound now (Operation.cancellation ident checked c) d h =
      transaction-keeps (IsSound s) _ d (finish_cancelled_claim-IsSound s now d h ident checked c) h
  perform-IsSound now (Operation.failure ident checked c code) d h =
      transaction-keeps (IsSound s) _ d (finish_failed_claim-IsSound s now d h ident checked c code)
        h
  perform-IsSound now (Operation.publication ident version_id checked c out) d h =
      transaction-keeps (IsSound s) _ d
        (publish_result-IsSound s now d h ident version_id checked c out) h
  perform-IsSound now (Operation.cancel_request ident u k) d h =
      transaction-keeps (IsSound s) _ d (cancel-IsSound s ident now u k d h) h
  perform-IsSound now (Operation.reprocess_request ident disk fixture u k) d h =
      transaction-keeps (IsSound s) _ d (reprocess-IsSound s ident now disk fixture u k d h) h
  perform-IsSound now (Operation.billing ident event_id event_type u credits payload) d h =
      transaction-keeps (IsSound s) _ d
        (apply_billing_event-IsSound s ident now event_id event_type u credits payload d h) h
  perform-IsSound now (Operation.recovery ident) d h =
      transaction-keeps (IsSound s) _ d (recover_interrupted_jobs-IsSound s now ident d h) h

  -- From a state that satisfies the invariant, every history of transactions, with any arguments, in
  -- any order and rolled back or not, leads to a state that satisfies it.
  pub run-IsSound : (ops : List (ℕ × Operation)) (d : Db) → IsSound s d → IsSound s (run s ops d)
  unfolding run
  run-IsSound [] d h = h
  run-IsSound ((now, op) ∷ ops) d h = run-IsSound ops _ (perform-IsSound now op d h)

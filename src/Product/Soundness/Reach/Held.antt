-- ===== src/Product/Soundness/Reach/Held.antt =====
-- The credits of the users over a history of transactions.
use unrender.Base.{ℕ, ◌≡◌, refl, ◌∙◌, Bool, true, false, ◌&&◌, List, [], ◌∷◌, arith}
use unrender.Product.Settings.{Settings}
use unrender.Product.Schema.{Db}
use unrender.Product.Soundness.Settled.{IsSound}
use unrender.Product.Soundness.Conserved.{held, Conserves, Conserves-refl}
use unrender.Product.Soundness.Conserved.Steps.{
  heartbeat_claim-Conserves, update_claim_progress-Conserves, release_claim_for_shutdown-Conserves,
  claim_next_job-Conserves,
}
use unrender.Product.Soundness.Conserved.Settlements.{
  finish_failed_claim-Conserves, finish_cancelled_claim-Conserves, cancel-Conserves,
  recover_interrupted_jobs-Conserves,
}
use unrender.Product.Soundness.Reach.{Operation, perform, run, transaction-keeps, perform-IsSound}

-- All but the provider call, its publication, a new attempt and a sale of credits.
abbrev pub is_neutral : Operation → Bool
is_neutral (Operation.dispatch ident checked c) = false
is_neutral (Operation.publication ident version_id checked c out) = false
is_neutral (Operation.reprocess_request ident disk fixture u k) = false
is_neutral (Operation.billing ident event_id event_type u credits payload) = false
is_neutral _ = true

abbrev pub all_neutral : List (ℕ × Operation) → Bool
all_neutral [] = true
all_neutral ((now, op) ∷ ops) = is_neutral op && all_neutral ops

module _ (s : Settings) where
  perform-Conserves :
      (now : ℕ) (op : Operation) (d : Db)
      → IsSound s d
      → is_neutral op ≡ true
      → Conserves d (perform s now op d)
  unfolding perform
  perform-Conserves now (Operation.claiming ident owner token) d h _ =
      transaction-keeps (Conserves d) _ d (claim_next_job-Conserves s now d ident owner token)
        (Conserves-refl d)
  perform-Conserves now (Operation.heartbeat c) d h _ =
      transaction-keeps (Conserves d) _ d (heartbeat_claim-Conserves s now d 0 c) (Conserves-refl d)
  perform-Conserves now (Operation.progress ident checked c) d h _ =
      transaction-keeps (Conserves d) _ d (update_claim_progress-Conserves s now d ident checked c)
        (Conserves-refl d)
  perform-Conserves now (Operation.release ident checked c) d h _ =
      transaction-keeps (Conserves d) _ d
        (release_claim_for_shutdown-Conserves s now d ident checked c) (Conserves-refl d)
  perform-Conserves now (Operation.cancellation ident checked c) d h _ =
      transaction-keeps (Conserves d) _ d
        (finish_cancelled_claim-Conserves s ident now d h checked c) (Conserves-refl d)
  perform-Conserves now (Operation.failure ident checked c code) d h _ =
      transaction-keeps (Conserves d) _ d
        (finish_failed_claim-Conserves s ident now d h checked c code) (Conserves-refl d)
  perform-Conserves now (Operation.cancel_request ident u k) d h _ =
      transaction-keeps (Conserves d) _ d (cancel-Conserves s ident now d h u k) (Conserves-refl d)
  perform-Conserves now (Operation.recovery ident) d h _ =
      transaction-keeps (Conserves d) _ d (recover_interrupted_jobs-Conserves s now ident d h)
        (Conserves-refl d)
  perform-Conserves now (Operation.dispatch ident checked c) d h p = absurd (cc (p))
  perform-Conserves now (Operation.publication ident version_id checked c out) d h p =
      absurd (cc (p))
  perform-Conserves now (Operation.reprocess_request ident disk fixture u k) d h p = absurd (cc (p))
  perform-Conserves now (Operation.billing ident event_id event_type u credits payload) d h p =
      absurd (cc (p))

  -- Claims, heartbeats, progress, releases, failures, cancellations, cancel requests and recoveries, in any
  -- order and with any arguments, starting from a sound state: each user's balance and the credits held by the user's jobs together
  -- stay what they were.
  pub run-held :
      (ops : List (ℕ × Operation)) (d : Db) (u : ℕ)
      → IsSound s d
      → all_neutral ops ≡ true
      → held u (run s ops d) ≡ held u d
  unfolding run
  run-held [] d u h p = refl
  run-held ((now, op) ∷ ops) d u h p =
      run-held ops (perform s now op d) u (perform-IsSound s now op d h) (ground arith)
      ∙ (perform-Conserves now op d h (ground arith)).at u

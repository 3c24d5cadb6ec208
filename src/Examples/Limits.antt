-- ===== src/Examples/Limits.antt =====
-- The theorems on the allowance, the rate limiter, the ledger and the deletion queue, at the same shop.
use unrender.Base.{ℕ, ◌+◌, ◌≤◌, ◌<◌, ◌≡◌, ◌⊎◌, ◌↔◌, true, false, Option, none, some, [], ◌∷◌, arith}
use unrender.Base.Int.{pos}
use unrender.Base.Table.{nat_eq}
use unrender.Product.Schema.{Db, Budget, PendingDeletion, LedgerKey}
use unrender.Product.Tx.Ensures.{Ensures}
use unrender.Product.Budget.{reserve, status}
use unrender.Product.Budget.Cap.{run, used_of, run-le-limit, reserve-status}
use unrender.Product.Credits.{change_credits}
use unrender.Product.Credits.Rules.{Posted, Replayed, change_credits-Posted}
use unrender.Product.RateLimit.{effective_limit}
use unrender.Product.RateLimit.Window.{used, granted_in, granted_in-limit}
use unrender.Product.Storage.Deletions.{Deletion, Files, drain_deletion_queue}
use unrender.Examples.{small, shop}

abbrev spent : Option Budget
spent = some (record { day = 20; used = 1; paused = false })

run-le-limit_example : (run 2 20 (20 ∷ 19 ∷ 20 ∷ 21 ∷ []) spent).0 + used_of 20 spent ≤ 2
unfolding used_of
run-le-limit_example = run-le-limit 2 20 (20 ∷ 19 ∷ 20 ∷ 21 ∷ []) spent (omega arith)

reserve-status_example :
    ((reserve 20 2 spent).0 ≡ true)
    ↔ (((status 20 2 spent).paused ≡ false) × (0 < (status 20 2 spent).remaining_dispatches))
reserve-status_example = reserve-status 20 2 spent

granted_in-limit_example :
    (granted_in small 60 "key" none ((61, 2) ∷ (70, 2) ∷ (80, 1) ∷ []) shop ≡ 0)
    ⊎ (used (record { bucket_key = "key"; window_start = 60 }) shop
          + granted_in small 60 "key" none ((61, 2) ∷ (70, 2) ∷ (80, 1) ∷ []) shop
        ≤ effective_limit small none)
granted_in-limit_example =
    granted_in-limit small 60 "key" none ((61, 2) ∷ (70, 2) ∷ (80, 1) ∷ []) shop

change_credits-Posted_example :
    Ensures (change_credits small 30 1 (pos 1) "back" (LedgerKey.refund 7 1) true) shop (λ b e.
      Replayed (LedgerKey.refund 7 1) shop e
      ⊎ Posted small 1 (pos 1) (LedgerKey.refund 7 1) true shop e)
change_credits-Posted_example =
    change_credits-Posted small 30 1 (pos 1) "back" (LedgerKey.refund 7 1) true shop

-- A file with no owner is queued for deletion, and the file system refuses it.
abbrev orphan : PendingDeletion
orphan = record {
  user_id = none;
  byte_size = 9;
  reason = "orphan_reconciliation";
  attempts = 0;
  created_at = 3;
}

abbrev littered : Db
littered = record shop { pending_deletions = (80, orphan) ∷ [] }

-- The file of the job's source is queued too, by mistake.
abbrev all_files : Files
all_files p = true

abbrev drained : ℕ × Files × Db
drained = drain_deletion_queue (λ p. Deletion.deleted) (80 ∷ 70 ∷ []) all_files littered

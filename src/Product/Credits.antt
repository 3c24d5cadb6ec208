-- ===== src/Product/Credits.antt =====
-- The credit ledger: `_change_credits` of unrender/product/service.py. The balance of an account and
-- its ledger move together, once for each idempotency key.
pub mod Rules
pub mod Balance
use unrender.Base.{
  ℕ, suc, ◌+◌, ◌-◌, Bool, ◌&&◌, ◌||◌, not, Option, none, some, String, ltb, leb, ◌==◌,
  if◌then◌else◌,
}
use unrender.Base.Int.{ℤ, pos, negsuc}
use unrender.Base.Table.{Table, lookup, put, sum, nat_eq}
use unrender.Product.Settings.{Settings}
use unrender.Product.Schema.{Db, Job, Entry, User, LedgerKey, ledger_key_eq}
use unrender.Product.Tx.{
  Tx, ◌>>=◌, ◌>>◌, pure, gets, modify, raise_if, or_raise, unless_found,
  credit_ledger_capacity_reached, user_not_found, credits_required,
}
use unrender.Product.Admission.{insert_row, one_if}

-- The credits that a job holds until its provider is called.
abbrev pub is_refundable : Job → Bool
is_refundable j = j.reservation_active && not j.provider_dispatched

unfoldable pub ledger_count : ℕ → Table LedgerKey Entry → ℕ
ledger_count u = sum (λ k e. one_if (e.user_id == u))

unfoldable pub refundable : ℕ → Table ℕ Job → ℕ
refundable u = sum (λ k j. one_if (j.user_id == u && is_refundable j))

-- `balance + delta`, unless that is negative
unfoldable pub add_delta : ℕ → ℤ → Option ℕ
add_delta balance (pos n) = some (balance + n)
add_delta balance (negsuc n) = if leb (suc n) balance then some (balance - suc n) else none

abbrev pub set_balance : ℕ → ℕ → Db → Db
set_balance u balance d = record d {
  users = elim (lookup u d.users) [
    | none ↦ d.users
    | some x ↦ put u (record x { credit_balance = balance }) d.users
  ];
}

abbrev pub add_entry : LedgerKey → Entry → Db → Db
add_entry key entry d = record d { ledger = put key entry d.ledger }

module _ (s : Settings) where
  post_entry : ℕ → ℕ → ℤ → String → LedgerKey → Bool → Tx ℕ
  post_entry now u delta reason key mandatory = do
    count ← gets (λ d. ledger_count u d.ledger)
    pending ← gets (λ d. refundable u d.jobs)
    raise_if
        (leb s.max_credit_ledger_records_per_user count
          || (not mandatory && ltb s.max_credit_ledger_records_per_user (count + 1 + pending)))
        credit_ledger_capacity_reached
    row ← gets (λ d. lookup u d.users)
    user ← or_raise row user_not_found
    balance ← or_raise (add_delta user.credit_balance delta) credits_required
    modify (set_balance u balance)
    insert_row s (some u) mandatory 0 (
        add_entry key (record {
          user_id = u;
          delta = delta;
          balance_after = balance;
          reason = reason;
          created_at = now;
        }))
    pure balance

  unfoldable pub change_credits : ℕ → ℕ → ℤ → String → LedgerKey → Bool → Tx ℕ
  unfolding post_entry
  change_credits now u delta reason key mandatory = do
    existing ← gets (λ d. lookup key d.ledger)
    unless_found existing (λ e. e.balance_after) (post_entry now u delta reason key mandatory)

-- ===== src/Product/Budget.antt =====
-- The daily dispatch allowance of all tenants: unrender/product/dispatch_budget.py. A day is a number
-- of days, as ISO dates are ordered like them.
pub mod Cap
use unrender.Base.{
  ℕ, ◌+◌, ◌-◌, Bool, true, false, ◌&&◌, not, Option, none, some, ltb, leb, if◌then◌else◌,
}
use unrender.Product.Schema.{Db, Budget}
use unrender.Product.Tx.{Tx, ok}

-- `INSERT OR IGNORE` of the one row
unfoldable pub budget_row : ℕ → Option Budget → Budget
budget_row day none = record { day = day; used = 0; paused = false }
budget_row day (some b) = b

-- A backwards clock adjustment must not replenish the allowance.
unfoldable pub roll : ℕ → Budget → Budget
roll day b = if ltb b.day day then record b { day = day; used = 0 } else b

-- `reserve_dispatch`: whether a dispatch was granted, and the row
unfoldable pub reserve : ℕ → ℕ → Option Budget → Bool × Budget
unfolding budget_row roll
reserve day limit row =
    let b = roll day (budget_row day row) in
    if not b.paused && ltb b.used limit then (true, record b { used = b.used + 1 }) else (false, b)

unfoldable pub reserve_dispatch : ℕ → ℕ → Tx Bool
reserve_dispatch day limit d =
    let (granted, row) = reserve day limit d.budget in ok (granted, record d { budget = some row })

pub record BudgetStatus : Type 0 where
  pub reserved_dispatches : ℕ
  pub daily_limit : ℕ
  pub remaining_dispatches : ℕ
  pub paused : Bool

-- `row["day"] >= day`
unfoldable pub used_today : ℕ → Option Budget → ℕ
used_today day none = 0
used_today day (some b) = if leb day b.day then b.used else 0

is_paused : Option Budget → Bool
is_paused none = false
is_paused (some b) = b.paused

unfoldable pub status : ℕ → ℕ → Option Budget → BudgetStatus
unfolding used_today is_paused
status day limit row = record {
  reserved_dispatches = used_today day row;
  daily_limit = limit;
  remaining_dispatches = limit - used_today day row;
  paused = is_paused row;
}

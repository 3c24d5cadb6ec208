-- ===== src/Product/Budget/Cap.antt =====
-- The allowance over any sequence of dispatches.
use unrender.Base.{
  ℕ, ◌+◌, ◌≤◌, ◌<◌, ◌≡◌, refl, ◌↔◌, true, false, Option, none, some, List, [], ◌∷◌, arith, ◌==◌,
  if◌then◌else◌, ◌&&◌,
}
use unrender.Product.Schema.{Budget}
use unrender.Product.Budget.{reserve, status}

-- The requests of a run, each with the day on its clock; how many were granted against day `d`'s
-- allowance, and the row that is left.
pub run : ℕ → ℕ → List ℕ → Option Budget → ℕ × Option Budget
run limit d [] row = (0, row)
run limit d (day ∷ days) row =
    let (granted, b) = reserve day limit row in
    let (n, rest) = run limit d days (some b) in
    ((if granted && b.day == d then 1 else 0) + n, rest)

-- The count of the day that the row stands at.
unfoldable pub used_of : ℕ → Option Budget → ℕ
used_of d none = 0
used_of d (some b) = if b.day == d then b.used else 0

run_past :
    (limit d : ℕ) (days : List ℕ) (b : Budget) → d < b.day → (run limit d days (some b)).0 ≡ 0
unfolding run reserve
run_past limit d [] b h = refl
run_past limit d (day ∷ days) b h =
    ground (arith, run_past limit d days (reserve day limit (some b)).1)

run_from_row :
    (limit d : ℕ) (days : List ℕ) (b : Budget)
    → used_of d (some b) ≤ limit
    → (run limit d days (some b)).0 + used_of d (some b) ≤ limit
unfolding run reserve used_of
run_from_row limit d [] b h = omega arith
run_from_row limit d (day ∷ days) b h = ground (
  arith,
  run_past limit d days (reserve day limit (some b)).1,
  run_from_row limit d days (reserve day limit (some b)).1,
)

-- Whatever the clock reports, and in whatever order the requests come: the dispatches granted against
-- one day's allowance, with those that the row had counted for that day before, never pass the limit.
pub run-le-limit :
    (limit d : ℕ) (days : List ℕ) (row : Option Budget)
    → used_of d row ≤ limit
    → (run limit d days row).0 + used_of d row ≤ limit
unfolding run reserve used_of
run-le-limit limit d days (some b) h = run_from_row limit d days b h
run-le-limit limit d [] none h = omega arith
run-le-limit limit d (day ∷ days) none h = ground (
  arith,
  run_past limit d days (reserve day limit none).1,
  run_from_row limit d days (reserve day limit none).1,
)

-- A dispatch is granted exactly if the status of the same moment shows the allowance not paused and
-- something of it left.
pub reserve-status :
    (day limit : ℕ) (row : Option Budget)
    → ((reserve day limit row).0 ≡ true) ↔ (
        ((status day limit row).paused ≡ false) × (0 < (status day limit row).remaining_dispatches))
unfolding reserve status
reserve-status day limit none = ground arith
reserve-status day limit (some b) = ground arith

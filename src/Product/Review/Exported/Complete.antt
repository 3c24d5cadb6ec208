-- ===== src/Product/Review/Exported/Complete.antt =====
-- The exported rows hold the chart's points, each once and in order.

use unrender.Base.{ℕ, ◌≤◌, ◌≡◌, List, [], ◌∷◌, ◌++◌}
use unrender.Base.Lists.{length}
use unrender.Product.Settings.{Settings}
use unrender.Chart.Data.{Point, Series}
use unrender.Product.Review.Exported.{Row, rows_of}

module _ {F : Type 0} where
  -- The last two cells of a row.
  abbrev pub last_two : Row F → Row F
  last_two [] = []
  last_two (a ∷ []) = a ∷ []
  last_two (a ∷ b ∷ []) = a ∷ b ∷ []
  last_two (a ∷ b ∷ c ∷ row) = last_two (b ∷ c ∷ row)

  abbrev pub values_of : List (Row F) → List (Row F)
  values_of [] = []
  values_of (row ∷ rows) = last_two row ∷ values_of rows

  abbrev pub rest : List (Row F) → List (Row F)
  rest [] = []
  rest (row ∷ rows) = rows

  -- The points of all series in order.
  abbrev pub points_of : List (Series F) → List (Point F)
  points_of [] = []
  points_of (s ∷ series) = s.points ++ points_of series

  -- Rows of one width.
  pub data IsUniform (n : ℕ) : List (Row F) → Type 0 where
    no_row : IsUniform n []
    one_row :
        {row : Row F} {rows : List (Row F)}
        → length row ≡ n
        → IsUniform n rows
        → IsUniform n (row ∷ rows)

  -- Two cells for one series, and a third with the name of its series for more.
  abbrev pub width_of : List (Series F) → ℕ
  width_of [] = 2
  width_of (s ∷ []) = 2
  width_of (s ∷ t ∷ series) = 3

  -- Every row has the width of the header, and the values are those of the points, in order.
  abbrev pub IsComplete : List (Series F) → List (Row F) → Type 0
  IsComplete series rows =
      IsUniform (width_of series) rows
      × (values_of (rest rows) ≡ rows_of (points_of series))
      × (1 ≤ length rows)

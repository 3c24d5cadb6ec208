-- ===== src/Product/Review/Exported.antt =====
-- The rows of an exported chart: `_export_rows` of unrender/product/service.py. A cell is a text or a
-- float, as the abscissa of a point is.
pub mod Complete
use Prim.Native.String.{◌++◌ as str_append}
use unrender.Base.{
  ℕ, ◌+◌, ◌≤◌, ◌≡◌, refl, sym, ap, ◌∙◌, true, Option, none, some, String, List, [], ◌∷◌, ◌++◌,
  arith, leb, if◌then◌else◌,
}
use unrender.Base.Lists.{length, length-append}
use text.Mathlib.Text.{◌==◌ as str_eq}
use unrender.Product.Settings.{Settings}
use unrender.Product.Jobs.Updates.{nonempty}
use unrender.Product.Review.Validated.{Encoder, point_count, validate_product_chart}
use unrender.Chart.Data.{Position, Point, Series, ChartData}
use unrender.Chart.Csv.{or_default}

-- `if unit: label += f" [{unit}]"`
abbrev pub with_unit : String → Option String → String
with_unit label none = label
with_unit label (some unit) = str_append label (str_append " [" (str_append unit "]"))

abbrev pub Row : Type 0 → Type 0
Row F = List (Position F)

module _ {F : Type 0} where
  abbrev pub point_cells : Point F → Row F
  point_cells p = p.x ∷ Position.coordinate p.y ∷ []

  abbrev pub rows_of : List (Point F) → List (Row F)
  rows_of [] = []
  rows_of (p ∷ points) = point_cells p ∷ rows_of points

  abbrev pub named_points : String → List (Point F) → List (Row F)
  named_points name [] = []
  named_points name (p ∷ points) =
      (Position.category name ∷ point_cells p) ∷ named_points name points

-- `show_index` prints a number.
module _ {F : Type 0} (show_index : ℕ → String) where
  unfoldable pub named_rows : ℕ → List (Series F) → List (Row F)
  named_rows i [] = []
  named_rows i (s ∷ series) =
      named_points (or_default s.name (str_append "series_" (show_index (i + 1)))) s.points
      ++ named_rows (i + 1) series

  abbrev pub labelled_rows : String → String → List (Series F) → List (Row F)
  labelled_rows x y [] = (Position.category x ∷ Position.category y ∷ []) ∷ []
  labelled_rows x y (s ∷ []) = (Position.category x ∷ Position.category y ∷ []) ∷ rows_of s.points
  labelled_rows x y (s ∷ t ∷ series) =
      (Position.category "series" ∷ Position.category x ∷ Position.category y ∷ [])
      ∷ named_rows 0 (s ∷ t ∷ series)

  unfoldable pub export_rows : ChartData F → List (Row F)
  unfolding named_rows
  export_rows chart =
      let default = if str_eq chart.chart_type "pie" then "category" else "x" in
      labelled_rows (with_unit (or_default chart.x_axis.label default) (nonempty chart.x_axis.unit))
        (with_unit (or_default chart.y_axis.label "value") (nonempty chart.y_axis.unit))
        chart.series

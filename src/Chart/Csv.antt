-- ===== src/Chart/Csv.antt =====
-- The rows of `chart_to_csv` (unrender/schema/json_to_csv.py), and `x_key` of chart_schema.py. How
-- Python prints numbers is a parameter; `csv.writer` writes the rows out.
pub mod Wide
pub mod Keys
use unrender.Base.{
  ℕ, suc, ◌+◌, Bool, true, false, ◌||◌, not, Option, none, some, String, List, [], ◌∷◌, ◌++◌, map,
  leb, if◌then◌else◌,
}
use unrender.Base.Lists.{length}
use unrender.Base.Table.{Table, lookup, put}
use Prim.Native.String.{◌++◌ as str_append}
use package.text.Mathlib.Text.{◌==◌ as str_eq}
use unrender.Product.Schema.{string_key_eq}
use unrender.Chart.Data.{Position, Point, Series, ChartData}

-- `x.is_integer()`, `str(int(x))`, `str(x)` of a float, and `str` of an index
pub record Printer (F : Type 0) : Type 0 where
  pub is_integer : F → Bool
  pub str_int : F → String
  pub str_float : F → String
  pub str_index : ℕ → String

-- A cell holds a text, or the float of a y value.
pub data Cell (F : Type 0) : Type 0 where
  label : String → Cell F
  number : F → Cell F

-- `value or default`
abbrev pub or_default : Option String → String → String
or_default none default = default
or_default (some text) default = if str_eq text "" then default else text

module _ {F : Type 0} (print : Printer F) where
  unfoldable pub x_key : Position F → String
  x_key (Position.category text) = text
  x_key (Position.coordinate x) = if print.is_integer x then print.str_int x else print.str_float x

  abbrev pub point_row : Point F → List (Cell F)
  point_row p = Cell.label (x_key p.x) ∷ Cell.number p.y ∷ []

  abbrev pub all_points : List (Series F) → List (Point F)
  all_points [] = []
  all_points (s ∷ series) = s.points ++ all_points series

  -- `if k not in seen`, where `seen` is the set of the keys in order
  abbrev pub is_seen : List String → String → Bool
  is_seen [] k = false
  is_seen (j ∷ order) k = str_eq j k || is_seen order k

  abbrev pub add_key : List String → String → List String
  add_key order k = if is_seen order k then order else order ++ k ∷ []

  unfoldable pub collect_points : List String → List (Point F) → List String
  collect_points order [] = order
  collect_points order (p ∷ points) = collect_points (add_key order (x_key p.x)) points

  unfoldable pub x_order : List String → List (Series F) → List String
  unfolding collect_points
  x_order order [] = order
  x_order order (s ∷ series) = x_order (collect_points order s.points) series

  -- `mapping[k] = p.y` for each point
  unfoldable pub mapping : Table String F → List (Point F) → Table String F
  mapping m [] = m
  mapping m (p ∷ points) = mapping (put (x_key p.x) p.y m) points

  -- `per_series[i].get(k, "")`
  abbrev pub cell : Option F → Cell F
  cell none = Cell.label ""
  cell (some y) = Cell.number y

  unfoldable pub cells : String → List (Series F) → List (Cell F)
  unfolding mapping
  cells k [] = []
  cells k (s ∷ series) = cell (lookup k (mapping [] s.points)) ∷ cells k series

  unfoldable pub series_headers : ℕ → List (Series F) → List (Cell F)
  series_headers i [] = []
  series_headers i (s ∷ series) =
      Cell.label (or_default s.name (str_append "series_" (print.str_index (i + 1))))
      ∷ series_headers (i + 1) series

  unfoldable pub wide_rows : List (Series F) → List String → List (List (Cell F))
  unfolding cells
  wide_rows series [] = []
  wide_rows series (k ∷ order) = (Cell.label k ∷ cells k series) ∷ wide_rows series order

  abbrev pub point_rows : List (Point F) → List (List (Cell F))
  point_rows [] = []
  point_rows (p ∷ points) = point_row p ∷ point_rows points

  -- the header and the rows below it
  abbrev pub Sheet : Type 0
  Sheet = List (Cell F) × List (List (Cell F))

  unfoldable pub labelled_sheet : String → String → List (Series F) → Sheet
  unfolding wide_rows x_order series_headers
  labelled_sheet x_label y_label [] = (Cell.label x_label ∷ Cell.label y_label ∷ [], [])
  labelled_sheet x_label y_label (s ∷ []) =
      (Cell.label x_label ∷ Cell.label y_label ∷ [], point_rows s.points)
  labelled_sheet x_label y_label (s ∷ t ∷ series) = (
    Cell.label x_label ∷ series_headers 0 (s ∷ t ∷ series),
    wide_rows (s ∷ t ∷ series) (x_order [] (s ∷ t ∷ series)),
  )

  unfoldable pub chart_sheet : ChartData F → Sheet
  unfolding labelled_sheet
  chart_sheet chart =
      if str_eq chart.chart_type "pie"
      then (Cell.label "category" ∷ Cell.label "value" ∷ [], point_rows (all_points chart.series))
      else labelled_sheet (or_default chart.x_axis.label "x")
          (or_default chart.y_axis.label "value") chart.series

-- ===== src/Chart/Csv/Wide.antt =====
-- The table of a chart is rectangular, and loses no value in the wide form.
use unrender.Base.{
  ℕ, suc, ◌+◌, ◌≡◌, refl, Option, none, some, String, List, [], ◌∷◌, arith, if◌then◌else◌,
}
use unrender.Base.Lists.{length}
use unrender.Base.Table.{Table, lookup, put, lookup-put}
use package.text.Mathlib.Text.{◌==◌ as str_eq}
use unrender.Product.Schema.{string_key_eq}
use unrender.Chart.Data.{Point, Series}
use unrender.Chart.Csv.{
  Printer, Cell, x_key, mapping, cell, cells, series_headers, wide_rows, point_rows, labelled_sheet,
  Sheet,
}

module _ {F : Type 0} (print : Printer F) where
  -- Every row has this width.
  abbrev pub AllWide : ℕ → List (List (Cell F)) → Type 0
  AllWide n [] = Unit {0}
  AllWide n (row ∷ rows) = (length row ≡ n) × AllWide n rows

  pub point_rows-AllWide : (points : List (Point F)) → AllWide 2 (point_rows print points)
  point_rows-AllWide [] = tt
  point_rows-AllWide (p ∷ points) = (omega arith, point_rows-AllWide points)

  length-cells :
      (k : String) (series : List (Series F)) → length (cells print k series) ≡ length series
  unfolding cells
  length-cells k [] = refl
  length-cells k (s ∷ series) = omega (arith, length-cells k series)

  length-series_headers :
      (i : ℕ) (series : List (Series F)) → length (series_headers print i series) ≡ length series
  unfolding series_headers
  length-series_headers i [] = refl
  length-series_headers i (s ∷ series) = omega (arith, length-series_headers (i + 1) series)

  wide_rows-AllWide :
      (n : ℕ) (series : List (Series F)) (order : List String)
      → n ≡ suc (length series)
      → AllWide n (wide_rows print series order)
  unfolding wide_rows
  wide_rows-AllWide n series [] h = tt
  wide_rows-AllWide n series (k ∷ order) h =
      (omega (arith, length-cells k series), wide_rows-AllWide n series order h)

  abbrev pub IsRectangular : Sheet print → Type 0
  IsRectangular t = AllWide (length t.0) t.1

  pub labelled_sheet-IsRectangular :
      (x y : String) (series : List (Series F)) → IsRectangular (labelled_sheet print x y series)
  unfolding labelled_sheet
  labelled_sheet-IsRectangular x y [] = tt
  labelled_sheet-IsRectangular x y (s ∷ []) = point_rows-AllWide s.points
  labelled_sheet-IsRectangular x y (s ∷ t ∷ series) =
      wide_rows-AllWide _ (s ∷ t ∷ series) _
        (omega (arith, length-series_headers 0 (s ∷ t ∷ series)))

  -- The last y value that a series gives for a key.
  unfoldable pub last_value : String → List (Point F) → Option F
  last_value k [] = none
  last_value k (p ∷ points) = elim (last_value k points) [
    | some y ↦ some y
    | none ↦ if str_eq (x_key print p.x) k then some p.y else none
  ]

  abbrev pub or_else : Option F → Option F → Option F
  or_else (some y) o = some y
  or_else none o = o

  or_else-none : (o : Option F) → or_else o none ≡ o
  or_else-none none = refl
  or_else-none (some y) = refl

  lookup-mapping :
      (k : String) (m : Table String F) (points : List (Point F))
      → lookup k (mapping print m points) ≡ or_else (last_value k points) (lookup k m)
  unfolding mapping last_value
  lookup-mapping k m [] = refl
  lookup-mapping k m (p ∷ points) = ground (
    arith,
    lookup-mapping k (put (x_key print p.x) p.y m) points,
    lookup-put (x_key print p.x) k p.y m,
  )

  abbrev pub last_cells : String → List (Series F) → List (Cell F)
  last_cells k [] = []
  last_cells k (s ∷ series) = cell print (last_value k s.points) ∷ last_cells k series

  pub cells-last :
      (k : String) (series : List (Series F)) → cells print k series ≡ last_cells k series
  unfolding cells last_value lookup
  cells-last k [] = refl
  cells-last k (s ∷ series) =
      rw (lookup-mapping k [] s.points, or_else-none (last_value k s.points), cells-last k series)

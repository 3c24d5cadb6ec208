-- ===== src/Chart/Csv/Keys.antt =====
-- The x keys of the wide form, and what its rows show.
use unrender.Base.{
  ◌≡◌, refl, sym, ap, ◌∙◌, Bool, true, false, ◌||◌, ◌&&◌, not, String, List, [], ◌∷◌, ◌++◌, arith,
  Bool-cases, inl, inr,
}
use package.text.Mathlib.Text.{◌==◌ as str_eq}
use package.text.Mathlib.TextEquality.{eq_iff}
use unrender.Product.Schema.{string_key_eq}
use unrender.Chart.Data.{Point, Series, ChartData}
use unrender.Chart.Csv.{
  Printer, Cell, or_default, x_key, is_seen, add_key, collect_points, x_order, wide_rows,
  all_points, labelled_sheet, chart_sheet, Sheet,
}
use unrender.Chart.Csv.Wide.{
  IsRectangular, last_cells, cells-last, labelled_sheet-IsRectangular, point_rows-AllWide,
}

module _ {F : Type 0} (print : Printer F) where
  -- Whether a point of the chart has the key.
  abbrev pub has_key : String → List (Point F) → Bool
  has_key k [] = false
  has_key k (p ∷ points) = str_eq (x_key print p.x) k || has_key k points

  abbrev pub occurs : String → List (Series F) → Bool
  occurs k [] = false
  occurs k (s ∷ series) = has_key k s.points || occurs k series

  is_seen-append :
      (k j : String) (order : List String)
      → is_seen print (order ++ j ∷ []) k ≡ (is_seen print order k || str_eq j k)
  is_seen-append k j [] = ground arith
  is_seen-append k j (i ∷ order) = ground (arith, is_seen-append k j order)

  seen_eq :
      (k j : String) (order : List String)
      → str_eq j k ≡ true
      → is_seen print order j ≡ is_seen print order k
  seen_eq k j order h = ap (is_seen print order) ((eq_iff j k).0 h)

  is_seen-add_key :
      (k j : String) (order : List String)
      → is_seen print (add_key print order j) k ≡ (is_seen print order k || str_eq j k)
  is_seen-add_key k j order = elim (Bool-cases (is_seen print order j)) [
    | inl e ↦ ground (arith, e, seen_eq k j order)
    | inr e ↦ rw e (is_seen-append k j order)
  ]

  is_seen-collect :
      (k : String) (order : List String) (points : List (Point F))
      → is_seen print (collect_points print order points) k
        ≡ (is_seen print order k || has_key k points)
  unfolding collect_points
  is_seen-collect k order [] = ground arith
  is_seen-collect k order (p ∷ points) = ground (
    arith,
    is_seen-collect k (add_key print order (x_key print p.x)) points,
    is_seen-add_key k (x_key print p.x) order,
  )

  is_seen-x_order :
      (k : String) (order : List String) (series : List (Series F))
      → is_seen print (x_order print order series) k ≡ (is_seen print order k || occurs k series)
  unfolding x_order
  is_seen-x_order k order [] = ground arith
  is_seen-x_order k order (s ∷ series) = ground (
    arith,
    is_seen-x_order k (collect_points print order s.points) series,
    is_seen-collect k order s.points,
  )

  unfoldable pub is_distinct : List String → Bool
  is_distinct [] = true
  is_distinct (k ∷ order) = not (is_seen print order k) && is_distinct order

  is_distinct-append :
      (j : String) (order : List String)
      → is_distinct order ≡ true
      → is_seen print order j ≡ false
      → is_distinct (order ++ j ∷ []) ≡ true
  unfolding is_distinct
  is_distinct-append j [] h p = refl
  is_distinct-append j (k ∷ order) h p =
      ground (arith, is_distinct-append j order, is_seen-append k j order, eq_iff j k, eq_iff k j)

  is_distinct-add_key :
      (order : List String) (j : String)
      → is_distinct order ≡ true
      → is_distinct (add_key print order j) ≡ true
  is_distinct-add_key order j h = elim (Bool-cases (is_seen print order j)) [
    | inl e ↦ rw e h
    | inr e ↦ rw e (is_distinct-append j order h e)
  ]

  is_distinct-collect :
      (order : List String) (points : List (Point F))
      → is_distinct order ≡ true
      → is_distinct (collect_points print order points) ≡ true
  unfolding collect_points
  is_distinct-collect order [] h = h
  is_distinct-collect order (p ∷ points) h =
      is_distinct-collect (add_key print order (x_key print p.x)) points
        (is_distinct-add_key order (x_key print p.x) h)

  is_distinct-x_order :
      (order : List String) (series : List (Series F))
      → is_distinct order ≡ true
      → is_distinct (x_order print order series) ≡ true
  unfolding x_order
  is_distinct-x_order order [] h = h
  is_distinct-x_order order (s ∷ series) h =
      is_distinct-x_order (collect_points print order s.points) series
        (is_distinct-collect order s.points h)

-- The rows of keys and cells.
abbrev pub rows_of : {F : Type 0} → Printer F → List (Series F) → List String → List (List (Cell F))
rows_of print series [] = []
rows_of print series (k ∷ order) =
    (Cell.label k ∷ last_cells print k series) ∷ rows_of print series order

wide_rows-rows_of :
    {F : Type 0} (print : Printer F) (series : List (Series F)) (order : List String)
    → wide_rows print series order ≡ rows_of print series order
unfolding wide_rows
wide_rows-rows_of print series [] = refl
wide_rows-rows_of print series (k ∷ order) =
    rw (cells-last print k series, wide_rows-rows_of print series order)

labelled-sheet :
    {F : Type 0} (print : Printer F) (chart : ChartData F)
    → str_eq chart.chart_type "pie" ≡ false
    → chart_sheet print chart
      ≡ labelled_sheet print
          (or_default chart.x_axis.label "x")
          (or_default chart.y_axis.label "value")
          chart.series
unfolding chart_sheet
labelled-sheet print chart h = rw h

distinct-none : {F : Type 0} (print : Printer F) → is_distinct print [] ≡ true
unfolding is_distinct
distinct-none print = refl

wide_sheet :
    {F : Type 0} (print : Printer F) (x y : String) (s t : Series F) (series all : List (Series F))
    → all ≡ s ∷ t ∷ series
    → (labelled_sheet print x y all).1 ≡ wide_rows print all (x_order print [] all)
unfolding labelled_sheet
wide_sheet print x y s t series all p =
    ap (λ l. (labelled_sheet print x y l).1) p
    ∙ ap (λ l. wide_rows print l (x_order print [] l)) (sym p)

-- The table of every chart is rectangular: each row has as many cells as the header.
pub chart_sheet-IsRectangular :
    {F : Type 0} (print : Printer F) (chart : ChartData F)
    → IsRectangular print (chart_sheet print chart)
unfolding chart_sheet
chart_sheet-IsRectangular print chart = elim (Bool-cases (str_eq chart.chart_type "pie")) [
  | inl e ↦ rw e (point_rows-AllWide print (all_points print chart.series))
  | inr e ↦ rw e (
      labelled_sheet-IsRectangular print (or_default chart.x_axis.label "x")
        (or_default chart.y_axis.label "value") chart.series)
]

-- A chart that is no pie and has two series or more is written with one row for each x key of its points: the keys
-- stand once each, a key has a row exactly if a point of the chart has it, and below each series
-- its row shows the last y value that the series gives for the key, or the empty text if there is
-- none.
pub chart_sheet-wide :
    {F : Type 0} (print : Printer F) (chart : ChartData F) (s t : Series F)
    (series : List (Series F))
    → str_eq chart.chart_type "pie" ≡ false
    → chart.series ≡ s ∷ t ∷ series
    → (order : List String) × ((chart_sheet print chart).1 ≡ rows_of print chart.series order)
      × (is_distinct print order ≡ true)
      × ((k : String) → is_seen print order k ≡ occurs print k chart.series)
chart_sheet-wide print chart s t series h p = (
  x_order print [] chart.series,
  ap (λ (x : Sheet print). x.1) (labelled-sheet print chart h)
      ∙ wide_sheet print _ _ s t series chart.series p
      ∙ wide_rows-rows_of print chart.series (x_order print [] chart.series),
  is_distinct-x_order print [] chart.series (distinct-none print),
  λ k. is_seen-x_order print k [] chart.series,
)

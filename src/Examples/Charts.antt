-- ===== src/Examples/Charts.antt =====
-- The theorems on charts, at a small table that a model has wrapped in prose.
use unrender.Product.Review.Validated.{Encoder}
use unrender.Product.Review.Exported.Complete.{rest}
use unrender.Product.Review.Exported.{rows_of as rows_of_points}
use Prim.Native.Char.{code}
use unrender.Base.{
  ℕ, ◌≡◌, ◌≢◌, refl, true, ◌&&◌, none, some, String, List, [], ◌∷◌, ◌++◌, ◌==◌, leb, if◌then◌else◌,
}
use unrender.Chart.Data.{Axis, Position, Point, ChartData}
use unrender.Chart.Json.{
  Json, Items, Members, pairs, get, canonical_fields, keys, keys_within, one_of, point_fits,
  series_fits,
}
use unrender.Chart.Json.Pairs.{are_distinct, pairs-distinct}
use unrender.Chart.Repair.{
  Text, Unicode, Mode, strip, lstrip, rstrip, repair_json, complete_object, find_brace, balanced,
  remove_commas, closes_next, any_of,
}
use unrender.Chart.Repair.Extracted.{Nested, Quoted, object_of}
use unrender.Chart.Parse.{
  Code, Loaded, Decoder, decoded, undecodable, strict_json, text_eq, parse_chart_json,
  syntax_repaired,
}
use unrender.Chart.Parse.Answers.{Explains, parse_chart_json-Explains}
use unrender.Chart.Repair.Commas.{Closes, Trimmed}
use unrender.Chart.Parse.Recovered.{parse_chart_json-recovers}
use unrender.Chart.Csv.{Printer, chart_sheet, is_seen}
use unrender.Chart.Csv.Wide.{IsRectangular}
use unrender.Chart.Csv.Keys.{
  chart_sheet-IsRectangular, chart_sheet-wide, rows_of, is_distinct, occurs,
}

abbrev codes : String → Text
codes String.[] = []
codes (String.◌∷◌ c t) = code c ∷ codes t

abbrev ascii : Unicode
ascii = record { isspace = λ c. c == b' '; mentions_value = any_of (λ c. leb b'0' c && leb c b'9') }

-- A brace and an escaped quote stand inside the string, a comma between two elements, and a comma
-- before the closing brace.
abbrev inner : Text
inner = codes "\"}\\\"\":[1,2] , "

abbrev answer : Text
answer = codes " Table: {\"}\\\"\":[1,2] , } done. "

abbrev mended : Text
mended = codes "{\"}\\\"\":[1,2]  }"

abbrev point : Json
point =
    Json.object
      (Members.member "x" (Json.text "a") (Members.member "y" (Json.number "1") Members.no_member))

abbrev table : Json
table = Json.object (
    Members.member "chart_type" (Json.text "bar") (
      Members.member "series"
        (Json.array (
          Items.item
            (Json.object (
              Members.member "points" (Json.array (Items.item point Items.no_item))
                Members.no_member))
            Items.no_item))
        Members.no_member))

abbrev no_axis : Axis
no_axis = record { label = none; unit = none }

abbrev at : String → ℕ → Point ℕ
at x y = record { x = Position.category x; y = y }

abbrev bar : ChartData ℕ
bar = record {
  chart_type = "bar";
  title = none;
  x_axis = no_axis;
  y_axis = no_axis;
  series = record { name = none; points = at "a" 1 ∷ [] } ∷ [];
}

-- A decoder that knows the mended table only.
abbrev decoder : Decoder ℕ
decoder = record {
  loads = λ hook t. if text_eq t mended then Loaded.value table else Loaded.value_error;
  validate = λ v. some bar;
}

pairs-distinct_example :
    pairs (Members.member "a" Json.null (Members.member "a" Json.null Members.no_member)) ≡ none
unfolding are_distinct get
pairs-distinct_example =
    pairs-distinct (Members.member "a" Json.null (Members.member "a" Json.null Members.no_member))

parse_chart_json-Explains_example :
    ((chart : ChartData ℕ) (errors : List Code)
      → parse_chart_json ascii decoder answer ≡ (some chart, errors)
      → Explains ascii decoder answer chart errors)
    × ((parse_chart_json ascii decoder answer).0 ≡ none
        → (parse_chart_json ascii decoder answer).1 ≢ [])
parse_chart_json-Explains_example = parse_chart_json-Explains ascii decoder answer

answer_stripped : strip ascii answer ≡ codes "Table: " ++ (object_of inner ++ codes " done.")
unfolding strip lstrip rstrip
answer_stripped = refl

inner-Nested : Nested inner
inner-Nested =
    Nested.quoted {s = codes "}\\\"\""} {t = codes ":[1,2] , "}
      (Quoted.char b'}' refl refl (Quoted.escape b'"' Quoted.close))
      (Nested.plain b':' refl (
        Nested.brackets {s = codes "1,2"} {t = codes " , "}
          (Nested.plain b'1' refl (Nested.plain b',' refl (Nested.plain b'2' refl Nested.nil)))
          (Nested.plain b' ' refl (Nested.plain b',' refl (Nested.plain b' ' refl Nested.nil)))))

not_closing : ¬ Closes ascii (codes "2] , }")
not_closing (Closes.closing c solid closed) = cc (closed)
not_closing (Closes.space c space rest) = cc (space)

inner-Trimmed : Trimmed ascii Mode.outside (object_of inner) mended
inner-Trimmed = Trimmed.other b'{' refl (
    Trimmed.other b'"' refl (
      Trimmed.in_text b'}' (λ p. cc (p))
        (Trimmed.in_text b'\\' (λ p. cc (p))
          (Trimmed.in_text b'"' (λ p. cc (p))
            (Trimmed.in_text b'"' (λ p. cc (p))
              (Trimmed.other b':' refl (
                Trimmed.other b'[' refl (
                  Trimmed.other b'1' refl (
                    Trimmed.between not_closing (
                      Trimmed.other b'2' refl (
                        Trimmed.other b']' refl (
                          Trimmed.other b' ' refl (
                            Trimmed.trailing
                              (Closes.space b' ' refl (Closes.closing b'}' refl refl))
                              (Trimmed.other b' ' refl
                                (Trimmed.other b'}' refl Trimmed.done)))))))))))))))

parse_chart_json-recovers_example :
    (repair_json ascii answer ≡ mended)
    × (strict_json ascii decoder answer ≡ undecodable
        → strict_json ascii decoder (strip ascii answer) ≡ undecodable
        → strict_json ascii decoder mended ≡ decoded table
        → canonical_fields table ≡ true
        → some bar ≡ some bar
        → parse_chart_json ascii decoder answer ≡ (some bar, syntax_repaired ∷ []))
parse_chart_json-recovers_example =
    parse_chart_json-recovers ascii decoder answer (codes "Table: ") inner (codes " done.") mended
      table bar answer_stripped inner-Nested refl refl inner-Trimmed

-- The whole of it runs: the string is kept and the last comma is gone.
answer_parsed : parse_chart_json ascii decoder answer ≡ (some bar, syntax_repaired ∷ [])
unfolding parse_chart_json strict_json strip lstrip rstrip repair_json complete_object find_brace
    balanced remove_commas closes_next text_eq canonical_fields keys keys_within one_of point_fits
    series_fits get
answer_parsed = refl

abbrev plain_printer : Printer ℕ
plain_printer = record {
  is_integer = λ x. true;
  str_int = λ x. "0";
  str_float = λ x. "0.0";
  str_index = λ i. "1";
}

-- The key "a" stands twice in the first series.
abbrev lines : ChartData ℕ
lines = record bar {
  chart_type = "multi_line";
  series =
      record { name = some "one"; points = at "a" 1 ∷ at "b" 2 ∷ at "a" 3 ∷ [] }
      ∷ record { name = none; points = at "c" 4 ∷ [] }
      ∷ [];
}

chart_sheet-IsRectangular_example : IsRectangular plain_printer (chart_sheet plain_printer lines)
chart_sheet-IsRectangular_example = chart_sheet-IsRectangular plain_printer lines

chart_sheet-wide_example :
    (order : List String) × ((chart_sheet plain_printer lines).1
      ≡ rows_of plain_printer lines.series order)
    × (is_distinct plain_printer order ≡ true)
    × ((k : String) → is_seen plain_printer order k ≡ occurs plain_printer k lines.series)
chart_sheet-wide_example =
    chart_sheet-wide plain_printer lines
      (record { name = some "one"; points = at "a" 1 ∷ at "b" 2 ∷ at "a" 3 ∷ [] })
      (record { name = none; points = at "c" 4 ∷ [] }) [] refl refl

abbrev json_size : Encoder ℕ
json_size = record { isfinite = λ x. true; dump_json = λ chart. "{}" }

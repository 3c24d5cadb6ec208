-- ===== src/Product/Review/Validated.antt =====
-- The limits on an edited chart: `_validate_product_chart` of unrender/product/service.py.
use Prim.Native.String.{len, count as char_count}
use unrender.Base.{
  ℕ, ◌+◌, Bool, true, ◌&&◌, Option, none, some, String, List, [], ◌∷◌, leb, if◌then◌else◌,
}
use unrender.Base.Lists.{length}
use unrender.Product.Settings.{Settings}
use unrender.Product.Tx.{Tx}
use unrender.Product.Storage.{Disk}
use unrender.Product.Review.Snapshot.{Codec, Snapshot}
use unrender.Product.Review.Corrections.{save_correction}
use unrender.Chart.Data.{Position, Point, Series, ChartData}
use unrender.Chart.Json.{one_of, chart_types}

-- `math.isfinite` and `model_dump_json`
pub record Encoder (F : Type 0) : Type 0 where
  pub isfinite : F → Bool
  pub dump_json : ChartData F → String

-- `value is not None and len(value) > 500` fails
abbrev pub label_fits : Option String → Bool
label_fits none = true
label_fits (some text) = leb (char_count text) 500

module _ {F : Type 0} (enc : Encoder F) where
  unfoldable pub point_count : List (Series F) → ℕ
  point_count [] = 0
  point_count (s ∷ series) = length s.points + point_count series

  abbrev pub names_fit : List (Series F) → Bool
  names_fit [] = true
  names_fit (s ∷ series) = label_fits s.name && names_fit series

  abbrev pub position_fits : Position F → Bool
  position_fits (Position.category text) = leb (char_count text) 500
  position_fits (Position.coordinate x) = enc.isfinite x

  abbrev pub points_fit : List (Point F) → Bool
  points_fit [] = true
  points_fit (p ∷ points) = enc.isfinite p.y && position_fits p.x && points_fit points

  abbrev pub values_fit : List (Series F) → Bool
  values_fit [] = true
  values_fit (s ∷ series) = points_fit s.points && values_fit series

  -- false where the source raises a ValueError
  unfoldable pub validate_product_chart : Settings → ChartData F → Bool
  unfolding point_count one_of
  validate_product_chart s chart =
      one_of chart_types chart.chart_type
      && leb 1 (length chart.series)
      && leb (length chart.series) 50
      && leb 1 (point_count chart.series)
      && leb (point_count chart.series) 10000
      && label_fits chart.title
      && label_fits chart.x_axis.label
      && label_fits chart.x_axis.unit
      && label_fits chart.y_axis.label
      && label_fits chart.y_axis.unit
      && names_fit chart.series
      && values_fit chart.series
      && leb (len (enc.dump_json chart)) s.max_result_json_bytes

  -- the encoded chart, where `ChartData.model_validate` has accepted the table of the request
  unfoldable pub encoded_chart : Settings → Option (ChartData F) → Option String
  unfolding validate_product_chart
  encoded_chart s none = none
  encoded_chart s (some chart) =
      if validate_product_chart s chart then some (enc.dump_json chart) else none

  -- `save_correction` on the table of a request
  unfoldable pub save_chart :
      Codec → Settings → Disk → ℕ → ℕ → ℕ → ℕ → ℕ → Option (ChartData F) → String → Tx Snapshot
  unfolding encoded_chart
  save_chart c s disk ident version_id now u k parsed expected =
      save_correction c s disk ident version_id now u k (encoded_chart s parsed) expected

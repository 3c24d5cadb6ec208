-- ===== src/Chart/Parse.antt =====
-- `strict_json` and `parse_chart_json` of unrender/schema/validate.py. Python's JSON decoder and
-- the strict validation of `ChartData` are parameters.
pub mod Answers
pub mod Recovered
use unrender.Base.{
  ℕ, Bool, true, false, ◌&&◌, Option, none, some, String, List, [], ◌∷◌, ◌==◌, if◌then◌else◌,
}
use unrender.Chart.Repair.{Text, Unicode, strip, repair_json}
use unrender.Chart.Json.{Json, Members, pairs, canonical_fields}
use unrender.Chart.Data.{ChartData}

-- The fixed diagnostic codes.
pub data Code : Type 0 where
  empty_output duplicate_json_key nonfinite_json_constant json_nesting_too_deep : Code
  invalid_json syntax_repaired invalid_chart_structure invalid_chart_values : Code

-- How `json.loads` ends: with a value, with one of the two hooks that raise, with a RecursionError,
-- or with a ValueError of its own.
pub data Loaded : Type 0 where
  value : Json → Loaded
  duplicate constant recursion value_error : Loaded

-- What `strict_json` returns, or raises: an InvalidJSON with its code, or another ValueError.
pub data Decoded : Type 0 where
  decoded : Json → Decoded
  invalid : Code → Decoded
  undecodable : Decoded

-- `json.loads` with an `object_pairs_hook`, and `ChartData.model_validate(obj, strict=True)`
pub record Decoder (F : Type 0) : Type 0 where
  pub loads : (Members → Option Members) → Text → Loaded
  pub validate : Json → Option (ChartData F)

-- `==` on texts
unfoldable pub text_eq : Text → Text → Bool
text_eq [] [] = true
text_eq (c ∷ s) (e ∷ t) = c == e && text_eq s t
text_eq _ _ = false

module _ {F : Type 0} (py : Unicode) (dec : Decoder F) where
  unfoldable pub strict_json : Text → Decoded
  strict_json raw = elim (dec.loads pairs raw) [
    | Loaded.value v ↦ decoded v
    | Loaded.duplicate ↦ invalid duplicate_json_key
    | Loaded.constant ↦ invalid nonfinite_json_constant
    | Loaded.recursion ↦ invalid json_nesting_too_deep
    | Loaded.value_error ↦ undecodable
  ]

  abbrev pub Answer : Type 0
  Answer = Option (ChartData F) × List Code

  abbrev pub append_code : List Code → Code → List Code
  append_code [] x = x ∷ []
  append_code (y ∷ ys) x = y ∷ append_code ys x

  -- the last two checks, on a decoded value
  unfoldable pub check_chart : List Code → Json → Answer
  check_chart errors obj =
      if canonical_fields obj
      then elim (dec.validate obj) [
        | none ↦ (none, append_code errors invalid_chart_values)
        | some chart ↦ (some chart, errors)
      ]
      else (none, append_code errors invalid_chart_structure)

  -- the second attempt, on the repaired text
  unfoldable pub check_repaired : Decoded → Answer
  unfolding check_chart
  check_repaired (decoded obj) = check_chart (syntax_repaired ∷ []) obj
  check_repaired (invalid x) = (none, x ∷ [])
  check_repaired undecodable = (none, invalid_json ∷ [])

  unfoldable pub check_raw : Text → Decoded → Answer
  unfolding check_chart check_repaired strict_json
  check_raw raw (decoded obj) = check_chart [] obj
  check_raw raw (invalid x) = (none, x ∷ [])
  check_raw raw undecodable =
      if text_eq (repair_json py raw) (strip py raw)
      then (none, invalid_json ∷ [])
      else check_repaired (strict_json (repair_json py raw))

  -- `not raw.strip()`, and the attempts
  abbrev pub parse_stripped : Text → Text → Answer
  parse_stripped raw [] = (none, empty_output ∷ [])
  parse_stripped raw (c ∷ t) = check_raw raw (strict_json raw)

  unfoldable pub parse_chart_json : Text → Answer
  unfolding check_raw strict_json
  parse_chart_json raw = parse_stripped raw (strip py raw)

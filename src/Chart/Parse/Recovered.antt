-- ===== src/Chart/Parse/Recovered.antt =====
-- A table that a model wraps in prose, or writes with trailing commas, is recovered.
use unrender.Base.{
  ◌≡◌, refl, ap, ◌∙◌, true, false, some, [], ◌∷◌, ◌++◌, arith, Bool-cases, inl, inr,
}
use unrender.Chart.Data.{ChartData}
use unrender.Chart.Json.{Json, canonical_fields}
use unrender.Chart.Repair.{
  Text, Unicode, Mode, strip, repair_json, remove_commas, complete_object, ambiguous_prefix,
  ambiguous_suffix,
}
use unrender.Chart.Repair.Commas.{Trimmed, remove_commas-Trimmed}
use unrender.Chart.Repair.Extracted.{Nested, object_of, complete_object-lem}
use unrender.Chart.Parse.{
  syntax_repaired, Decoder, decoded, undecodable, strict_json, check_chart, check_repaired,
  check_raw, parse_chart_json, parse_stripped, text_eq,
}

text_eq-true : (s t : Text) → text_eq s t ≡ true → s ≡ t
unfolding text_eq
text_eq-true [] [] h = refl
text_eq-true [] (c ∷ t) h = absurd (cc (h))
text_eq-true (c ∷ s) [] h = absurd (cc (h))
text_eq-true (c ∷ s) (e ∷ t) h =
    let same : s ≡ t = text_eq-true s t (ground (arith, h)) in
    let first : c ≡ e = ground (arith, h) in cc (same, first)

module _ {F : Type 0} (py : Unicode) (dec : Decoder F) (raw prefix s suffix clean : Text)
    (inside : strip py raw ≡ prefix ++ (object_of s ++ suffix)) (balanced : Nested s)
    (prose : ambiguous_prefix py prefix ≡ false) (rest : ambiguous_suffix py suffix ≡ false)
    (trimmed : Trimmed py Mode.outside (object_of s) clean) where
  repaired : repair_json py raw ≡ clean
  unfolding repair_json
  repaired =
      ap (remove_commas py Mode.outside) (
        ap (complete_object py) inside ∙ complete_object-lem py prefix s suffix balanced prose rest)
      ∙ remove_commas-Trimmed py trimmed

  nonempty :
      (t u : Text)
      → parse_stripped py dec raw (t ++ (b'{' ∷ u)) ≡ check_raw py dec raw (strict_json py dec raw)
  nonempty [] u = refl
  nonempty (c ∷ t) u = refl

  attempted : parse_chart_json py dec raw ≡ check_raw py dec raw (strict_json py dec raw)
  unfolding parse_chart_json
  attempted = ap (parse_stripped py dec raw) inside ∙ nonempty prefix _

  module _ (obj : Json) (chart : ChartData F)
      (stripped : strict_json py dec (strip py raw) ≡ undecodable)
      (strict : strict_json py dec clean ≡ decoded obj) (canonical : canonical_fields obj ≡ true)
      (valid : dec.validate obj ≡ some chart) where
    changed : text_eq (repair_json py raw) (strip py raw) ≡ false
    changed = elim (Bool-cases (text_eq (repair_json py raw) (strip py raw))) [
      | inl e ↦ absurd (
          cc (
            ap (strict_json py dec) (text_eq-true (repair_json py raw) (strip py raw) e),
            ap (strict_json py dec) repaired,
            stripped,
            strict,
          ))
      | inr e ↦ e
    ]

    checked : check_chart py dec (syntax_repaired ∷ []) obj ≡ (some chart, syntax_repaired ∷ [])
    unfolding check_chart
    checked = rw (canonical, valid) refl

    recovered-run : check_raw py dec raw undecodable ≡ (some chart, syntax_repaired ∷ [])
    unfolding check_raw check_repaired
    recovered-run = rw (changed, repaired, strict) checked

-- If the stripped output is one object with matching braces between two pieces of prose that hold no
-- delimiter and no value, and `clean` is that object without its trailing commas (each comma outside
-- strings that white space and a closing brace or bracket follow) and with every other character,
-- then the repaired text is `clean`. If moreover neither the output nor its stripped form decodes,
-- and `clean` decodes to an object of canonical fields that validates, then the parser returns the
-- validated chart with the one diagnostic syntax_repaired.
pub parse_chart_json-recovers :
    {F : Type 0} (py : Unicode) (dec : Decoder F) (raw prefix s suffix clean : Text) (obj : Json)
    (chart : ChartData F)
    → strip py raw ≡ prefix ++ (object_of s ++ suffix)
    → Nested s
    → ambiguous_prefix py prefix ≡ false
    → ambiguous_suffix py suffix ≡ false
    → Trimmed py Mode.outside (object_of s) clean
    → (repair_json py raw ≡ clean)
      × (strict_json py dec raw ≡ undecodable
          → strict_json py dec (strip py raw) ≡ undecodable
          → strict_json py dec clean ≡ decoded obj
          → canonical_fields obj ≡ true
          → dec.validate obj ≡ some chart
          → parse_chart_json py dec raw ≡ (some chart, syntax_repaired ∷ []))
parse_chart_json-recovers py dec raw prefix s suffix clean obj chart inside balanced prose rest
      trimmed =
    (
      repaired py dec raw prefix s suffix clean inside balanced prose rest trimmed,
      λ refused stripped strict canonical valid.
          attempted py dec raw prefix s suffix clean inside balanced prose rest trimmed
          ∙ ap (check_raw py dec raw) refused
          ∙ recovered-run py dec raw prefix s suffix clean inside balanced prose rest trimmed obj
              chart stripped strict canonical valid,
    )

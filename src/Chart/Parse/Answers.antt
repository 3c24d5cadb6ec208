-- ===== src/Chart/Parse/Answers.antt =====
-- What an answer of the parser means, and the recovery of an object from prose.
use unrender.Base.{
  ◌≡◌, ◌≢◌, ◌⊎◌, inl, inr, refl, true, none, some, List, [], ◌∷◌, arith, Bool-cases, Option-cases,
}
use unrender.Chart.Data.{ChartData}
use unrender.Chart.Json.{Json, canonical_fields}
use unrender.Chart.Repair.{Text, Unicode, strip, repair_json}
use unrender.Chart.Parse.{
  Code, syntax_repaired, Decoder, Decoded, decoded, invalid, undecodable, strict_json, Answer,
  check_chart, check_repaired, check_raw, parse_chart_json, parse_stripped, append_code,
  invalid_chart_values, invalid_chart_structure, text_eq,
}

pub text_eq_iff-left : (s t : Text) → text_eq s t ≡ true → s ≡ t
unfolding text_eq
text_eq_iff-left [] [] h = refl
text_eq_iff-left [] (c ∷ t) h = absurd (cc)
text_eq_iff-left (c ∷ s) [] h = absurd (cc)
text_eq_iff-left (c ∷ s) (e ∷ t) h = ground (arith, text_eq_iff-left s t)

module _ {F : Type 0} (py : Unicode) (dec : Decoder F) where
  -- A chart is the validated value of a text that the strict decoder accepts.
  pub record IsDecoded (text : Text) (chart : ChartData F) : Type 0 where
    pub obj : Json
    pub strict : strict_json py dec text ≡ decoded obj
    pub canonical : canonical_fields obj ≡ true
    pub valid : dec.validate obj ≡ some chart

  -- What a returned chart says of the raw output, by the diagnostics beside it.
  abbrev pub Explains : Text → ChartData F → List Code → Type 0
  Explains raw chart errors =
      ((errors ≡ []) × IsDecoded raw chart)
      ⊎ ((errors ≡ syntax_repaired ∷ [])
          × (strict_json py dec raw ≡ undecodable)
          × IsDecoded (repair_json py raw) chart)

  check_chart-some :
      (errors : List Code) (obj : Json) (chart : ChartData F) (found : List Code)
      → check_chart py dec errors obj ≡ (some chart, found)
      → (found ≡ errors) × (canonical_fields obj ≡ true) × (dec.validate obj ≡ some chart)
  unfolding check_chart
  check_chart-some errors obj chart found h = elim (Bool-cases (canonical_fields obj)) [
    | inl e ↦ elim (Option-cases (dec.validate obj)) [
      | inl n ↦ absurd (ground (arith, e, n))
      | inr (a, p) ↦ ground (arith, e, p)
    ]
    | inr e ↦ absurd (ground (arith, e))
  ]

  check_chart-decoded :
      (text : Text) (errors : List Code) (obj : Json) (chart : ChartData F) (found : List Code)
      → strict_json py dec text ≡ decoded obj
      → check_chart py dec errors obj ≡ (some chart, found)
      → (found ≡ errors) × IsDecoded text chart
  check_chart-decoded text errors obj chart found s h =
      let (a, b, d) = check_chart-some errors obj chart found h in
      (a, record { obj = obj; strict = s; canonical = b; valid = d })

  check_repaired-decoded :
      (text : Text) (r : Decoded) (chart : ChartData F) (found : List Code)
      → strict_json py dec text ≡ r
      → check_repaired py dec r ≡ (some chart, found)
      → (found ≡ syntax_repaired ∷ []) × IsDecoded text chart
  unfolding check_repaired
  check_repaired-decoded text (decoded obj) chart found s h =
      check_chart-decoded text (syntax_repaired ∷ []) obj chart found s h
  check_repaired-decoded text (invalid x) chart found s h = absurd (ground arith)
  check_repaired-decoded text undecodable chart found s h = absurd (ground arith)

  check_raw-Explains :
      (raw : Text) (r : Decoded) (chart : ChartData F) (found : List Code)
      → strict_json py dec raw ≡ r
      → check_raw py dec raw r ≡ (some chart, found)
      → Explains raw chart found
  unfolding check_raw
  check_raw-Explains raw (decoded obj) chart found s h =
      inl (check_chart-decoded raw [] obj chart found s h)
  check_raw-Explains raw (invalid x) chart found s h = absurd (ground arith)
  check_raw-Explains raw undecodable chart found s h =
      elim (Bool-cases (text_eq (repair_json py raw) (strip py raw))) [
        | inl e ↦ absurd (ground (arith, e))
        | inr e ↦
            let (a, b) =
              check_repaired-decoded (repair_json py raw) _ chart found refl (rw e at h) in
            inr (a, s, b)
      ]

  parsed-Explains :
      (raw stripped : Text) (chart : ChartData F) (found : List Code)
      → parse_stripped py dec raw stripped ≡ (some chart, found)
      → Explains raw chart found
  parsed-Explains raw [] chart found h = absurd (ground arith)
  parsed-Explains raw (c ∷ t) chart found h = check_raw-Explains raw _ chart found refl h

  append_code-ne_nil : (errors : List Code) (x : Code) → append_code py dec errors x ≢ []
  append_code-ne_nil [] x h = absurd (cc)
  append_code-ne_nil (y ∷ ys) x h = absurd (cc)

  -- An answer without a chart has a diagnostic.
  abbrev pub IsExplained : Answer py dec → Type 0
  IsExplained a = a.0 ≡ none → a.1 ≢ []

  check_chart-IsExplained :
      (errors : List Code) (obj : Json) → IsExplained (check_chart py dec errors obj)
  unfolding check_chart
  check_chart-IsExplained errors obj = elim (Bool-cases (canonical_fields obj)) [
    | inl e ↦ elim (Option-cases (dec.validate obj)) [
      | inl n ↦ rw (e, n) (λ h. append_code-ne_nil errors invalid_chart_values)
      | inr (a, p) ↦ rw (e, p) (λ h. absurd (cc))
    ]
    | inr e ↦ rw e (λ h. append_code-ne_nil errors invalid_chart_structure)
  ]

  check_repaired-IsExplained : (r : Decoded) → IsExplained (check_repaired py dec r)
  unfolding check_repaired
  check_repaired-IsExplained (decoded obj) = check_chart-IsExplained (syntax_repaired ∷ []) obj
  check_repaired-IsExplained (invalid x) = λ h p. absurd (cc)
  check_repaired-IsExplained undecodable = λ h p. absurd (cc)

  check_raw-IsExplained : (raw : Text) (r : Decoded) → IsExplained (check_raw py dec raw r)
  unfolding check_raw
  check_raw-IsExplained raw (decoded obj) = check_chart-IsExplained [] obj
  check_raw-IsExplained raw (invalid x) = λ h p. absurd (cc)
  check_raw-IsExplained raw undecodable =
      elim (Bool-cases (text_eq (repair_json py raw) (strip py raw))) [
        | inl e ↦ rw e (λ h p. absurd (cc))
        | inr e ↦ rw e (check_repaired-IsExplained _)
      ]

  parsed-IsExplained : (raw stripped : Text) → IsExplained (parse_stripped py dec raw stripped)
  parsed-IsExplained raw [] = λ h p. absurd (cc)
  parsed-IsExplained raw (c ∷ t) = check_raw-IsExplained raw _

-- A chart is returned in two cases only. With no diagnostics it is the validated value of the raw output; with
-- syntax_repaired alone the raw output does not decode, and it is the validated value of the
-- repaired output. In both cases the value has the canonical fields. An answer with no chart has
-- at least one diagnostic.
pub parse_chart_json-Explains :
    {F : Type 0} (py : Unicode) (dec : Decoder F) (raw : Text)
    → ((chart : ChartData F) (errors : List Code)
        → parse_chart_json py dec raw ≡ (some chart, errors)
        → Explains py dec raw chart errors)
      × ((parse_chart_json py dec raw).0 ≡ none → (parse_chart_json py dec raw).1 ≢ [])
unfolding parse_chart_json
parse_chart_json-Explains py dec raw = (
  λ chart errors h. parsed-Explains py dec raw (strip py raw) chart errors h,
  parsed-IsExplained py dec raw (strip py raw),
)

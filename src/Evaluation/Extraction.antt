-- ===== src/Evaluation/Extraction.antt =====
-- src/claim_triage/evaluation/scoring.py: the fields of the extraction set.
pub mod Micro
use Prim.Native.String.{◌++◌ as str_append}
use claim_triage_agent.Common.{
  ℕ, ◌+◌, Bool, true, false, String, Option, none, some, List, [], ◌∷◌, length, empty, ◌++◌, not,
  ◌==◌, nat_equality, string_equality, if◌then◌else◌,
}
use claim_triage_agent.Floats.{Floats}
use claim_triage_agent.Dict.{Dict, get, put, keys, sorted}
use claim_triage_agent.Evaluation.Measurements.{Capability, Measurement, Reading}
use claim_triage_agent.Evaluation.Metrics.{
  Counts, no_counts, add_counts, Scalar, Texts, field_counts, count_in, label_counts, precision,
  recall, f1, macro_average, average_precision,
}
use claim_triage_agent.Evaluation.Ranks.{ClauseRef, hit_at, reciprocal_rank, citation_counts}
use claim_triage_agent.Evaluation.Cases.{
  ExtractionCase, RetrievalCase, ClassificationCase, GoldenSet, Sets, RetrievalAnswer,
  ClassificationAnswer, Answers,
}
use claim_triage_agent.Evaluation.Readings.{one_if, is_some, scored, unread, answered_in}

-- `field_metric`
unfoldable pub field_metric : String → String
field_metric field = str_append "extraction.field." (str_append field ".f1")

abbrev pub or_empty : {A : Type 0} → Option (List A) → List A
or_empty none = []
or_empty (some xs) = xs

module _ {D : Type 0} (texts : Texts D) where
  -- {name: Counts() for case in cases for name in case.fields}
  unfoldable pub start_fields : Dict Scalar → Dict Counts → Dict Counts
  unfolding put
  start_fields [] per_field = per_field
  start_fields (f ∷ fields) per_field = start_fields fields (put f.0 no_counts per_field)

  unfoldable pub start_cases : List ExtractionCase → Dict Counts → Dict Counts
  unfolding start_fields
  start_cases [] per_field = per_field
  start_cases (c ∷ cases) per_field = start_cases cases (start_fields c.fields per_field)

  -- for name in case.fields: per_field[name] += ...
  unfoldable pub tally_fields : Dict Scalar → Dict Scalar → Dict Counts → Dict Counts
  unfolding count_in field_counts
  tally_fields [] predicted per_field = per_field
  tally_fields (f ∷ fields) predicted per_field =
      tally_fields fields predicted (count_in f.0 (field_counts texts (f ∷ []) predicted) per_field)

  unfoldable pub tally_cases : List ExtractionCase → Dict (Dict Scalar) → Dict Counts → Dict Counts
  unfolding tally_fields
  tally_cases [] answers per_field = per_field
  tally_cases (c ∷ cases) answers per_field =
      tally_cases cases answers (tally_fields c.fields (or_empty (get c.case_id answers)) per_field)

  -- The counts of each field, over every case.
  unfoldable pub per_field_counts : List ExtractionCase → Dict (Dict Scalar) → Dict Counts
  unfolding start_cases tally_cases
  per_field_counts cases answers = tally_cases cases answers (start_cases cases [])

unfoldable pub total_from : Counts → Dict Counts → Counts
unfolding add_counts
total_from totals [] = totals
total_from totals (kv ∷ per_field) = total_from (add_counts totals kv.1) per_field

-- totals += counts, over the values
unfoldable pub total : Dict Counts → Counts
unfolding total_from
total per_field = total_from no_counts per_field

module _ {F : Type 0} (floats : Floats F) where
  -- `metrics.update(...)`, for each name in turn
  unfoldable pub field_metrics : Dict Counts → List String → Dict F → Dict F
  unfolding put field_metric f1
  field_metrics per_field [] metrics = metrics
  field_metrics per_field (name ∷ names) metrics = field_metrics per_field names (
      put (field_metric name)
        (f1 floats (elim (get name per_field) [ none ↦ no_counts | some c ↦ c ])) metrics)

  unfoldable pub extraction_metrics : Dict Counts → Dict F
  unfolding field_metrics total precision recall sorted keys
  extraction_metrics per_field = field_metrics per_field (sorted (keys per_field)) (
      ("extraction.precision", precision floats (total per_field))
      ∷ ("extraction.recall", recall floats (total per_field))
      ∷ ("extraction.f1", f1 floats (total per_field))
      ∷ [])

  unfoldable pub measure_extraction :
      {D : Type 0}
      → Texts D
      → GoldenSet ExtractionCase
      → Option (Dict (Dict Scalar))
      → Measurement F
  unfolding per_field_counts extraction_metrics answered_in
  measure_extraction texts golden none =
      if empty golden.cases
      then unread Reading.no_cases Capability.extraction golden
      else unread Reading.not_answered Capability.extraction golden
  measure_extraction texts golden (some answers) =
      if empty golden.cases
      then unread Reading.no_cases Capability.extraction golden
      else scored Capability.extraction golden (answered_in (λ c. c.case_id) golden.cases answers)
          (extraction_metrics (per_field_counts texts golden.cases answers))

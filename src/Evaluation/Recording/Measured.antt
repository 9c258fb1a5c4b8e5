-- ===== src/Evaluation/Recording/Measured.antt =====
-- src/claim_triage/evaluation/scoring.py: the measurements of a run, each under names of its own
-- capability, and about the set that it was made on.
use Prim.Native.String.{◌++◌ as str_append}
use text.Mathlib.TextLemmas.{append_assoc as str_assoc}
use claim_triage_agent.Common.{
  ◌≡◌, refl, inl, inr, ℕ, true, false, String, Option, none, some, List, [], ◌∷◌, ◌⊎◌, ◌==◌, length,
  empty, arith, Bool-cases, Option-cases, string_equality, nat_equality,
}
use claim_triage_agent.Floats.{Floats}
use claim_triage_agent.Evaluation.Baselines.{SetRecord, starts_with}
use claim_triage_agent.Evaluation.Cases.{
  GoldenSet, ExtractionCase, RetrievalCase, ClassificationCase, RetrievalAnswer,
  ClassificationAnswer,
}
use claim_triage_agent.Evaluation.Classification.{
  classification_metrics, measure_classification, scores_of,
}
use claim_triage_agent.Dict.{Dict, keys, sorted}
use claim_triage_agent.Evaluation.Extraction.{
  field_metric, field_metrics, extraction_metrics, measure_extraction, per_field_counts, total,
}
use claim_triage_agent.Evaluation.Material.{is_in}
use claim_triage_agent.Evaluation.Measurements.{Capability, Measurement, Reading}
use claim_triage_agent.Evaluation.Metrics.{
  Counts, precision, recall, f1, Scalar, Texts, average_precision,
}
use claim_triage_agent.Evaluation.Recording.Names.{IsNamed, IsNamed-put, starts_append}
use claim_triage_agent.Evaluation.Retrieval.{retrieval_metrics, measure_retrieval, cited_in}

-- A measurement of a capability, of this version and size, whose metrics are named after it and are
-- there only if it was scored.
abbrev pub IsMeasured : {F : Type 0} → Capability → SetRecord → Measurement F → Type 0
IsMeasured c size m =
    (m.capability ≡ c)
    × (m.version ≡ size.version)
    × (m.cases ≡ size.cases)
    × IsNamed c m.metrics
    × ((m.reading ≡ Reading.scored) ⊎ (m.metrics ≡ []))

field_metric-prefixed : (name : String) → starts_with "extraction." (field_metric name) ≡ true
unfolding field_metric
field_metric-prefixed name =
    rw (str_assoc "extraction." "field." (str_append name ".f1"))
      (starts_append "extraction." (str_append "field." (str_append name ".f1")))

module _ {F : Type 0} (floats : Floats F) where
  field_metrics-IsNamed :
      (per_field : Dict Counts) (names : List String) (metrics : Dict F)
      → IsNamed Capability.extraction metrics
      → IsNamed Capability.extraction (field_metrics floats per_field names metrics)
  unfolding field_metrics
  field_metrics-IsNamed per_field [] metrics named = named
  field_metrics-IsNamed per_field (name ∷ names) metrics named =
      field_metrics-IsNamed per_field names _ (
        IsNamed-put Capability.extraction (field_metric name) _ metrics (field_metric-prefixed name)
          named)

  extraction_metrics-IsNamed :
      (per_field : Dict Counts)
      → IsNamed Capability.extraction (extraction_metrics floats per_field)
  unfolding extraction_metrics keys is_in
  extraction_metrics-IsNamed per_field =
      field_metrics-IsNamed per_field (sorted (keys per_field))
        (("extraction.precision", precision floats (total per_field))
          ∷ ("extraction.recall", recall floats (total per_field))
          ∷ ("extraction.f1", f1 floats (total per_field))
          ∷ [])
        (ground arith)

  pub measure_extraction-IsMeasured :
      {D : Type 0} (texts : Texts D) (golden : GoldenSet ExtractionCase)
      (answers : Option (Dict (Dict Scalar)))
      → IsMeasured Capability.extraction
          (record { version = golden.version; cases = length golden.cases })
          (measure_extraction floats texts golden answers)
  unfolding measure_extraction keys is_in
  measure_extraction-IsMeasured texts golden none = ground (arith, Bool-cases (empty golden.cases))
  measure_extraction-IsMeasured texts golden (some answers) =
      elim (Bool-cases (empty golden.cases)) [
        | inl is_empty ↦ ground (arith, is_empty)
        | inr not_empty ↦ rw not_empty (
          refl,
          refl,
          refl,
          extraction_metrics-IsNamed (per_field_counts texts golden.cases answers),
          inl refl,
        )
      ]

  retrieval_metrics-IsNamed :
      (top_k : ℕ) (answers : Dict RetrievalAnswer) (cases : List RetrievalCase)
      → IsNamed Capability.retrieval (retrieval_metrics floats top_k answers cases)
  unfolding retrieval_metrics keys is_in
  retrieval_metrics-IsNamed top_k answers cases =
      elim (Bool-cases (cited_in floats answers cases == 0)) [
        | inl uncited ↦ ground (arith, uncited)
        | inr cited ↦ ground (arith, cited)
      ]

  pub measure_retrieval-IsMeasured :
      (top_k : ℕ) (golden : GoldenSet RetrievalCase) (answers : Option (Dict RetrievalAnswer))
      → IsMeasured Capability.retrieval
          (record { version = golden.version; cases = length golden.cases })
          (measure_retrieval floats top_k golden answers)
  unfolding measure_retrieval keys is_in
  measure_retrieval-IsMeasured top_k golden none = ground (arith, Bool-cases (empty golden.cases))
  measure_retrieval-IsMeasured top_k golden (some answers) =
      elim (Bool-cases (empty golden.cases)) [
        | inl is_empty ↦ ground (arith, is_empty)
        | inr not_empty ↦
            rw not_empty
              (refl, refl, refl, retrieval_metrics-IsNamed top_k answers golden.cases, inl refl)
      ]

  classification_metrics-IsNamed :
      (answers : Dict (ClassificationAnswer F)) (cases : List ClassificationCase)
      → IsNamed Capability.classification (classification_metrics floats answers cases)
  unfolding classification_metrics keys is_in
  classification_metrics-IsNamed answers cases =
      elim (Option-cases (
        average_precision floats (scores_of floats true answers cases)
          (scores_of floats false answers cases))) [
            | inl uncited ↦ ground (arith, uncited)
            | inr (curve, cited) ↦ ground (arith, cited)
          ]

  pub measure_classification-IsMeasured :
      (golden : GoldenSet ClassificationCase) (answers : Option (Dict (ClassificationAnswer F)))
      → IsMeasured Capability.classification
          (record { version = golden.version; cases = length golden.cases })
          (measure_classification floats golden answers)
  unfolding measure_classification keys is_in
  measure_classification-IsMeasured golden none = ground (arith, Bool-cases (empty golden.cases))
  measure_classification-IsMeasured golden (some answers) = elim (Bool-cases (empty golden.cases)) [
    | inl is_empty ↦ ground (arith, is_empty)
    | inr not_empty ↦
        rw not_empty
          (refl, refl, refl, classification_metrics-IsNamed answers golden.cases, inl refl)
  ]

-- ===== src/Evaluation/Scoring/Silence.antt =====
-- src/claim_triage/evaluation/scoring.py and gate.py: what the gate says of a run that answered
-- nothing for a capability.
use claim_triage_agent.Common.{
  ◌≡◌, ap, inl, inr, ℕ, Bool, true, false, String, Option, none, some, [], empty, not, ◌||◌, arith,
  All, Bool-cases,
}
use claim_triage_agent.Floats.{Floats}
use claim_triage_agent.Dict.{Dict, get, present}
use claim_triage_agent.Evaluation.Measurements.{Capability, Measurement}
use claim_triage_agent.Evaluation.Baselines.{Baseline, Settings, metrics_of}
use claim_triage_agent.Evaluation.Metrics.{Scalar, Texts}
use claim_triage_agent.Evaluation.Gate.{Rules, passed, judge}
use claim_triage_agent.Evaluation.Gate.Passing.{Holds, passed_iff}
use claim_triage_agent.Evaluation.Cases.{
  GoldenSet, ExtractionCase, RetrievalCase, ClassificationCase, RetrievalAnswer,
  ClassificationAnswer, Sets, Answers,
}
use claim_triage_agent.Evaluation.Readings.{is_some}
use claim_triage_agent.Evaluation.Extraction.{measure_extraction}
use claim_triage_agent.Evaluation.Retrieval.{measure_retrieval}
use claim_triage_agent.Evaluation.Classification.{measure_classification}
use claim_triage_agent.Evaluation.Scoring.{measure}

-- The set of a capability is empty, or the run has no answers for it.
abbrev pub is_silent : {F : Type 0} → Sets → Answers F → Capability → Bool
is_silent sets answers Capability.extraction =
    empty sets.extraction.cases || not (is_some answers.extraction)
is_silent sets answers Capability.retrieval =
    empty sets.retrieval.cases || not (is_some answers.retrieval)
is_silent sets answers Capability.classification =
    empty sets.classification.cases || not (is_some answers.classification)

module _ {F D : Type 0} (floats : Floats F) (texts : Texts D) where
  extraction_silent :
      (golden : GoldenSet ExtractionCase) (answers : Option (Dict (Dict Scalar)))
      → empty golden.cases || not (is_some answers) ≡ true
      → (measure_extraction floats texts golden answers).capability ≡ Capability.extraction
        × (measure_extraction floats texts golden answers).metrics ≡ []
  unfolding measure_extraction
  extraction_silent golden none silent = ground arith
  extraction_silent golden (some a) silent = ground (arith, silent)

  retrieval_silent :
      (top_k : ℕ) (golden : GoldenSet RetrievalCase) (answers : Option (Dict RetrievalAnswer))
      → empty golden.cases || not (is_some answers) ≡ true
      → (measure_retrieval floats top_k golden answers).capability ≡ Capability.retrieval
        × (measure_retrieval floats top_k golden answers).metrics ≡ []
  unfolding measure_retrieval
  retrieval_silent top_k golden none silent = ground arith
  retrieval_silent top_k golden (some a) silent = ground (arith, silent)

  classification_silent :
      (golden : GoldenSet ClassificationCase) (answers : Option (Dict (ClassificationAnswer F)))
      → empty golden.cases || not (is_some answers) ≡ true
      → (measure_classification floats golden answers).capability ≡ Capability.classification
        × (measure_classification floats golden answers).metrics ≡ []
  unfolding measure_classification
  classification_silent golden none silent = ground arith
  classification_silent golden (some a) silent = ground (arith, silent)

  silent-fails :
      (baseline : Baseline F) (rules : Rules F) (m : Measurement F) (c : Capability) (name : String)
      → present (get name (metrics_of baseline c)) ≡ true
      → m.capability ≡ c
      → m.metrics ≡ []
      → ¬ Holds floats baseline rules m
  unfolding get
  silent-fails baseline rules m c name recorded is_c no_metrics holds =
      let kept : present (get name m.metrics) ≡ true = (holds.1 name).0 (rw is_c recorded) in
      absurd (ground (arith, kept, ap (λ ms. present (get name ms)) no_metrics))

  silent_refuted :
      (sets : Sets) (answers : Answers F) (top_k : ℕ) (baseline : Baseline F) (rules : Rules F)
      (capability : Capability) (name : String)
      → is_silent sets answers capability ≡ true
      → present (get name (metrics_of baseline capability)) ≡ true
      → ¬ All (Holds floats baseline rules) (measure floats texts sets answers top_k)
  unfolding measure
  silent_refuted sets answers top_k baseline rules Capability.extraction name silent recorded
        (e, _) =
      let (is_c, none_made) = extraction_silent sets.extraction answers.extraction silent in
      silent-fails baseline rules
        (measure_extraction floats texts sets.extraction answers.extraction) Capability.extraction
        name recorded is_c none_made e
  silent_refuted sets answers top_k baseline rules Capability.retrieval name silent recorded
        (_, (r, _)) =
      let (is_c, none_made) = retrieval_silent top_k sets.retrieval answers.retrieval silent in
      silent-fails baseline rules (measure_retrieval floats top_k sets.retrieval answers.retrieval)
        Capability.retrieval name recorded is_c none_made r
  silent_refuted sets answers top_k baseline rules Capability.classification name silent recorded
        (_, (_, (k, _))) =
      let (is_c, none_made) =
        classification_silent sets.classification answers.classification silent in
      silent-fails baseline rules
        (measure_classification floats sets.classification answers.classification)
        Capability.classification name recorded is_c none_made k

  -- A capability that a run answered nothing for, or whose set is empty, fails the gate as soon as
  -- the baseline records a metric of it, whatever the run measured of the others.
  pub silence_fails :
      (sets : Sets) (answers : Answers F) (top_k : ℕ) (baseline : Baseline F) (rules : Rules F)
      (settings : Settings) (capability : Capability) (name : String)
      → is_silent sets answers capability ≡ true
      → present (get name (metrics_of baseline capability)) ≡ true
      → passed (judge floats (measure floats texts sets answers top_k) baseline rules settings)
        ≡ false
  silence_fails sets answers top_k baseline rules settings capability name silent recorded =
      let ms = measure floats texts sets answers top_k in
      elim (Bool-cases (passed (judge floats ms baseline rules settings))) [
        | inr failed ↦ failed
        | inl held ↦ absurd (
            silent_refuted sets answers top_k baseline rules capability name silent recorded
              ((passed_iff floats ms baseline rules settings).0 held).1)
      ]

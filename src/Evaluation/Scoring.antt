-- ===== src/Evaluation/Scoring.antt =====
-- src/claim_triage/evaluation/scoring.py: a run's measurements, from the sets and the answers.
pub mod Silence
pub mod Tests
use Prim.Native.String.{◌++◌ as str_append}
use claim_triage_agent.Common.{
  ℕ, ◌+◌, Bool, true, false, String, Option, none, some, List, [], ◌∷◌, length, empty, ◌++◌, not,
  ◌==◌, nat_equality, string_equality, if◌then◌else◌,
}
use claim_triage_agent.Floats.{Floats}
use claim_triage_agent.Dict.{Dict, get, put, keys, sorted}
use claim_triage_agent.Evaluation.Measurements.{Capability, Measurement, Reading}
use claim_triage_agent.Evaluation.Metrics.{
  Counts, no_counts, add_counts, Scalar, Texts, field_counts, count_in, label_counts, precision,
  recall, f1, macro_average, average_precision,
}
use claim_triage_agent.Evaluation.Ranks.{ClauseRef, hit_at, reciprocal_rank, citation_counts}
use claim_triage_agent.Evaluation.Cases.{
  ExtractionCase, RetrievalCase, ClassificationCase, GoldenSet, Sets, RetrievalAnswer,
  ClassificationAnswer, Answers,
}
use claim_triage_agent.Evaluation.Extraction.{measure_extraction}
use claim_triage_agent.Evaluation.Retrieval.{measure_retrieval}
use claim_triage_agent.Evaluation.Classification.{measure_classification}

module _ {F : Type 0} (floats : Floats F) where
  unfoldable pub measure : {D : Type 0} → Texts D → Sets → Answers F → ℕ → List (Measurement F)
  unfolding measure_extraction measure_retrieval measure_classification
  measure texts sets answers top_k =
      measure_extraction floats texts sets.extraction answers.extraction
      ∷ measure_retrieval floats top_k sets.retrieval answers.retrieval
      ∷ measure_classification floats sets.classification answers.classification
      ∷ []

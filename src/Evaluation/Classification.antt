-- ===== src/Evaluation/Classification.antt =====
-- src/claim_triage/evaluation/scoring.py: the axes, the routing and the score of the classification
-- set.
use claim_triage_agent.Common.{
  ℕ, ◌+◌, Bool, true, false, String, Option, none, some, List, [], ◌∷◌, length, empty, ◌++◌, not,
  ◌==◌, nat_equality, string_equality, if◌then◌else◌,
}
use claim_triage_agent.Floats.{Floats}
use claim_triage_agent.Dict.{Dict, get}
use claim_triage_agent.Evaluation.Measurements.{Capability, Measurement, Reading}
use claim_triage_agent.Evaluation.Metrics.{
  label_counts, precision, recall, f1, macro_average, average_precision,
}
use claim_triage_agent.Evaluation.Cases.{ClassificationCase, GoldenSet, ClassificationAnswer}
use claim_triage_agent.Evaluation.Readings.{one_if, scored, unread, answered_in}

module _ {F : Type 0} (floats : Floats F) where
  -- An axis: the case's own name, and the name that was answered, if any.
  unfoldable pub axis :
      (ClassificationCase → String)
      → (ClassificationAnswer F → String)
      → Dict (ClassificationAnswer F)
      → List ClassificationCase
      → List (String × Option String)
  axis truth answer answers [] = []
  axis truth answer answers (c ∷ cases) =
      (truth c, elim (get c.case_id answers) [ none ↦ none | some a ↦ some (answer a) ])
      ∷ axis truth answer answers cases

  unfoldable pub routed_in : Dict (ClassificationAnswer F) → List ClassificationCase → ℕ
  routed_in answers [] = 0
  routed_in answers (c ∷ cases) =
      one_if (elim (get c.case_id answers) [ none ↦ false | some a ↦ a.queue == c.queue ])
      + routed_in answers cases

  -- The scores that were answered to the cases of one label.
  unfoldable pub scores_of : Bool → Dict (ClassificationAnswer F) → List ClassificationCase → List F
  scores_of positive answers [] = []
  scores_of positive answers (c ∷ cases) =
      let rest = scores_of positive answers cases in
      elim (get c.case_id answers) [
        | none ↦ rest
        | some a ↦
            if (if positive then c.fraud_positive else not c.fraud_positive)
            then a.fraud_score ∷ rest
            else rest
      ]

  abbrev pub axis_metrics : String → String → String → List (String × Option String) → Dict F
  axis_metrics precise recalled both pairs =
      (precise, macro_average floats (label_counts pairs) (precision floats))
      ∷ (recalled, macro_average floats (label_counts pairs) (recall floats))
      ∷ (both, macro_average floats (label_counts pairs) (f1 floats))
      ∷ []

  unfoldable pub classification_metrics :
      Dict (ClassificationAnswer F) → List ClassificationCase → Dict F
  unfolding axis routed_in scores_of macro_average label_counts average_precision precision recall
      f1
  classification_metrics answers cases =
      axis_metrics "classification.fraud_risk.precision" "classification.fraud_risk.recall"
        "classification.fraud_risk.f1" (axis (λ c. c.fraud_risk) (λ a. a.fraud_risk) answers cases)
      ++ axis_metrics "classification.severity.precision" "classification.severity.recall"
          "classification.severity.f1" (axis (λ c. c.severity) (λ a. a.severity) answers cases)
      ++ ("classification.routing_accuracy", floats.div (routed_in answers cases) (length cases))
        ∷ elim (average_precision floats (scores_of true answers cases)
            (scores_of false answers cases)) [
              | none ↦ []
              | some curve ↦ ("classification.fraud_pr_auc", curve) ∷ []
            ]

  unfoldable pub measure_classification :
      GoldenSet ClassificationCase → Option (Dict (ClassificationAnswer F)) → Measurement F
  unfolding classification_metrics answered_in
  measure_classification golden none =
      if empty golden.cases
      then unread Reading.no_cases Capability.classification golden
      else unread Reading.not_answered Capability.classification golden
  measure_classification golden (some answers) =
      if empty golden.cases
      then unread Reading.no_cases Capability.classification golden
      else scored Capability.classification golden
          (answered_in (λ c. c.case_id) golden.cases answers)
          (classification_metrics answers golden.cases)

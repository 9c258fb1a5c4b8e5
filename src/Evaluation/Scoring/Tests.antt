-- ===== src/Evaluation/Scoring/Tests.antt =====
-- Scoring at two small extraction cases; a text stands for itself, and no text reads as a number.
use claim_triage_agent.Common.{
  ℕ, ◌≡◌, refl, ◌+◌, ◌↔◌, true, false, String, Option, none, some, List, [], ◌∷◌, All, nat_eq,
  if◌then◌else◌,
}
use claim_triage_agent.Dict.{Dict, get}
use claim_triage_agent.Evaluation.Measurements.{Capability}
use claim_triage_agent.Evaluation.Baselines.{metrics_of}
use claim_triage_agent.Evaluation.Metrics.{
  Scalar, absent, flag, value, Texts, compare, answer_of, field_counts, label_counts,
}
use claim_triage_agent.Evaluation.Metrics.Fields.{agreed, stated, invented, field_counts_exact}
use claim_triage_agent.Evaluation.Metrics.Labels.{labels_with, counts_of, label_counts_exact}
use claim_triage_agent.Evaluation.Gate.{passed, judge}
use claim_triage_agent.Evaluation.Tests.{millionths, tagged, rules, at_five}
use claim_triage_agent.Evaluation.Cases.{ExtractionCase, Sets, Answers}
use claim_triage_agent.Evaluation.Extraction.{per_field_counts, total}
use claim_triage_agent.Evaluation.Scoring.{measure}
use claim_triage_agent.Evaluation.Extraction.Micro.{all_counts, totals_micro}
use claim_triage_agent.Evaluation.Scoring.Silence.{silence_fails}

abbrev pub plain : Texts ℕ
plain = record { number = λ s. none; same_number = nat_eq; folded = λ s. s }

abbrev expected : Dict Scalar
expected = ("make", value "Volvo") ∷ ("injury", flag true) ∷ ("plate", absent) ∷ []

abbrev predicted : Dict Scalar
predicted = ("make", value "Volvo") ∷ ("plate", value "AB 12") ∷ []

three_kinds :
    field_counts plain expected predicted
    ≡ record { true_positives = 1; false_positives = 1; false_negatives = 2 }
unfolding field_counts get
three_kinds = refl

field_counts_exact_example :
    ((field_counts plain expected predicted).true_positives ≡ agreed plain expected predicted)
    × ((field_counts plain expected predicted).true_positives
          + (field_counts plain expected predicted).false_negatives
        ≡ stated expected + invented plain expected predicted)
    × (((field_counts plain expected predicted).false_positives ≡ 0)
          × ((field_counts plain expected predicted).false_negatives ≡ 0)
        ↔ All (λ f. compare plain f.1 (answer_of plain predicted f.0) ≡ true) expected)
field_counts_exact_example = field_counts_exact plain expected predicted

abbrev pairs : List (String × Option String)
pairs = ("low", some "low") ∷ ("high", some "low") ∷ ("high", none) ∷ []

label_counts_exact_example :
    get "low" (label_counts pairs)
    ≡ (if labels_with "low" pairs then some (counts_of "low" pairs) else none)
label_counts_exact_example = label_counts_exact "low" pairs

abbrev cases : List ExtractionCase
cases =
    record { case_id = "E1"; fields = expected }
    ∷ record { case_id = "E2"; fields = ("make", value "Saab") ∷ [] }
    ∷ []

abbrev pub answered : Dict (Dict Scalar)
answered = ("E1", predicted) ∷ []

totals_micro_example :
    total (per_field_counts plain cases answered) ≡ all_counts plain cases answered
totals_micro_example = totals_micro plain cases answered

abbrev pub sets : Sets
sets = record {
  extraction = record { version = 1; cases = cases };
  retrieval = record { version = 1; cases = [] };
  classification = record { version = 1; cases = [] };
}

abbrev answers : Answers ℕ
answers = record { extraction = none; retrieval = none; classification = none }

silence_fails_example :
    passed (judge millionths (measure millionths plain sets answers 5) tagged rules at_five) ≡ false
silence_fails_example =
    silence_fails millionths plain sets answers 5 tagged rules at_five Capability.extraction
      "extraction.f1" refl (unfold metrics_of get in refl)

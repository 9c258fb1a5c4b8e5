-- ===== src/Evaluation/Readings.antt =====
-- src/claim_triage/evaluation/scoring.py: what a run reads of one capability.
use claim_triage_agent.Common.{
  ℕ, ◌+◌, Bool, true, false, String, Option, none, some, List, [], ◌∷◌, length, nat_equality,
  string_equality,
}
use claim_triage_agent.Dict.{Dict, get}
use claim_triage_agent.Evaluation.Measurements.{Capability, Measurement, Reading}
use claim_triage_agent.Evaluation.Cases.{GoldenSet}

abbrev pub one_if : Bool → ℕ
one_if true = 1
one_if false = 0

abbrev pub is_some : {A : Type 0} → Option A → Bool
is_some none = false
is_some (some _) = true

module _ {C F : Type 0} where
  -- `_scored`
  abbrev pub scored : Capability → GoldenSet C → ℕ → Dict F → Measurement F
  scored capability golden answered metrics = record {
    capability = capability;
    version = golden.version;
    reading = Reading.scored;
    cases = length golden.cases;
    answered = answered;
    metrics = metrics;
  }

  -- `_no_cases` and `_unanswered`
  abbrev pub unread : Reading → Capability → GoldenSet C → Measurement F
  unread reading capability golden = record {
    capability = capability;
    version = golden.version;
    reading = reading;
    cases = length golden.cases;
    answered = 0;
    metrics = [];
  }

-- How many of the cases are answered.
unfoldable pub answered_in : {A C : Type 0} → (C → String) → List C → Dict A → ℕ
unfolding get
answered_in id_of [] answers = 0
answered_in id_of (c ∷ cases) answers =
    one_if (is_some (get (id_of c) answers)) + answered_in id_of cases answers

-- ===== src/Evaluation/Gate.antt =====
-- src/claim_triage/evaluation/gate.py: the rules of a release, and what they make of a run. A
-- failure's message is a constructor with the values that it shows.
pub mod Passing
pub mod Report
use claim_triage_agent.Common.{
  ℕ, Bool, empty, true, false, String, Option, none, some, List, [], ◌∷◌, ◌++◌, ltb, not, ◌&&◌,
  ◌||◌, ◌==◌, nat_equality, Equality, if◌then◌else◌,
}
use claim_triage_agent.Floats.{Floats}
use claim_triage_agent.Evaluation.Baselines.{Baseline, Settings, SetRecord, metrics_of}
use claim_triage_agent.Dict.{Dict, get, keys, missing_from, sorted}
use claim_triage_agent.Evaluation.Measurements.{Capability, Measurement, Reading}

pub data Verdict : Type 0 where
  ok adopted regressed below_floor not_measured no_cases not_implemented incomparable : Verdict

pub record Rules (F : Type 0) : Type 0 where
  pub tolerance : F
  pub floors : Dict F

pub record Row (F : Type 0) : Type 0 where
  pub capability : Capability
  pub metric : Option String
  pub cases : ℕ
  pub answered : ℕ
  pub value : Option F
  pub baseline : Option F
  pub delta : Option F
  pub verdict : Verdict

-- The messages, under the rule that each names: comparability, coverage, floor and degradation.
pub data Failure (F : Type 0) : Type 0 where
  other_settings : Settings → Settings → Failure F
  other_versions : List (Capability × ℕ × ℕ) → Failure F
  fewer_cases : Capability → ℕ → ℕ → Failure F
  unmeasured : String → Option F → Failure F
  under_floor : String → F → F → Failure F
  degraded : String → F → F → F → Failure F

pub record Outcome (F : Type 0) : Type 0 where
  pub rules : Rules F
  pub rows : List (Row F)
  pub failures : List (Failure F)

-- `Outcome.passed`
abbrev pub passed : {F : Type 0} → Outcome F → Bool
passed outcome = empty outcome.failures

unfoldable pub other_versions_of :
    {F : Type 0} → Baseline F → List (Measurement F) → List (Capability × ℕ × ℕ)
other_versions_of baseline [] = []
other_versions_of baseline (m ∷ ms) =
    let rest = other_versions_of baseline ms in
    let recorded_version = (baseline.sets m.capability).version in
    if not (m.version == recorded_version)
    then (m.capability, recorded_version, m.version) ∷ rest
    else rest

-- `_other_question`
unfoldable pub other_question :
    {F : Type 0} → Baseline F → List (Measurement F) → Settings → Option (Failure F)
unfolding other_versions_of
other_question baseline measurements settings =
    if empty baseline.metrics
    then none
    else if not (baseline.settings.top_k == settings.top_k)
    then some (other_settings baseline.settings settings)
    else elim (other_versions_of baseline measurements) [
      | [] ↦ none
      | other ∷ others ↦ some (other_versions (other ∷ others))
    ]

-- `_incomparable`
abbrev pub incomparable_row : {F : Type 0} → Measurement F → Row F
incomparable_row m = record {
  capability = m.capability;
  metric = none;
  cases = m.cases;
  answered = m.answered;
  value = none;
  baseline = none;
  delta = none;
  verdict = Verdict.incomparable;
}

unfoldable pub incomparable_rows : {F : Type 0} → List (Measurement F) → List (Row F)
incomparable_rows [] = []
incomparable_rows (m ∷ ms) = incomparable_row m ∷ incomparable_rows ms

-- The row of a capability with no metric at all.
abbrev pub nameless_row : {F : Type 0} → Measurement F → Row F
nameless_row m = record {
  capability = m.capability;
  metric = none;
  cases = m.cases;
  answered = m.answered;
  value = none;
  baseline = none;
  delta = none;
  verdict = elim m.reading [ Reading.no_cases ↦ Verdict.no_cases | _ ↦ Verdict.not_implemented ];
}

module _ {F : Type 0} (floats : Floats F) where
  open floats use {lt, sub, round}

  -- `regressed`
  unfoldable pub has_regressed : F → F → F → Bool
  has_regressed value at_baseline tolerance = lt tolerance (round (sub at_baseline value) 9)

  abbrev pub is_below : Option F → F → Bool
  is_below none value = false
  is_below (some floor) value = lt value floor

  -- `_verdict`
  unfoldable pub verdict : Option F → Option F → Option F → F → Verdict
  unfolding has_regressed
  verdict none at_baseline floor tolerance = Verdict.not_measured
  verdict (some value) at_baseline floor tolerance =
      if is_below floor value then Verdict.below_floor else elim at_baseline [
        | none ↦ Verdict.adopted
        | some b ↦ if has_regressed value b tolerance then Verdict.regressed else Verdict.ok
      ]

  abbrev pub floor_failure : String → F → Option F → List (Failure F)
  floor_failure name value none = []
  floor_failure name value (some floor) =
      if lt value floor then under_floor name value floor ∷ [] else []

  abbrev pub degradation : String → F → Option F → F → List (Failure F)
  degradation name value none tolerance = []
  degradation name value (some b) tolerance =
      if has_regressed value b tolerance then degraded name value b tolerance ∷ [] else []

  -- `_failures`
  unfoldable pub failures : String → Option F → Option F → Option F → F → List (Failure F)
  failures name none at_baseline floor tolerance = unmeasured name at_baseline ∷ []
  failures name (some value) at_baseline floor tolerance =
      floor_failure name value floor ++ degradation name value at_baseline tolerance

  abbrev pub delta_of : Option F → Option F → Option F
  delta_of none _ = none
  delta_of (some value) none = none
  delta_of (some value) (some b) = some (sub value b)

  -- The body of the loop over the names of one capability.
  unfoldable pub row : Rules F → Dict F → Measurement F → String → Row F
  unfolding get verdict
  row rules recorded m name =
      let value = get name m.metrics in
      let at_baseline = get name recorded in
      record {
        capability = m.capability;
        metric = some name;
        cases = m.cases;
        answered = m.answered;
        value = value;
        baseline = at_baseline;
        delta = delta_of value at_baseline;
        verdict = verdict value at_baseline (get name rules.floors) rules.tolerance;
      }

  unfoldable pub named :
      Rules F → Dict F → Measurement F → List String → List (Row F) × List (Failure F)
  unfolding row failures
  named rules recorded m [] = ([], [])
  named rules recorded m (name ∷ names) =
      let (rows, later) = named rules recorded m names in
      (
        row rules recorded m name ∷ rows,
        failures name (get name m.metrics) (get name recorded) (get name rules.floors)
              rules.tolerance
            ++ later,
      )

  unfoldable pub names_of : Dict F → Measurement F → List String
  unfolding keys missing_from sorted
  names_of recorded m = keys m.metrics ++ missing_from m.metrics (sorted (keys recorded))

  -- The coverage of the set itself.
  unfoldable pub shrunk : Baseline F → Measurement F → List (Failure F)
  shrunk baseline m =
      let at_the_tag = (baseline.sets m.capability).cases in
      if ltb m.cases at_the_tag then fewer_cases m.capability m.cases at_the_tag ∷ [] else []

  unfoldable pub rows_of :
      Rules F → Dict F → Measurement F → List String → List (Row F) × List (Failure F)
  unfolding named
  rows_of rules recorded m [] = (nameless_row m ∷ [], [])
  rows_of rules recorded m (name ∷ names) = named rules recorded m (name ∷ names)

  -- The body of the loop over the measurements.
  unfoldable pub judged : Baseline F → Rules F → Measurement F → List (Row F) × List (Failure F)
  unfolding metrics_of names_of shrunk rows_of
  judged baseline rules m =
      let recorded = metrics_of baseline m.capability in
      let (rows, found) = rows_of rules recorded m (names_of recorded m) in
      (rows, shrunk baseline m ++ found)

  unfoldable pub judge_all :
      Baseline F → Rules F → List (Measurement F) → List (Row F) × List (Failure F)
  unfolding judged
  judge_all baseline rules [] = ([], [])
  judge_all baseline rules (m ∷ ms) =
      let (rows, found) = judged baseline rules m in
      let (later_rows, later) = judge_all baseline rules ms in (rows ++ later_rows, found ++ later)

  unfoldable pub judge : List (Measurement F) → Baseline F → Rules F → Settings → Outcome F
  unfolding other_question incomparable_rows judge_all
  judge measurements baseline rules settings =
      elim (other_question baseline measurements settings) [
        | some other ↦ record {
          rules = rules;
          rows = incomparable_rows measurements;
          failures = other ∷ [];
        }
        | none ↦
            let (rows, found) = judge_all baseline rules measurements in
            record { rules = rules; rows = rows; failures = found }
      ]

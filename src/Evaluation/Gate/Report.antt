-- ===== src/Evaluation/Gate/Report.antt =====
-- src/claim_triage/evaluation/gate.py: the rows of the table agree with what decides the run, and
-- the first run of a tag.
use claim_triage_agent.Common.{
  ◌≡◌, refl, ◌↔◌, ◌≤◌, Bool, true, false, String, Option, none, some, List, [], ◌∷◌, ◌++◌, ◌&&◌,
  leb, arith, all, All, inl, empty, empty-append,
}
use claim_triage_agent.Floats.{Floats}
use claim_triage_agent.Evaluation.Baselines.{Baseline, Settings, SetRecord, metrics_of, unrecorded}
use claim_triage_agent.Dict.{Dict, get}
use claim_triage_agent.Evaluation.Measurements.{Capability, Measurement}
use claim_triage_agent.Evaluation.Gate.{
  Verdict, Rules, Row, passed, incomparable_rows, verdict, failures, named, names_of, shrunk,
  rows_of, judged, judge_all, judge,
}
use claim_triage_agent.Evaluation.Gate.Passing.{Holds, passed_iff}

-- The verdicts that fail no rule.
abbrev pub accepts : Verdict → Bool
accepts Verdict.ok = true
accepts Verdict.adopted = true
accepts Verdict.no_cases = true
accepts Verdict.not_implemented = true
accepts _ = false

abbrev pub clean : {F : Type 0} → List (Row F) → Bool
clean rows = all (λ r. accepts r.verdict) rows

abbrev pub keeps_cases : {F : Type 0} → Baseline F → Measurement F → Bool
keeps_cases baseline m = leb (baseline.sets m.capability).cases m.cases

clean-append : {F : Type 0} (xs ys : List (Row F)) → clean (xs ++ ys) ≡ (clean xs && clean ys)
clean-append [] ys = refl
clean-append (x ∷ xs) ys = ground (arith, clean-append xs ys)

module _ {F : Type 0} (floats : Floats F) where
  verdict_agrees :
      (name : String) (value at_baseline floor : Option F) (tolerance : F)
      → accepts (verdict floats value at_baseline floor tolerance)
        ≡ empty (failures floats name value at_baseline floor tolerance)
  unfolding verdict failures
  verdict_agrees name none at_baseline floor tolerance = refl
  verdict_agrees name (some v) none none tolerance = ground arith
  verdict_agrees name (some v) none (some f) tolerance = ground arith
  verdict_agrees name (some v) (some b) none tolerance = ground arith
  verdict_agrees name (some v) (some b) (some f) tolerance = ground arith

  named_agrees :
      (rules : Rules F) (recorded : Dict F) (m : Measurement F) (names : List String)
      → clean (named floats rules recorded m names).0
        ≡ empty (named floats rules recorded m names).1
  unfolding named
  named_agrees rules recorded m [] = refl
  named_agrees rules recorded m (name ∷ names) =
      let value = get name m.metrics in
      let at_baseline = get name recorded in
      let floor = get name rules.floors in
      ground (
        arith,
        empty-append (failures floats name value at_baseline floor rules.tolerance)
            (named floats rules recorded m names).1,
        named_agrees rules recorded m names,
        verdict_agrees name value at_baseline floor rules.tolerance,
      )

  rows_agree :
      (rules : Rules F) (recorded : Dict F) (m : Measurement F) (names : List String)
      → clean (rows_of floats rules recorded m names).0
        ≡ empty (rows_of floats rules recorded m names).1
  unfolding rows_of
  rows_agree rules recorded m [] = ground arith
  rows_agree rules recorded m (name ∷ names) = named_agrees rules recorded m (name ∷ names)

  judged_agrees :
      (baseline : Baseline F) (rules : Rules F) (m : Measurement F)
      → empty (judged floats baseline rules m).1
        ≡ (keeps_cases baseline m && clean (judged floats baseline rules m).0)
  unfolding judged shrunk
  judged_agrees baseline rules m =
      let recorded = metrics_of baseline m.capability in
      let names = names_of floats recorded m in
      ground (
        arith,
        empty-append (shrunk floats baseline m) (rows_of floats rules recorded m names).1,
        rows_agree rules recorded m names,
      )

  judge_all_agrees :
      (baseline : Baseline F) (rules : Rules F) (ms : List (Measurement F))
      → empty (judge_all floats baseline rules ms).1
        ≡ (all (keeps_cases baseline) ms && clean (judge_all floats baseline rules ms).0)
  unfolding judge_all
  judge_all_agrees baseline rules [] = refl
  judge_all_agrees baseline rules (m ∷ ms) = ground (
    arith,
    empty-append (judged floats baseline rules m).1 (judge_all floats baseline rules ms).1,
    clean-append (judged floats baseline rules m).0 (judge_all floats baseline rules ms).0,
    judged_agrees baseline rules m,
    judge_all_agrees baseline rules ms,
  )

  -- A run that measured something passes exactly if no set has fewer cases than the baseline records
  -- and each row of its table has a verdict that fails no rule.
  pub table_agrees :
      (m : Measurement F) (ms : List (Measurement F)) (baseline : Baseline F) (rules : Rules F)
      (settings : Settings)
      → passed (judge floats (m ∷ ms) baseline rules settings) ≡ (
          all (keeps_cases baseline) (m ∷ ms)
          && clean (judge floats (m ∷ ms) baseline rules settings).rows)
  unfolding judge incomparable_rows
  table_agrees m ms baseline rules settings =
      ground (arith, judge_all_agrees baseline rules (m ∷ ms))

  -- No metric of a measurement is below its floor.
  abbrev pub MeetsFloors : Rules F → Measurement F → Type 0
  MeetsFloors rules m =
      (name : String) (value floor : F)
      → get name m.metrics ≡ some value
      → get name rules.floors ≡ some floor
      → floats.lt value floor ≡ false

  floors_iff :
      (tag : String) (sets : Capability → SetRecord) (recorded_at : Settings) (rules : Rules F)
      (ms : List (Measurement F))
      → All (λ m. (sets m.capability).cases ≤ m.cases) ms
      → All (Holds floats (unrecorded tag sets recorded_at) rules) ms ↔ All (MeetsFloors rules) ms
  unfolding unrecorded metrics_of get
  floors_iff tag sets recorded_at rules [] sized = ground arith
  floors_iff tag sets recorded_at rules (m ∷ ms) sized =
      let rest = floors_iff tag sets recorded_at rules ms sized.1 in
      (
        λ h. (λ name value floor v f. ((h.0.1 name).1 value v).0 floor f, rest.0 h.1),
        λ h. (
          (
            sized.0,
            λ name. (
              λ held. absurd (ground (arith, held)),
              λ value v.
                  (λ floor f. h.0 name value floor v f, λ b held. absurd (ground (arith, held))),
            ),
          ),
          rest.1 h.1,
        ),
      )

  -- Against a tag that nothing was recorded for, a run over sets that have the cases they had passes
  -- exactly if no metric is below its floor, whatever settings it was measured under.
  pub first_run :
      (ms : List (Measurement F)) (tag : String) (sets : Capability → SetRecord)
      (recorded_at settings : Settings) (rules : Rules F)
      → All (λ m. (sets m.capability).cases ≤ m.cases) ms
      → (passed (judge floats ms (unrecorded tag sets recorded_at) rules settings) ≡ true)
        ↔ All (MeetsFloors rules) ms
  unfolding unrecorded
  first_run ms tag sets recorded_at settings rules sized =
      let (split, join) = passed_iff floats ms (unrecorded tag sets recorded_at) rules settings in
      let (floors, back) = floors_iff tag sets recorded_at rules ms sized in
      (λ h. floors (split h).1, λ h. join (inl refl, back h))

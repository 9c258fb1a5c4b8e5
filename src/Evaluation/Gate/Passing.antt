-- ===== src/Evaluation/Gate/Passing.antt =====
-- src/claim_triage/evaluation/gate.py: what a run that passes is.
use claim_triage_agent.Common.{
  ◌≡◌, refl, ◌↔◌, ◌⊎◌, inl, inr, ◌≤◌, true, false, String, Option, none, some, List, [], ◌∷◌, ◌++◌,
  arith, Bool-cases, Has, All, empty, empty-append,
}
use claim_triage_agent.Floats.{Floats}
use claim_triage_agent.Evaluation.Baselines.{Baseline, Settings, metrics_of}
use claim_triage_agent.Dict.{Dict, get, keys, present, missing_from, sorted}
use claim_triage_agent.Dict.Laws.{Has-append, keys_iff, missing_iff, sorted_iff}
use claim_triage_agent.Evaluation.Measurements.{Measurement}
use claim_triage_agent.Evaluation.Gate.{
  Rules, passed, other_versions_of, other_question, has_regressed, failures, named, names_of,
  shrunk, rows_of, judged, judge_all, judge,
}

-- The baseline asks the question that the run answers.
abbrev pub IsComparable : {F : Type 0} → Baseline F → List (Measurement F) → Settings → Type 0
IsComparable baseline ms settings =
    (empty baseline.metrics ≡ true)
    ⊎ (baseline.settings.top_k ≡ settings.top_k)
      × All (λ m. m.version ≡ (baseline.sets m.capability).version) ms

empty-append_iff :
    {A : Type 0} (xs ys : List A)
    → (empty (xs ++ ys) ≡ true) ↔ ((empty xs ≡ true) × (empty ys ≡ true))
empty-append_iff xs ys = ground (arith, empty-append xs ys)

module _ {F : Type 0} where
  versions_iff :
      (baseline : Baseline F) (ms : List (Measurement F))
      → (empty (other_versions_of baseline ms) ≡ true)
        ↔ All (λ m. m.version ≡ (baseline.sets m.capability).version) ms
  unfolding other_versions_of
  versions_iff baseline [] = ground arith
  versions_iff baseline (m ∷ ms) = ground (arith, versions_iff baseline ms)

  pub other_question_iff :
      (baseline : Baseline F) (ms : List (Measurement F)) (settings : Settings)
      → (present (other_question baseline ms settings) ≡ false) ↔ IsComparable baseline ms settings
  unfolding other_question
  other_question_iff baseline ms settings = ground (arith, versions_iff baseline ms)

module _ {F : Type 0} (floats : Floats F) where
  -- No metric of this name is lost, below its floor, or regressed.
  abbrev pub Meets : Rules F → Dict F → Measurement F → String → Type 0
  Meets rules recorded m name =
      (present (get name recorded) ≡ true → present (get name m.metrics) ≡ true)
      × ((value : F)
          → get name m.metrics ≡ some value
          → ((floor : F) → get name rules.floors ≡ some floor → floats.lt value floor ≡ false)
            × ((b : F)
                → get name recorded ≡ some b
                → has_regressed floats value b rules.tolerance ≡ false))

  -- The set of a capability has not shrunk, and every name meets the rules.
  abbrev pub Holds : Baseline F → Rules F → Measurement F → Type 0
  Holds baseline rules m =
      ((baseline.sets m.capability).cases ≤ m.cases)
      × ((name : String) → Meets rules (metrics_of baseline m.capability) m name)

  failures_iff :
      (name : String) (value at_baseline floor : Option F) (tolerance : F)
      → (empty (failures floats name value at_baseline floor tolerance) ≡ true) ↔ (
          (present value ≡ true)
          × ((v : F)
              → value ≡ some v
              → ((f : F) → floor ≡ some f → floats.lt v f ≡ false)
                × ((b : F) → at_baseline ≡ some b → has_regressed floats v b tolerance ≡ false)))
  unfolding failures
  failures_iff name none at_baseline floor tolerance =
      (λ h. absurd (ground (arith, h)), λ h. absurd (ground (arith, h.0)))
  failures_iff name (some v) none none tolerance = ground arith
  failures_iff name (some v) none (some f) tolerance =
      (λ h. ground (arith, h), λ h. ground (arith, (h.1 v refl).0 f refl))
  failures_iff name (some v) (some b) none tolerance =
      (λ h. ground (arith, h), λ h. ground (arith, (h.1 v refl).1 b refl))
  failures_iff name (some v) (some b) (some f) tolerance =
      (λ h. ground (arith, h), λ h. ground (arith, (h.1 v refl).0 f refl, (h.1 v refl).1 b refl))

  -- The failures of some names.
  named_iff :
      (rules : Rules F) (recorded : Dict F) (m : Measurement F) (names : List String)
      → (empty (named floats rules recorded m names).1 ≡ true) ↔ (
          (name : String)
          → Has name names
          → empty (
              failures floats name
                (get name m.metrics)
                (get name recorded)
                (get name rules.floors)
                rules.tolerance)
            ≡ true)
  unfolding named
  named_iff rules recorded m [] = (λ h name none_held. absurd none_held, λ h. refl)
  named_iff rules recorded m (name ∷ names) =
      let rest = named_iff rules recorded m names in
      let (split, join) =
        empty-append_iff
          (failures floats name (get name m.metrics) (get name recorded) (get name rules.floors)
            rules.tolerance)
          (named floats rules recorded m names).1 in
      (
        λ h n held. elim held [
          | inl here ↦ rw here ((split h).0)
          | inr there ↦ rest.0 ((split h).1) n there
        ],
        λ h. join (h name (inl refl), rest.1 (λ n held. h n (inr held))),
      )

  names_iff :
      (name : String) (recorded : Dict F) (m : Measurement F)
      → Has name (names_of floats recorded m)
        ↔ ((present (get name m.metrics) ≡ true) ⊎ (present (get name recorded) ≡ true))
  unfolding names_of
  names_iff name recorded m = ground (
    arith,
    Has-append name (keys m.metrics) (missing_from m.metrics (sorted (keys recorded))),
    keys_iff name m.metrics,
    missing_iff name m.metrics (sorted (keys recorded)),
    sorted_iff name (keys recorded),
    keys_iff name recorded,
    Bool-cases (present (get name m.metrics)),
  )

  name_iff :
      (rules : Rules F) (recorded : Dict F) (m : Measurement F) (name : String)
      → (empty (
            failures floats name
              (get name m.metrics)
              (get name recorded)
              (get name rules.floors)
              rules.tolerance)
          ≡ true)
        ↔ ((present (get name m.metrics) ≡ true)
            × ((value : F)
                → get name m.metrics ≡ some value
                → ((floor : F) → get name rules.floors ≡ some floor → floats.lt value floor ≡ false)
                  × ((b : F)
                      → get name recorded ≡ some b
                      → has_regressed floats value b rules.tolerance ≡ false)))
  name_iff rules recorded m name =
      failures_iff name (get name m.metrics) (get name recorded) (get name rules.floors)
        rules.tolerance

  -- Nothing is measured or recorded under a name that is on neither side.
  unnamed-Meets :
      (rules : Rules F) (recorded : Dict F) (m : Measurement F) (name : String)
      → present (get name m.metrics) ≡ false
      → present (get name recorded) ≡ false
      → Meets rules recorded m name
  unnamed-Meets rules recorded m name unmeasured unrecorded =
      (λ held. absurd (ground (arith, held)), λ value held. absurd (ground (arith, held)))

  rules_iff :
      (rules : Rules F) (recorded : Dict F) (m : Measurement F)
      → (empty (named floats rules recorded m (names_of floats recorded m)).1 ≡ true)
        ↔ ((name : String) → Meets rules recorded m name)
  rules_iff rules recorded m =
      let found = named_iff rules recorded m (names_of floats recorded m) in
      (
        λ h name. elim (Bool-cases (present (get name m.metrics))) [
          | inl held ↦
              let rules_of =
                (name_iff rules recorded m name).0
                  (found.0 h name ((names_iff name recorded m).1 (inl held))) in
              (λ _. held, rules_of.1)
          | inr lost ↦ elim (Bool-cases (present (get name recorded))) [
            | inr nowhere ↦ unnamed-Meets rules recorded m name lost nowhere
            | inl held ↦
                let rules_of =
                  (name_iff rules recorded m name).0
                    (found.0 h name ((names_iff name recorded m).1 (inr held))) in
                absurd (ground (arith, rules_of.0, lost))
          ]
        ],
        λ h. found.1 (λ name held. (name_iff rules recorded m name).1 (
          elim ((names_iff name recorded m).0 held) [
            | inl here ↦ here
            | inr there ↦ (h name).0 there
          ],
          (h name).1,
        )),
      )

  rows_of_failures :
      (rules : Rules F) (recorded : Dict F) (m : Measurement F) (names : List String)
      → (rows_of floats rules recorded m names).1 ≡ (named floats rules recorded m names).1
  unfolding rows_of named
  rows_of_failures rules recorded m [] = refl
  rows_of_failures rules recorded m (name ∷ names) = refl

  shrunk_iff :
      (baseline : Baseline F) (m : Measurement F)
      → (empty (shrunk floats baseline m) ≡ true) ↔ ((baseline.sets m.capability).cases ≤ m.cases)
  unfolding shrunk
  shrunk_iff baseline m = ground arith

  judged_iff :
      (baseline : Baseline F) (rules : Rules F) (m : Measurement F)
      → (empty (judged floats baseline rules m).1 ≡ true) ↔ Holds baseline rules m
  unfolding judged
  judged_iff baseline rules m =
      let recorded = metrics_of baseline m.capability in
      let names = names_of floats recorded m in
      ground (
        arith,
        empty-append (shrunk floats baseline m) (rows_of floats rules recorded m names).1,
        shrunk_iff baseline m,
        rows_of_failures rules recorded m names,
        rules_iff rules recorded m,
      )

  judge_all_iff :
      (baseline : Baseline F) (rules : Rules F) (ms : List (Measurement F))
      → (empty (judge_all floats baseline rules ms).1 ≡ true) ↔ All (Holds baseline rules) ms
  unfolding judge_all
  judge_all_iff baseline rules [] = ground arith
  judge_all_iff baseline rules (m ∷ ms) = ground (
    arith,
    empty-append (judged floats baseline rules m).1 (judge_all floats baseline rules ms).1,
    judged_iff baseline rules m,
    judge_all_iff baseline rules ms,
  )

  -- A run passes exactly if the baseline records no metric or asks the same question (its settings
  -- and the version of each set), no set has fewer cases than the baseline records, and of each
  -- name: what the baseline records is measured, and what is measured is neither below its floor nor
  -- regressed from its baseline.
  pub passed_iff :
      (ms : List (Measurement F)) (baseline : Baseline F) (rules : Rules F) (settings : Settings)
      → (passed (judge floats ms baseline rules settings) ≡ true)
        ↔ (IsComparable baseline ms settings × All (Holds baseline rules) ms)
  unfolding judge
  passed_iff ms baseline rules settings =
      ground (arith, other_question_iff baseline ms settings, judge_all_iff baseline rules ms)

-- ===== src/Evaluation/Runner/Endings.antt =====
-- src/claim_triage/evaluation/runner.py: the exit status of a run, and when it records a baseline.
use claim_triage_agent.Common.{
  ℕ, ◌≡◌, if◌then◌else◌, ◌⊎◌, Bool, true, false, String, Option, none, some, ◌&&◌,
}
use claim_triage_agent.Floats.{Floats}
use claim_triage_agent.Evaluation.Answers.{AnswerShapes}
use claim_triage_agent.Evaluation.Baselines.{Baseline}
use claim_triage_agent.Evaluation.Gate.{passed}
use claim_triage_agent.Evaluation.Material.{Disk, Read, Parsing}
use claim_triage_agent.Evaluation.Metrics.{Texts}
use claim_triage_agent.Evaluation.Recording.{Documents, write_file, recorded}
use claim_triage_agent.Evaluation.Sets.{SetShapes}
use claim_triage_agent.Evaluation.Runner.{
  Arguments, exit, crashed, Ran, Judged, Writes, judged_run, run_main,
}

module _ {F : Type 0} (floats : Floats F) (documents : Documents F) (writes : Writes)
    (arguments : Arguments) (judged : Judged F) where
  -- The run was asked to record what it measured, and passed.
  abbrev pub may_record : Bool
  may_record = arguments.records && passed judged.outcome

  abbrev pub to_record : Option (Baseline F)
  to_record = recorded floats documents judged.tag judged.sets judged.measurements judged.settings

  -- How a run that was judged ends: with nothing to record; with metrics that are no baseline; with a
  -- write that raised; or with the baseline written.
  abbrev pub EndsJudged : Disk → Ran F → Type 0
  EndsJudged disk ran =
      (may_record ≡ false)
        × (ran.disk ≡ disk)
        × (ran.ended ≡ exit (if passed judged.outcome then 0 else 1))
      ⊎ (may_record ≡ true) × (to_record ≡ none) × (ran.disk ≡ disk) × (ran.ended ≡ crashed)
      ⊎ ((baseline : Baseline F) × (left : Disk) × (may_record ≡ true)
          × (to_record ≡ some baseline)
          × (writes judged.destination (documents.dump_baseline baseline) disk ≡ some left)
          × (ran.disk ≡ left)
          × (ran.ended ≡ crashed))
      ⊎ ((baseline : Baseline F) × (may_record ≡ true)
          × (to_record ≡ some baseline)
          × (writes judged.destination (documents.dump_baseline baseline) disk ≡ none)
          × (ran.disk ≡ write_file judged.destination (documents.dump_baseline baseline) disk)
          × (ran.ended ≡ exit 0))

  -- What was to be recorded could not be: it is no baseline, or its write raised.
  abbrev pub IsUnrecorded : Disk → Type 0
  IsUnrecorded disk =
      (may_record ≡ true)
      × ((to_record ≡ none)
          ⊎ ((baseline : Baseline F) × (left : Disk) × (to_record ≡ some baseline)
              × (writes judged.destination (documents.dump_baseline baseline) disk ≡ some left)))

  -- The status of a run that was judged.
  StatusOf : Disk → ℕ → Type 0
  StatusOf disk status =
      (status ≡ 0) × (passed judged.outcome ≡ true) × ¬ (IsUnrecorded disk)
      ⊎ (status ≡ 1) × ((passed judged.outcome ≡ false) ⊎ IsUnrecorded disk)

module _ {J F D : Type 0} (floats : Floats F) (texts : Texts D) (parsing : Parsing J)
    (set_shapes : SetShapes J) (answer_shapes : AnswerShapes J F) (documents : Documents F)
    (default_baselines : String) (installed : Option String) (writes : Writes)
    (arguments : Arguments) (disk : Disk) where
  abbrev judging : Read (Judged F)
  judging =
      judged_run floats texts parsing set_shapes answer_shapes documents default_baselines installed
        arguments disk

  abbrev ran : Ran F
  ran =
      run_main floats texts parsing set_shapes answer_shapes documents default_baselines installed
        writes arguments disk

  abbrev IsFaulty : Judged F → Type 0
  IsFaulty judged =
      (passed judged.outcome ≡ false) ⊎ IsUnrecorded floats documents writes arguments judged disk

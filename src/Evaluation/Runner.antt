-- ===== src/Evaluation/Runner.antt =====
-- src/claim_triage/evaluation/runner.py: a run of the harness, from its options to its exit status. The
-- report is kept as the outcome that it shows.
pub mod Endings
pub mod Rerun
mod Tests
use claim_triage_agent.Common.{
  ℕ, Bool, true, false, String, Option, none, some, List, [], ◌∷◌, ◌++◌, not, ◌==◌, ◌&&◌,
  string_equality, if◌then◌else◌,
}
use Prim.Native.String.{◌++◌ as str_append}
use claim_triage_agent.Floats.{Floats}
use claim_triage_agent.Evaluation.Answers.{AnswerShapes, read_answers, answers_from_build}
use claim_triage_agent.Evaluation.Baselines.{Baseline, Settings, unrecorded}
use claim_triage_agent.Evaluation.Cases.{Sets, Answers}
use claim_triage_agent.Evaluation.Gate.{Rules, Outcome, Failure, passed, judge}
use claim_triage_agent.Evaluation.Material.{
  FilePath, Disk, Unreadable, Read, found, unreadable, ◌>>=◌, nothing_recorded, other_tag,
  not_installed, Parsing, is_file,
}
use claim_triage_agent.Evaluation.Measurements.{Measurement}
use claim_triage_agent.Evaluation.Metrics.{Texts}
use claim_triage_agent.Evaluation.Recording.{
  Documents, set_record, path_for, write_file, recorded, read_baseline, read_rules,
}
use claim_triage_agent.Evaluation.Scoring.{measure}
use claim_triage_agent.Evaluation.Sets.{SetShapes, read_sets}

pub record Arguments : Type 0 where
  pub sets : String
  pub rules : FilePath
  pub predictions : Option String
  pub baseline : Option FilePath
  pub tag : Option String
  pub records : Bool
  pub top_k : ℕ

-- What a run prints.
pub data Line (F : Type 0) : Type 0 where
  reported : Outcome F → Line F
  recorded_at : FilePath → Line F
  refusing : FilePath → Bool → List (Failure F) → Line F
  not_made : Unreadable → Line F

-- How `main` ends: with a status, or with an exception that nothing catches.
pub data Ended : Type 0 where
  exit : ℕ → Ended
  crashed : Ended

-- The status of the process: that of an exception is 1.
unfoldable pub process_status : Ended → ℕ
process_status (exit status) = status
process_status crashed = 1

pub record Ran (F : Type 0) : Type 0 where
  pub ended : Ended
  pub printed : List (Line F)
  pub disk : Disk

-- What is known once everything is read and judged.
pub record Judged (F : Type 0) : Type 0 where
  pub sets : Sets
  pub tag : String
  pub settings : Settings
  pub measurements : List (Measurement F)
  pub baseline : Baseline F
  pub destination : FilePath
  pub outcome : Outcome F

-- `release_tag`, of the version that the installed distribution declares, if it is installed
unfoldable pub release_tag : Option String → Read String
release_tag none = unreadable not_installed
release_tag (some version) = found (str_append "v" version)

abbrev pub status_of : {F : Type 0} → Outcome F → Ended
status_of outcome = exit (if passed outcome then 0 else 1)

-- `Path.write_text`, as it meets a file system: none where it writes all of the text, and what it
-- leaves on the disk where it raises.
abbrev pub Writes : Type 0
Writes = FilePath → String → Disk → Option Disk

module _ {F : Type 0} (floats : Floats F) (documents : Documents F) (writes : Writes) where
  raised : Judged F → Disk → Ran F
  raised judged disk = record {
    ended = crashed;
    printed = reported judged.outcome ∷ [];
    disk = disk;
  }

  -- `write_baseline` of what the run measured, once it may be recorded.
  unfoldable pub record_baseline : Judged F → Disk → Ran F
  unfolding recorded write_file raised
  record_baseline judged disk =
      elim (recorded floats documents judged.tag judged.sets judged.measurements judged.settings) [
        | none ↦ raised judged disk
        | some baseline ↦ elim (writes judged.destination (documents.dump_baseline baseline) disk) [
          | some left ↦ raised judged left
          | none ↦ record {
            ended = status_of judged.outcome;
            printed = reported judged.outcome ∷ recorded_at judged.destination ∷ [];
            disk = write_file judged.destination (documents.dump_baseline baseline) disk;
          }
        ]
      ]

  -- `_run`, from the outcome on
  unfoldable pub conclude_run : Arguments → Judged F → Disk → Ran F
  unfolding record_baseline is_file
  conclude_run arguments judged disk =
      if arguments.records && passed judged.outcome then record_baseline judged disk else record {
        ended = status_of judged.outcome;
        printed =
            reported judged.outcome
            ∷ (if arguments.records
                then refusing judged.destination (is_file judged.destination disk)
                    judged.outcome.failures
                  ∷ []
                else []);
        disk = disk;
      }

module _ {F : Type 0} (floats : Floats F) (documents : Documents F) where
  -- `_baseline`, of the tag's file or the one that was asked for
  unfoldable pub baseline_at :
      Arguments → FilePath → String → Sets → Settings → Disk → Read (Baseline F)
  unfolding read_baseline unrecorded is_file
  baseline_at arguments destination tag sets settings disk =
      if not (is_file destination disk)
      then (if arguments.records
          then found (unrecorded tag (set_record sets) settings)
          else unreadable (nothing_recorded tag destination))
      else do
        baseline ← read_baseline floats documents destination disk
        (if not (baseline.tag == tag)
            then (elim arguments.baseline [
              | none ↦ unreadable (other_tag destination baseline.tag tag)
              | some _ ↦
                  if arguments.records
                  then unreadable (other_tag destination baseline.tag tag)
                  else found baseline
            ])
            else found baseline)

module _ {J F D : Type 0} (floats : Floats F) (texts : Texts D) (parsing : Parsing J)
    (set_shapes : SetShapes J) (answer_shapes : AnswerShapes J F) (documents : Documents F)
    (default_baselines : String) (installed : Option String) where
  unfoldable pub destination_of : Arguments → String → FilePath
  unfolding path_for
  destination_of arguments tag = elim arguments.baseline [
    | none ↦ path_for default_baselines tag
    | some path ↦ path
  ]

  unfoldable pub tag_of : Arguments → Read String
  unfolding release_tag
  tag_of arguments = elim arguments.tag [ none ↦ release_tag installed | some tag ↦ found tag ]

  unfoldable pub answers_for : Arguments → Sets → Disk → Read (Answers F)
  unfolding read_answers answers_from_build
  answers_for arguments sets disk = elim arguments.predictions [
    | none ↦ found (answers_from_build sets)
    | some directory ↦ read_answers parsing answer_shapes directory sets disk
  ]

  -- `_run`, until the outcome
  unfoldable pub judged_run : Arguments → Disk → Read (Judged F)
  unfolding read_sets read_rules answers_for measure tag_of destination_of baseline_at judge
  judged_run arguments disk = do
    sets ← read_sets parsing set_shapes arguments.sets disk
    rules ← read_rules floats documents arguments.rules disk
    answers ← answers_for arguments sets disk
    tag ← tag_of arguments
    let settings : Settings = record { top_k = arguments.top_k }
    let measurements = measure floats texts sets answers arguments.top_k
    let destination = destination_of arguments tag
    baseline ← baseline_at floats documents arguments destination tag sets settings disk
    found (record {
      sets = sets;
      tag = tag;
      settings = settings;
      measurements = measurements;
      baseline = baseline;
      destination = destination;
      outcome = judge floats measurements baseline rules settings;
    })

  -- `main`
  unfoldable pub run_main : Writes → Arguments → Disk → Ran F
  unfolding judged_run conclude_run
  run_main writes arguments disk = elim (judged_run arguments disk) [
    | unreadable why ↦ record { ended = exit 2; printed = not_made why ∷ []; disk = disk }
    | found judged ↦ conclude_run floats documents writes arguments judged disk
  ]

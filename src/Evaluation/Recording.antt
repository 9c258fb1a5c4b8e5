-- ===== src/Evaluation/Recording.antt =====
-- src/claim_triage/evaluation/baselines.py, with the names of scoring.py that a baseline is held to and
-- the rules of gate.py: what is read of a tag and recorded for it.
pub mod Names
pub mod Measured
pub mod Rejudged
mod Tests
use Prim.Native.String.{◌++◌ as str_append}
use claim_triage_agent.Common.{
  ℕ, Bool, true, String, Option, none, some, List, [], ◌∷◌, length, ◌&&◌, ◌||◌, string_equality,
  if◌then◌else◌,
}
use claim_triage_agent.Floats.{Floats}
use claim_triage_agent.Evaluation.Baselines.{Baseline, Settings, SetRecord}
use claim_triage_agent.Evaluation.Cases.{Sets}
use claim_triage_agent.Dict.{Dict, get, put, present}
use claim_triage_agent.Evaluation.Gate.{Rules}
use claim_triage_agent.Evaluation.Material.{FilePath, Disk, Read, same_file, is_in, document}
use claim_triage_agent.Evaluation.Measurements.{Capability, Measurement, Reading}

-- `METRIC_NAMES`
abbrev pub metric_names : List String
metric_names =
    "extraction.precision" ∷ "extraction.recall" ∷ "extraction.f1" ∷ "retrieval.hit_rate"
    ∷ "retrieval.mrr" ∷ "retrieval.citation_validity" ∷ "classification.fraud_risk.precision"
    ∷ "classification.fraud_risk.recall" ∷ "classification.fraud_risk.f1"
    ∷ "classification.severity.precision" ∷ "classification.severity.recall"
    ∷ "classification.severity.f1" ∷ "classification.routing_accuracy"
    ∷ "classification.fraud_pr_auc" ∷ []

-- What pydantic reads of a whole file, before the validators below, and writes for a baseline; and
-- whether a name matches `FIELD_F1`.
pub record Documents (F : Type 0) : Type 0 where
  pub rules : String → Option (Rules F)
  pub baseline : String → Option (Baseline F)
  pub dump_baseline : Baseline F → String
  pub is_field_f1 : String → Bool

abbrev pub recorded_places : ℕ
recorded_places = 6

-- One set as it is recorded: its version and how many cases it holds.
unfoldable pub set_record : Sets → Capability → SetRecord
set_record sets Capability.extraction = record {
  version = sets.extraction.version;
  cases = length sets.extraction.cases;
}
set_record sets Capability.retrieval = record {
  version = sets.retrieval.version;
  cases = length sets.retrieval.cases;
}
set_record sets Capability.classification = record {
  version = sets.classification.version;
  cases = length sets.classification.cases;
}

-- `path_for`
unfoldable pub path_for : String → String → FilePath
path_for directory tag = record { directory = directory; name = str_append tag ".json" }

-- `path.write_text`, of a file that can be written
unfoldable pub write_file : FilePath → String → Disk → Disk
write_file path text [] = record { path = path; text = some text } ∷ []
write_file path text (file ∷ disk) =
    let rest = write_file path text disk in
    if same_file file.path path
    then record { path = path; text = some text } ∷ disk
    else file ∷ rest

module _ {F : Type 0} (floats : Floats F) (documents : Documents F) where
  -- `is_metric`
  unfoldable pub is_metric : String → Bool
  unfolding is_in
  is_metric name = is_in name metric_names || documents.is_field_f1 name

  -- `refuse_unmeasurable`, for every entry
  unfoldable pub are_measurable : Dict F → Bool
  unfolding is_metric
  are_measurable [] = true
  are_measurable (kv ∷ d) =
      is_metric kv.0
      && floats.le (floats.of 0) kv.1
      && floats.le kv.1 (floats.of 1)
      && are_measurable d

  -- name: round(value, RECORDED_PLACES), of one measurement
  unfoldable pub round_all : Dict F → Dict F → Dict F
  unfolding put
  round_all [] metrics = metrics
  round_all (kv ∷ d) metrics = round_all d (put kv.0 (floats.round kv.1 recorded_places) metrics)

  unfoldable pub recorded_metrics : List (Measurement F) → Dict F → Dict F
  unfolding round_all
  recorded_metrics [] metrics = metrics
  recorded_metrics (m ∷ ms) metrics =
      recorded_metrics ms
        (elim m.reading [ Reading.scored ↦ round_all m.metrics metrics | _ ↦ metrics ])

  -- `recorded`; `none` is the `ValidationError` of a metric that `refuse_unmeasurable` refuses.
  unfoldable pub recorded : String → Sets → List (Measurement F) → Settings → Option (Baseline F)
  unfolding recorded_metrics are_measurable set_record
  recorded tag sets measurements settings =
      let metrics = recorded_metrics measurements [] in
      if are_measurable metrics
      then some
          (record { tag = tag; settings = settings; sets = set_record sets; metrics = metrics })
      else none

  -- A model whose validators hold.
  abbrev pub checked : {A : Type 0} → (A → Bool) → Option A → Option A
  checked test none = none
  checked test (some a) = if test a then some a else none

  -- `read_baseline`
  unfoldable pub read_baseline : FilePath → Disk → Read (Baseline F)
  unfolding document are_measurable
  read_baseline path disk =
      document (λ text. checked (λ b. are_measurable b.metrics) (documents.baseline text)) path disk

  -- `read_rules`
  unfoldable pub read_rules : FilePath → Disk → Read (Rules F)
  unfolding document are_measurable get
  read_rules path disk =
      document
        (λ text.
          checked
            (λ r. are_measurable r.floors && present (get "retrieval.citation_validity" r.floors))
            (documents.rules text))
        path disk

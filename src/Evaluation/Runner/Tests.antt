-- ===== src/Evaluation/Runner/Tests.antt =====
-- The harness at a small disk, on which every text is one line and its own JSON.
use claim_triage_agent.Common.{
  ℕ, ◌≡◌, refl, true, false, String, Option, none, some, [], ◌∷◌, ◌==◌, string_equality,
  if◌then◌else◌,
}
use claim_triage_agent.Evaluation.Answers.{AnswerShapes, read_one}
use claim_triage_agent.Evaluation.Answers.Recorded.{IsRead, read_one-IsRead}
use claim_triage_agent.Evaluation.Baselines.{Baseline}
use claim_triage_agent.Evaluation.Cases.{Sets}
use claim_triage_agent.Evaluation.Measurements.{Capability}
use claim_triage_agent.Evaluation.Metrics.{value}
use claim_triage_agent.Evaluation.Material.{FilePath, File, Disk, Read, found, Parsing}
use claim_triage_agent.Evaluation.Recording.{Documents, set_record, write_file, recorded}
use claim_triage_agent.Evaluation.Runner.{
  Arguments, Writes, exit, Ran, Judged, judged_run, run_main, baseline_at,
}
use claim_triage_agent.Evaluation.Runner.Rerun.{recorded_again}
use claim_triage_agent.Evaluation.Scoring.Tests.{plain}
use claim_triage_agent.Evaluation.Sets.{SetShapes, SetHeader}
use claim_triage_agent.Evaluation.Tests.{millionths, rules, at_five}

abbrev parsing : Parsing String
parsing = record {
  split_lines = λ text. text ∷ [];
  strip = λ line. line;
  loads = λ line. some line;
}

abbrev header : String → Option SetHeader
header line =
    if line == "extraction"
    then some (record { capability = Capability.extraction; version = 1 })
    else if line == "retrieval"
    then some (record { capability = Capability.retrieval; version = 1 })
    else if line == "classification"
    then some (record { capability = Capability.classification; version = 1 })
    else none

abbrev set_shapes : SetShapes String
set_shapes = record {
  header = header;
  extraction = λ line. none;
  retrieval = λ line. none;
  classification = λ line. none;
}

abbrev answer_shapes : AnswerShapes String ℕ
answer_shapes = record {
  envelope = λ line. some (line, "Volvo");
  extraction = λ make. some (("make", value make) ∷ []);
  retrieval = λ line. none;
  classification = λ line. none;
}

abbrev no_sets : Sets
no_sets = record {
  extraction = record { version = 1; cases = [] };
  retrieval = record { version = 1; cases = [] };
  classification = record { version = 1; cases = [] };
}

abbrev nothing_yet : Baseline ℕ
nothing_yet = record { tag = "v1"; settings = at_five; sets = set_record no_sets; metrics = [] }

abbrev documents : Documents ℕ
documents = record {
  rules = λ text. if text == "rules" then some rules else none;
  baseline = λ text. if text == "nothing yet" then some nothing_yet else none;
  dump_baseline = λ b. "nothing yet";
  is_field_f1 = λ name. false;
}

abbrev at : String → String → FilePath
at directory name = record { directory = directory; name = name }

abbrev file : String → String → String → File
file directory name text = record { path = at directory name; text = some text }

abbrev disk : Disk
disk =
    file "golden" "extraction.jsonl" "extraction"
    ∷ file "golden" "retrieval.jsonl" "retrieval"
    ∷ file "golden" "classification.jsonl" "classification"
    ∷ file "evaluation" "gate.json" "rules"
    ∷ []

abbrev recording : Arguments
recording = record {
  sets = "golden";
  rules = at "evaluation" "gate.json";
  predictions = none;
  baseline = none;
  tag = some "v1";
  records = true;
  top_k = 5;
}

abbrev succeeds : Writes
succeeds path text before = none

abbrev ran : Arguments → Disk → Ran ℕ
ran arguments on =
    run_main millionths plain parsing set_shapes answer_shapes documents "baselines" none succeeds
      arguments on

abbrev judging : Arguments → Disk → Read (Judged ℕ)
judging arguments on =
    judged_run millionths plain parsing set_shapes answer_shapes documents "baselines" none
      arguments on

records_first :
    (ran recording disk).disk
    ≡ file "golden" "extraction.jsonl" "extraction"
      ∷ file "golden" "retrieval.jsonl" "retrieval"
      ∷ file "golden" "classification.jsonl" "classification"
      ∷ file "evaluation" "gate.json" "rules"
      ∷ file "baselines" "v1.json" "nothing yet"
      ∷ []
unfolding run_main
records_first = refl

nothing_to_judge_against : (ran (record recording { records = false }) disk).ended ≡ exit 2
unfolding run_main
nothing_to_judge_against = refl

recorded_again_example :
    baseline_at millionths documents recording
      (at "baselines" "v1.json")
      "v1"
      no_sets
      at_five
      (write_file (at "baselines" "v1.json") (documents.dump_baseline nothing_yet) disk)
    ≡ found nothing_yet
recorded_again_example =
    recorded_again millionths documents "v1" no_sets [] at_five nothing_yet
      (at "baselines" "v1.json") disk recording no_sets at_five (unfold recorded in refl) refl

abbrev answered_disk : Disk
answered_disk = file "answers" "extraction.jsonl" "E1" ∷ disk

read_one-IsRead_example :
    IsRead parsing answer_shapes answer_shapes.extraction
      (at "answers" "extraction.jsonl")
      Capability.extraction
      ("E1" ∷ [])
      answered_disk
      (some (("E1", ("make", value "Volvo") ∷ []) ∷ []))
read_one-IsRead_example =
    read_one-IsRead parsing answer_shapes answer_shapes.extraction (at "answers" "extraction.jsonl")
      Capability.extraction ("E1" ∷ []) answered_disk
      (some (("E1", ("make", value "Volvo") ∷ []) ∷ [])) (unfold read_one in refl)

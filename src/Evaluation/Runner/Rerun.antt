-- ===== src/Evaluation/Runner/Rerun.antt =====
-- src/claim_triage/evaluation/runner.py and baselines.py: what a run recorded is what a later run of
-- the tag is judged against.
use claim_triage_agent.Common.{
  ◌≡◌, inl, inr, true, String, some, List, [], ◌∷◌, arith, Bool-cases, eq_self, string_equality,
}
use claim_triage_agent.Floats.{Floats}
use claim_triage_agent.Evaluation.Baselines.{Baseline, Settings}
use claim_triage_agent.Evaluation.Cases.{Sets}
use claim_triage_agent.Evaluation.Material.{
  FilePath, Disk, found, same_file, find_file, is_file, text_of, document,
}
use claim_triage_agent.Evaluation.Measurements.{Measurement}
use claim_triage_agent.Evaluation.Recording.{
  Documents, write_file, recorded, are_measurable, recorded_metrics, read_baseline,
}
use claim_triage_agent.Evaluation.Runner.{Arguments, baseline_at}

same_file_self : (path : FilePath) → same_file path path ≡ true
same_file_self path = ground (arith, eq_self path.directory, eq_self path.name)

find_file-write_file :
    (path : FilePath) (text : String) (disk : Disk)
    → find_file path (write_file path text disk) ≡ some (some text)
unfolding find_file write_file
find_file-write_file path text [] = ground (arith, same_file_self path)
find_file-write_file path text (file ∷ disk) = ground (
  arith,
  same_file_self path,
  Bool-cases (same_file file.path path),
  find_file-write_file path text disk,
)

module _ {F : Type 0} (floats : Floats F) (documents : Documents F) where
  recorded-measurable :
      (tag : String) (sets : Sets) (ms : List (Measurement F)) (settings : Settings)
      (b : Baseline F)
      → recorded floats documents tag sets ms settings ≡ some b
      → (b.tag ≡ tag) × (are_measurable floats documents b.metrics ≡ true)
  unfolding recorded
  recorded-measurable tag sets ms settings b made =
      elim (Bool-cases
        (are_measurable floats documents (recorded_metrics floats documents ms []))) [
          | inl measurable ↦ ground (arith, made, measurable)
          | inr refused ↦ absurd (ground (arith, made, refused))
        ]

  -- What was recorded for a tag and written reads back: a run of the same tag that finds the file
  -- there is judged against what was recorded, whatever its other options, its sets and its
  -- settings. This asks that the text of the recorded baseline reads as that baseline.
  pub recorded_again :
      (tag : String) (sets : Sets) (ms : List (Measurement F)) (settings : Settings)
      (b : Baseline F) (path : FilePath) (disk : Disk) (later : Arguments) (sets' : Sets)
      (settings' : Settings)
      → recorded floats documents tag sets ms settings ≡ some b
      → documents.baseline (documents.dump_baseline b) ≡ some b
      → baseline_at floats documents later path tag sets' settings'
          (write_file path (documents.dump_baseline b) disk)
        ≡ found b
  unfolding baseline_at is_file read_baseline document text_of
  recorded_again tag sets ms settings b path disk later sets' settings' made reads =
      let (same_tag, measurable) = recorded-measurable tag sets ms settings b made in
      ground (
        arith,
        find_file-write_file path (documents.dump_baseline b) disk,
        reads,
        measurable,
        same_tag,
        eq_self tag,
      )

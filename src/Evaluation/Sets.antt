-- ===== src/Evaluation/Sets.antt =====
-- src/claim_triage/evaluation/sets.py: reading a directory as the three sets. `path.stem` is compared
-- by the file's whole name, which is the capability's own with one suffix.
use claim_triage_agent.Common.{
  ℕ, String, Option, List, [], ◌∷◌, not, ◌==◌, string_equality, if◌then◌else◌,
}
use claim_triage_agent.Evaluation.Answers.{ids_of}
use claim_triage_agent.Evaluation.Cases.{
  ExtractionCase, RetrievalCase, ClassificationCase, GoldenSet, Sets,
}
use claim_triage_agent.Evaluation.Measurements.{Capability}
use claim_triage_agent.Evaluation.Material.{
  FilePath, Disk, Read, found, unreadable, ◌>>=◌, lacks_sets, no_header, other_capability, Parsing,
  lines, parsed, is_file, only_known, refuse_repeats, set_file,
}

-- `SetHeader`, without the description that nothing reads.
pub record SetHeader : Type 0 where
  pub capability : Capability
  pub version : ℕ

-- What pydantic validates of a line of a set.
pub record SetShapes (J : Type 0) : Type 0 where
  pub header : J → Option SetHeader
  pub extraction : J → Option ExtractionCase
  pub retrieval : J → Option RetrievalCase
  pub classification : J → Option ClassificationCase

abbrev pub set_at : String → Capability → FilePath
set_at directory capability = record { directory = directory; name = set_file capability }

-- The capabilities that the directory has no file of.
unfoldable pub missing_sets : String → Disk → List Capability → List String
unfolding is_file
missing_sets directory disk [] = []
missing_sets directory disk (c ∷ capabilities) =
    let rest = missing_sets directory disk capabilities in
    if is_file (set_at directory c) disk then rest else set_file c ∷ rest

unfoldable pub refuse_missing : String → List String → Read (Unit {0})
refuse_missing directory [] = found tt
refuse_missing directory (name ∷ names) = unreadable (lacks_sets directory (name ∷ names))

abbrev pub capabilities : List Capability
capabilities = Capability.extraction ∷ Capability.retrieval ∷ Capability.classification ∷ []

module _ {J : Type 0} (parsing : Parsing J) where
  unfoldable pub parse_each :
      {C : Type 0} → (J → Option C) → FilePath → List (String × ℕ) → Read (List C)
  unfolding parsed
  parse_each validate path [] = found []
  parse_each validate path (line ∷ later) = do
    one ← parsed parsing validate path line
    rest ← parse_each validate path later
    found (one ∷ rest)

  module _ (shapes : SetShapes J) {C : Type 0} (validate : J → Option C) (id_of : C → String) where
    -- The header, and the lines after it.
    unfoldable pub read_cases : FilePath → List (String × ℕ) → Read (GoldenSet C)
    unfolding parsed parse_each refuse_repeats ids_of
    read_cases path [] = unreadable (no_header path)
    read_cases path (first ∷ later) = do
      header ← parsed parsing shapes.header path first
      (if not (set_file header.capability == path.name)
          then unreadable (other_capability path first.1 header.capability)
          else do
            cases ← parse_each validate path later
            _ ← refuse_repeats path [] (ids_of id_of cases)
            found (record { version = header.version; cases = cases }))

    -- `read_set`
    unfoldable pub read_set : FilePath → Disk → Read (GoldenSet C)
    unfolding lines read_cases
    read_set path disk = lines parsing path disk >>= λ found_lines. read_cases path found_lines

  -- `read_sets`
  unfoldable pub read_sets : SetShapes J → String → Disk → Read Sets
  unfolding only_known missing_sets refuse_missing read_set
  read_sets shapes directory disk = do
    _ ← only_known directory disk
    _ ← refuse_missing directory (missing_sets directory disk capabilities)
    extraction ←
        read_set shapes shapes.extraction (λ c. c.case_id) (set_at directory Capability.extraction)
          disk
    retrieval ←
        read_set shapes shapes.retrieval (λ c. c.case_id) (set_at directory Capability.retrieval)
          disk
    classification ←
        read_set shapes shapes.classification (λ c. c.case_id)
          (set_at directory Capability.classification) disk
    found
        (record { extraction = extraction; retrieval = retrieval; classification = classification })

-- ===== src/Evaluation/Answers.antt =====
-- src/claim_triage/evaluation/answers.py and build.py: where the answers of a run come from.
pub mod Recorded
use claim_triage_agent.Common.{
  ℕ, ◌+◌, Bool, true, false, String, Option, none, some, List, [], ◌∷◌, length, empty, not, ◌==◌,
  string_equality, if◌then◌else◌,
}
use claim_triage_agent.Evaluation.Cases.{
  ExtractionCase, RetrievalCase, ClassificationCase, Sets, Answers, RetrievalAnswer,
  ClassificationAnswer,
}
use claim_triage_agent.Dict.{Dict, keys, put}
use claim_triage_agent.Evaluation.Measurements.{Capability}
use claim_triage_agent.Evaluation.Metrics.{Scalar}
use claim_triage_agent.Evaluation.Material.{
  FilePath, Disk, Read, found, unreadable, ◌>>=◌, answers_nothing, no_answers, unheld_case, Parsing,
  lines, parsed, validated, is_file, only_known, is_in, refuse_repeats, set_file,
}

-- What pydantic validates of a line of a recorded answers file.
pub record AnswerShapes (J F : Type 0) : Type 0 where
  pub envelope : J → Option (String × J)
  pub extraction : J → Option (Dict Scalar)
  pub retrieval : J → Option RetrievalAnswer
  pub classification : J → Option (ClassificationAnswer F)

-- `case_ids`, in the order of the cases
unfoldable pub ids_of : {C : Type 0} → (C → String) → List C → List String
ids_of id_of [] = []
ids_of id_of (c ∷ cases) = id_of c ∷ ids_of id_of cases

-- answers[case_id] = answer, of each in turn
unfoldable pub put_all : {A : Type 0} → List (String × A) → Dict A → Dict A
unfolding put
put_all [] answers = answers
put_all (recorded ∷ later) answers = put_all later (put recorded.0 recorded.1 answers)

module _ {J F : Type 0} (parsing : Parsing J) (shapes : AnswerShapes J F) where
  module _ {A : Type 0} (validate : J → Option A) where
    -- One line of `_read_one`.
    unfoldable pub read_line : FilePath → Capability → List String → String × ℕ → Read (String × A)
    unfolding parsed validated is_in
    read_line path capability held line = do
      (case_id, answer) ← parsed parsing shapes.envelope path line
      (if not (is_in case_id held)
          then unreadable (unheld_case path line.1 case_id capability)
          else validated parsing validate answer path line.1 >>= λ a. found (case_id, a))

    unfoldable pub read_each :
        FilePath → Capability → List String → List (String × ℕ) → Read (List (String × A))
    unfolding read_line
    read_each path capability held [] = found []
    read_each path capability held (line ∷ later) = do
      one ← read_line path capability held line
      rest ← read_each path capability held later
      found (one ∷ rest)

    -- A file that is there, of a capability that the sets hold cases for.
    unfoldable pub read_file : FilePath → Capability → List String → Disk → Read (Dict A)
    unfolding lines read_each refuse_repeats put_all keys
    read_file path capability held disk = do
      found_lines ← lines parsing path disk
      recorded ← read_each path capability held found_lines
      _ ← refuse_repeats path [] (keys recorded)
      found (put_all recorded [])

    -- `_read_one`
    unfoldable pub read_one : FilePath → Capability → List String → Disk → Read (Option (Dict A))
    unfolding is_file read_file
    read_one path capability held disk =
        if empty held
        then (if is_file path disk
            then unreadable (answers_nothing path capability)
            else found none)
        else if not (is_file path disk)
        then unreadable (no_answers path capability (length held))
        else read_file path capability held disk >>= λ answers. found (some answers)

  abbrev pub answers_at : String → Capability → FilePath
  answers_at directory capability = record { directory = directory; name = set_file capability }

  -- `read_answers`
  unfoldable pub read_answers : String → Sets → Disk → Read (Answers F)
  unfolding only_known read_one ids_of
  read_answers directory sets disk = do
    _ ← only_known directory disk
    extraction ←
        read_one shapes.extraction (answers_at directory Capability.extraction)
          Capability.extraction (ids_of (λ c. c.case_id) sets.extraction.cases) disk
    retrieval ←
        read_one shapes.retrieval (answers_at directory Capability.retrieval) Capability.retrieval
          (ids_of (λ c. c.case_id) sets.retrieval.cases) disk
    classification ←
        read_one shapes.classification (answers_at directory Capability.classification)
          Capability.classification (ids_of (λ c. c.case_id) sets.classification.cases) disk
    found
        (record { extraction = extraction; retrieval = retrieval; classification = classification })

-- `answers_from_build`: no stage is registered for any capability, so each is answered by nothing.
unfoldable pub answers_from_build : {F : Type 0} → Sets → Answers F
answers_from_build sets = record { extraction = none; retrieval = none; classification = none }

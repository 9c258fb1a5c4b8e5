-- ===== src/Evaluation/Answers/Recorded.antt =====
-- src/claim_triage/evaluation/answers.py: recorded answers are about the cases of the set, once each.
use claim_triage_agent.Common.{
  ◌≡◌, refl, sym, inl, inr, ℕ, true, false, String, Option, none, some, List, [], ◌∷◌, ◌++◌, length,
  empty, ◌==◌, ◌||◌, All, arith, eq_iff, Bool-cases, append_assoc, append-nil, string_equality,
}
use claim_triage_agent.Dict.{Dict, keys, put}
use claim_triage_agent.Evaluation.Measurements.{Capability}
use claim_triage_agent.Evaluation.Material.{
  FilePath, Disk, found, Parsing, lines, parsed, validated, is_file, is_in, refuse_repeats,
}
use claim_triage_agent.Evaluation.Material.Chains.{found-bind}
use claim_triage_agent.Evaluation.Material.Repeats.{IsDistinct, AreUnseen, refuse_repeats_iff}
use claim_triage_agent.Evaluation.Answers.{
  AnswerShapes, put_all, read_line, read_each, read_file, read_one,
}

nothing_seen : (ids : List String) → AreUnseen [] ids
unfolding is_in
nothing_seen [] = tt
nothing_seen (id ∷ ids) = (refl, nothing_seen ids)

put-append :
    {A : Type 0} (k : String) (v : A) (d : Dict A)
    → is_in k (keys d) ≡ false
    → put k v d ≡ d ++ ((k, v) ∷ [])
unfolding put keys is_in
put-append k v [] fresh = refl
put-append k v (kv ∷ d) fresh =
    ground (arith, fresh, eq_iff k kv.0, eq_iff kv.0 k, put-append k v d)

is_in-append :
    {A : Type 0} (i k : String) (v : A) (d : Dict A)
    → is_in i (keys (d ++ ((k, v) ∷ []))) ≡ (is_in i (keys d) || i == k)
unfolding keys is_in
is_in-append i k v [] = ground arith
is_in-append i k v (kv ∷ d) = ground (arith, is_in-append i k v d)

AreUnseen-append :
    {A : Type 0} (k : String) (v : A) (d : Dict A) (ids : List String)
    → AreUnseen (keys d) ids
    → is_in k ids ≡ false
    → AreUnseen (keys (d ++ ((k, v) ∷ []))) ids
unfolding is_in
AreUnseen-append k v d [] unseen fresh = tt
AreUnseen-append k v d (i ∷ ids) unseen fresh = (
  ground (arith, is_in-append i k v d, unseen.0, fresh, eq_iff k i, eq_iff i k),
  AreUnseen-append k v d ids unseen.1 (ground (arith, fresh)),
)

-- What is recorded under names of its own is kept as it is.
put_all-append :
    {A : Type 0} (recorded answers : Dict A)
    → IsDistinct (keys recorded)
    → AreUnseen (keys answers) (keys recorded)
    → put_all recorded answers ≡ answers ++ recorded
unfolding put_all keys
put_all-append [] answers distinct unseen = sym (append-nil answers)
put_all-append ((k, v) ∷ recorded) answers distinct unseen = cc (
  put-append k v answers unseen.0,
  put_all-append recorded (answers ++ ((k, v) ∷ [])) distinct.1
      (AreUnseen-append k v answers (keys recorded) unseen.1 distinct.0),
  append_assoc answers ((k, v) ∷ []) recorded,
)

put_all-distinct :
    {A : Type 0} (recorded : Dict A) → IsDistinct (keys recorded) → put_all recorded [] ≡ recorded
unfolding keys is_in
put_all-distinct recorded distinct =
    put_all-append recorded [] distinct (nothing_seen (keys recorded))

module _ {J F : Type 0} (parsing : Parsing J) (shapes : AnswerShapes J F) {A : Type 0}
    (validate : J → Option A) (path : FilePath) (capability : Capability) (held : List String) where
  read_line-held :
      (line : String × ℕ) (one : String × A)
      → read_line parsing shapes validate path capability held line ≡ found one
      → is_in one.0 held ≡ true
  unfolding read_line
  read_line-held line one was_read =
      let ((id, value), _, later) =
        found-bind (parsed parsing shapes.envelope path line) _ one was_read in
      elim (Bool-cases (is_in id held)) [
        | inl is_held ↦
            let (a, _, same) =
              found-bind (validated parsing validate value path line.1) (λ a. found (id, a)) one
                (ground (arith, later, is_held)) in
            ground (arith, same, is_held)
        | inr not_held ↦ absurd (ground (arith, not_held, later))
      ]

  read_each-held :
      (found_lines : List (String × ℕ)) (recorded : Dict A)
      → read_each parsing shapes validate path capability held found_lines ≡ found recorded
      → All (λ id. is_in id held ≡ true) (keys recorded) × (length recorded ≡ length found_lines)
  unfolding read_each keys
  read_each-held [] recorded was_read = ground (arith, was_read)
  read_each-held (line ∷ later) recorded was_read =
      let (one, line_read, made) =
        found-bind (read_line parsing shapes validate path capability held line) _ recorded
          was_read in
      let (rest, rest_read, same) =
        found-bind (read_each parsing shapes validate path capability held later) _ recorded made in
      ground (arith, same, read_line-held line one line_read, read_each-held later rest rest_read)

  read_file-lines :
      (disk : Disk) (answers : Dict A)
      → read_file parsing shapes validate path capability held disk ≡ found answers
      → IsDistinct (keys answers)
        × All (λ id. is_in id held ≡ true) (keys answers)
        × ((found_lines : List (String × ℕ)) × (lines parsing path disk ≡ found found_lines)
            × (length answers ≡ length found_lines))
  unfolding read_file
  read_file-lines disk answers was_read =
      let (found_lines, lines_read, made) =
        found-bind (lines parsing path disk) _ answers was_read in
      let (recorded, each_read, then_made) =
        found-bind (read_each parsing shapes validate path capability held found_lines) _ answers
          made in
      let (_, no_repeats, same) =
        found-bind (refuse_repeats path [] (keys recorded)) _ answers then_made in
      let distinct = ((refuse_repeats_iff path [] (keys recorded)).0 no_repeats).0 in
      let (are_held, of_length) = read_each-held found_lines recorded each_read in
      let kept : answers ≡ recorded = ground (arith, same, put_all-distinct recorded distinct) in
      rw kept (distinct, are_held, (found_lines, lines_read, of_length))

  -- What the answers of a capability are, once they are read.
  abbrev pub IsRead : Disk → Option (Dict A) → Type 0
  IsRead disk none = (empty held ≡ true) × (is_file path disk ≡ false)
  IsRead disk (some answers) =
      (empty held ≡ false)
      × IsDistinct (keys answers)
      × All (λ id. is_in id held ≡ true) (keys answers)
      × ((found_lines : List (String × ℕ)) × (lines parsing path disk ≡ found found_lines)
          × (length answers ≡ length found_lines))

  -- Cases of the set and a file: what is read is what the file's answers are.
  read_one-file :
      (disk : Disk) (answers : Option (Dict A))
      → read_one parsing shapes validate path capability held disk ≡ found answers
      → empty held ≡ false
      → (given : Dict A) × (read_file parsing shapes validate path capability held disk
          ≡ found given)
        × (some given ≡ answers)
  unfolding read_one
  read_one-file disk answers was_read asked = elim (Bool-cases (is_file path disk)) [
    | inr no_file ↦ absurd (ground (arith, was_read, asked, no_file))
    | inl is_there ↦
        let (given, file_read, same) =
          found-bind (read_file parsing shapes validate path capability held disk)
            (λ a. found (some a)) answers (ground (arith, was_read, asked, is_there)) in
        (given, file_read, ground (arith, same))
  ]

  -- A capability that is read to be unanswered holds no case and has no file; one that is read has
  -- an answer for each line of its file, under an identifier of its own that the set holds.
  pub read_one-IsRead :
      (disk : Disk) (answers : Option (Dict A))
      → read_one parsing shapes validate path capability held disk ≡ found answers
      → IsRead disk answers
  unfolding read_one
  read_one-IsRead disk none was_read = elim (Bool-cases (empty held)) [
    | inl unasked ↦ ground (arith, was_read, unasked, Bool-cases (is_file path disk))
    | inr asked ↦
        let (given, _, same) = read_one-file disk none was_read asked in
        absurd (ground (arith, same))
  ]
  read_one-IsRead disk (some answers) was_read = elim (Bool-cases (empty held)) [
    | inl unasked ↦ absurd (ground (arith, was_read, unasked, Bool-cases (is_file path disk)))
    | inr asked ↦
        let (given, file_read, same) = read_one-file disk (some answers) was_read asked in
        let kept : answers ≡ given = ground (arith, same) in
        let (distinct, are_held, of_lines) = read_file-lines disk given file_read in
        rw kept (asked, distinct, are_held, of_lines)
  ]

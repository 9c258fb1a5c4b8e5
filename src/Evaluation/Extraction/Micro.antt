-- ===== src/Evaluation/Extraction/Micro.antt =====
-- src/claim_triage/evaluation/scoring.py: the extraction metrics are micro-averages: the totals that
-- they are taken of add up the counts of every case.
use claim_triage_agent.Common.{
  ◌≡◌, refl, sym, inl, inr, true, String, some, List, [], ◌∷◌, arith, eq_iff, All, Bool-cases,
  Option-cases, ◌==◌, string_equality,
}
use claim_triage_agent.Dict.{Dict, get, put, present}
use claim_triage_agent.Dict.Laws.{get-put}
use claim_triage_agent.Evaluation.Metrics.{
  Counts, no_counts, add_counts, Scalar, Texts, field_count, answer_of, field_counts, count_in,
}
use claim_triage_agent.Evaluation.Metrics.Labels.{get-count_in}
use claim_triage_agent.Evaluation.Cases.{ExtractionCase}
use claim_triage_agent.Evaluation.Extraction.{
  or_empty, start_fields, start_cases, tally_fields, tally_cases, per_field_counts, total_from,
  total,
}

abbrev sum_counts : Dict Counts → Counts
sum_counts [] = no_counts
sum_counts (kv ∷ d) = add_counts kv.1 (sum_counts d)

add_assoc : (a b c : Counts) → add_counts (add_counts a b) c ≡ add_counts a (add_counts b c)
unfolding add_counts
add_assoc a b c = ground arith

add_nothing : (a : Counts) → add_counts a no_counts ≡ a
unfolding add_counts
add_nothing a = ground arith

nothing_add : (a : Counts) → add_counts no_counts a ≡ a
unfolding add_counts
nothing_add a = ground arith

total_from-sum : (t : Counts) (d : Dict Counts) → total_from t d ≡ add_counts t (sum_counts d)
unfolding total_from add_counts
total_from-sum t [] = ground arith
total_from-sum t (kv ∷ d) = ground (arith, total_from-sum (add_counts t kv.1) d)

sum-put :
    (k : String) (b c : Counts) (d : Dict Counts)
    → get k d ≡ some b
    → sum_counts (put k (add_counts b c) d) ≡ add_counts (sum_counts d) c
unfolding get put add_counts
sum-put k b c [] held = absurd (ground (arith, held))
sum-put k b c (kv ∷ d) held = elim (Bool-cases (kv.0 == k)) [
  | inl here ↦ ground (arith, here, held)
  | inr there ↦ ground (arith, there, held, sum-put k b c d)
]

sum-count_in :
    (k : String) (c : Counts) (d : Dict Counts)
    → present (get k d) ≡ true
    → sum_counts (count_in k c d) ≡ add_counts (sum_counts d) c
unfolding count_in
sum-count_in k c d there = elim (Option-cases (get k d)) [
  | inl gone ↦ absurd (ground (arith, there, gone))
  | inr (b, held) ↦ ground (arith, held, sum-put k b c d held)
]

-- Every one of the names is a key.
abbrev Keyed : Dict Scalar → Dict Counts → Type 0
Keyed fields d = All (λ f. present (get f.0 d) ≡ true) fields

Keyed-count_in :
    (fields : Dict Scalar) (k : String) (c : Counts) (d : Dict Counts)
    → Keyed fields d
    → Keyed fields (count_in k c d)
Keyed-count_in [] k c d keyed = tt
Keyed-count_in (f ∷ fields) k c d keyed = (
  ground (arith, get-count_in f.0 k c d, keyed.0, Option-cases (get f.0 d)),
  Keyed-count_in fields k c d keyed.1,
)

module _ {D : Type 0} (texts : Texts D) where
  Keyed-tally_fields :
      (others fields predicted : Dict Scalar) (d : Dict Counts)
      → Keyed others d
      → Keyed others (tally_fields texts fields predicted d)
  unfolding tally_fields
  Keyed-tally_fields others [] predicted d keyed = keyed
  Keyed-tally_fields others (f ∷ fields) predicted d keyed =
      Keyed-tally_fields others fields predicted
        (count_in f.0 (field_counts texts (f ∷ []) predicted) d)
        (Keyed-count_in others f.0 _ d keyed)

  sum-tally_fields :
      (fields predicted : Dict Scalar) (d : Dict Counts)
      → Keyed fields d
      → sum_counts (tally_fields texts fields predicted d)
        ≡ add_counts (sum_counts d) (field_counts texts fields predicted)
  unfolding tally_fields field_counts
  sum-tally_fields [] predicted d keyed = sym (add_nothing (sum_counts d))
  sum-tally_fields (f ∷ fields) predicted d keyed =
      let counts = field_count texts f.1 (answer_of texts predicted f.0) in
      let one = add_counts counts no_counts in
      cc (
        sum-tally_fields fields predicted (count_in f.0 one d)
            (Keyed-count_in fields f.0 one d keyed.1),
        sum-count_in f.0 one d keyed.0,
        add_nothing counts,
        add_assoc (sum_counts d) counts (field_counts texts fields predicted),
      )

  -- The counts of every case, added up.
  abbrev pub all_counts : List ExtractionCase → Dict (Dict Scalar) → Counts
  all_counts [] answers = no_counts
  all_counts (c ∷ cases) answers =
      add_counts (field_counts texts c.fields (or_empty (get c.case_id answers)))
        (all_counts cases answers)

  abbrev AllKeyed : List ExtractionCase → Dict Counts → Type 0
  AllKeyed cases d = All (λ c. Keyed c.fields d) cases

  AllKeyed-tally_fields :
      (cases : List ExtractionCase) (fields predicted : Dict Scalar) (d : Dict Counts)
      → AllKeyed cases d
      → AllKeyed cases (tally_fields texts fields predicted d)
  AllKeyed-tally_fields [] fields predicted d keyed = tt
  AllKeyed-tally_fields (c ∷ cases) fields predicted d keyed = (
    Keyed-tally_fields c.fields fields predicted d keyed.0,
    AllKeyed-tally_fields cases fields predicted d keyed.1,
  )

  sum-tally_cases :
      (cases : List ExtractionCase) (answers : Dict (Dict Scalar)) (d : Dict Counts)
      → AllKeyed cases d
      → sum_counts (tally_cases texts cases answers d)
        ≡ add_counts (sum_counts d) (all_counts cases answers)
  unfolding tally_cases
  sum-tally_cases [] answers d keyed = sym (add_nothing (sum_counts d))
  sum-tally_cases (c ∷ cases) answers d keyed =
      let predicted = or_empty (get c.case_id answers) in
      cc (
        sum-tally_cases cases answers (tally_fields texts c.fields predicted d)
            (AllKeyed-tally_fields cases c.fields predicted d keyed.1),
        sum-tally_fields c.fields predicted d keyed.0,
        add_assoc (sum_counts d) (field_counts texts c.fields predicted) (all_counts cases answers),
      )

-- Nothing has been counted yet.
abbrev IsZero : Dict Counts → Type 0
IsZero d = All (λ kv. kv.1 ≡ no_counts) d

IsZero-put : (k : String) (d : Dict Counts) → IsZero d → IsZero (put k no_counts d)
unfolding put
IsZero-put k [] zero = (refl, tt)
IsZero-put k (kv ∷ d) zero = elim (Bool-cases (kv.0 == k)) [
  | inl here ↦ rw here (refl, zero.1)
  | inr there ↦ rw there (zero.0, IsZero-put k d zero.1)
]

sum-IsZero : (d : Dict Counts) → IsZero d → sum_counts d ≡ no_counts
sum-IsZero [] zero = refl
sum-IsZero (kv ∷ d) zero = cc (zero.0, sum-IsZero d zero.1, nothing_add no_counts)

Keyed-put :
    (fields : Dict Scalar) (k : String) (d : Dict Counts)
    → Keyed fields d
    → Keyed fields (put k no_counts d)
Keyed-put [] k d keyed = tt
Keyed-put (f ∷ fields) k d keyed =
    (ground (arith, get-put f.0 k no_counts d, keyed.0), Keyed-put fields k d keyed.1)

module _ {D : Type 0} (texts : Texts D) where
  IsZero-start_fields :
      (fields : Dict Scalar) (d : Dict Counts) → IsZero d → IsZero (start_fields texts fields d)
  unfolding start_fields
  IsZero-start_fields [] d zero = zero
  IsZero-start_fields (f ∷ fields) d zero =
      IsZero-start_fields fields (put f.0 no_counts d) (IsZero-put f.0 d zero)

  Keyed-start_fields :
      (others fields : Dict Scalar) (d : Dict Counts)
      → Keyed others d
      → Keyed others (start_fields texts fields d)
  unfolding start_fields
  Keyed-start_fields others [] d keyed = keyed
  Keyed-start_fields others (f ∷ fields) d keyed =
      Keyed-start_fields others fields (put f.0 no_counts d) (Keyed-put others f.0 d keyed)

  start_fields-Keyed :
      (fields : Dict Scalar) (d : Dict Counts) → Keyed fields (start_fields texts fields d)
  unfolding start_fields
  start_fields-Keyed [] d = tt
  start_fields-Keyed (f ∷ fields) d =
      let started = put f.0 no_counts d in
      (
        (Keyed-start_fields (f ∷ []) fields started
            (ground (arith, get-put f.0 f.0 no_counts d, eq_iff f.0 f.0), tt)).0,
        start_fields-Keyed fields started,
      )

  IsZero-start_cases :
      (cases : List ExtractionCase) (d : Dict Counts)
      → IsZero d
      → IsZero (start_cases texts cases d)
  unfolding start_cases
  IsZero-start_cases [] d zero = zero
  IsZero-start_cases (c ∷ cases) d zero =
      IsZero-start_cases cases (start_fields texts c.fields d) (IsZero-start_fields c.fields d zero)

  Keyed-start_cases :
      (others : Dict Scalar) (cases : List ExtractionCase) (d : Dict Counts)
      → Keyed others d
      → Keyed others (start_cases texts cases d)
  unfolding start_cases
  Keyed-start_cases others [] d keyed = keyed
  Keyed-start_cases others (c ∷ cases) d keyed =
      Keyed-start_cases others cases (start_fields texts c.fields d)
        (Keyed-start_fields others c.fields d keyed)

  start_cases-AllKeyed :
      (cases : List ExtractionCase) (d : Dict Counts)
      → AllKeyed texts cases (start_cases texts cases d)
  unfolding start_cases
  start_cases-AllKeyed [] d = tt
  start_cases-AllKeyed (c ∷ cases) d =
      let started = start_fields texts c.fields d in
      (
        Keyed-start_cases c.fields cases started (start_fields-Keyed c.fields d),
        start_cases-AllKeyed cases started,
      )

  -- The counts of every field, added up into the totals that precision, recall and F1 are taken of,
  -- are the counts of every case added up, whichever fields the cases share; a case without an
  -- answer is counted as one that was answered with no field.
  pub totals_micro :
      (cases : List ExtractionCase) (answers : Dict (Dict Scalar))
      → total (per_field_counts texts cases answers) ≡ all_counts texts cases answers
  unfolding per_field_counts total
  totals_micro cases answers =
      let started = start_cases texts cases [] in
      cc (
        total_from-sum no_counts (tally_cases texts cases answers started),
        sum-tally_cases texts cases answers started (start_cases-AllKeyed cases []),
        sum-IsZero started (IsZero-start_cases cases [] tt),
        nothing_add (all_counts texts cases answers),
      )

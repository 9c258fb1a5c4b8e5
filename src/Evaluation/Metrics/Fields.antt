-- ===== src/Evaluation/Metrics/Fields.antt =====
-- src/claim_triage/evaluation/metrics.py: what the counts of a case's fields add up to.
use claim_triage_agent.Common.{
  ◌≡◌, ◌↔◌, ℕ, ◌+◌, Bool, true, false, [], ◌∷◌, arith, All, if◌then◌else◌,
}
use claim_triage_agent.Dict.{Dict}
use claim_triage_agent.Evaluation.Metrics.{
  add_counts, Scalar, absent, flag, value, Texts, compare, field_count, answer_of, field_counts,
}

abbrev pub is_absent : Scalar → Bool
is_absent absent = true
is_absent _ = false

-- How many of the fields a case states a value of.
abbrev pub stated : Dict Scalar → ℕ
stated [] = 0
stated (f ∷ expected) = (if is_absent f.1 then 0 else 1) + stated expected

module _ {D : Type 0} (texts : Texts D) where
  -- A value was answered to a field that the case states to be absent.
  abbrev pub invents : Scalar → Scalar → Bool
  invents absent answer = if is_absent answer then false else true
  invents _ answer = false

  -- How many fields that the case states to be absent are answered with a value.
  abbrev pub invented : Dict Scalar → Dict Scalar → ℕ
  invented [] predicted = 0
  invented (f ∷ expected) predicted =
      (if invents f.1 (answer_of texts predicted f.0) then 1 else 0) + invented expected predicted

  -- The answers that agree with a stated value.
  abbrev pub agrees : Scalar → Scalar → Bool
  agrees absent answer = false
  agrees truth answer = compare texts truth answer

  abbrev pub agreed : Dict Scalar → Dict Scalar → ℕ
  agreed [] predicted = 0
  agreed (f ∷ expected) predicted =
      (if agrees f.1 (answer_of texts predicted f.0) then 1 else 0) + agreed expected predicted

  -- Each field is a hit, a miss, or a wrong value, and is right exactly if neither of the last two.
  field_count_cases :
      (truth answer : Scalar)
      → let c = field_count texts truth answer in
        (c.true_positives ≡ (if agrees truth answer then 1 else 0))
        × (c.true_positives + c.false_negatives
            ≡ (if is_absent truth then 0 else 1) + (if invents truth answer then 1 else 0))
        × (((c.false_positives ≡ 0) × (c.false_negatives ≡ 0))
            ↔ (compare texts truth answer ≡ true))
  unfolding field_count compare
  field_count_cases absent absent = ground arith
  field_count_cases absent (flag a) = ground arith
  field_count_cases absent (value s) = ground arith
  field_count_cases (flag a) absent = ground arith
  field_count_cases (value s) absent = ground arith
  field_count_cases (flag a) (flag b) = ground arith
  field_count_cases (flag a) (value t) = ground arith
  field_count_cases (value s) (flag b) = ground arith
  field_count_cases (value s) (value t) = ground arith

  -- The hits of a case are the stated values that were answered, the hits and the misses together are
  -- the stated values and the invented ones, and nothing counts against the case exactly if every
  -- answer compares equal to what the case states, absence included.
  pub field_counts_exact :
      (expected predicted : Dict Scalar)
      → ((field_counts texts expected predicted).true_positives ≡ agreed expected predicted)
        × ((field_counts texts expected predicted).true_positives
              + (field_counts texts expected predicted).false_negatives
            ≡ stated expected + invented expected predicted)
        × (((field_counts texts expected predicted).false_positives ≡ 0)
              × ((field_counts texts expected predicted).false_negatives ≡ 0)
            ↔ All (λ f. compare texts f.1 (answer_of texts predicted f.0) ≡ true) expected)
  unfolding field_counts add_counts
  field_counts_exact [] predicted = ground arith
  field_counts_exact (f ∷ expected) predicted = ground (
    arith,
    field_count_cases f.1 (answer_of texts predicted f.0),
    field_counts_exact expected predicted,
  )

-- ===== src/Evaluation/Retrieval.antt =====
-- src/claim_triage/evaluation/scoring.py: the clauses of the retrieval set.
use claim_triage_agent.Common.{
  ℕ, ◌+◌, Option, none, some, List, [], ◌∷◌, length, empty, ◌==◌, nat_equality, string_equality,
  if◌then◌else◌,
}
use claim_triage_agent.Floats.{Floats}
use claim_triage_agent.Dict.{Dict, get}
use claim_triage_agent.Evaluation.Measurements.{Capability, Measurement, Reading}
use claim_triage_agent.Evaluation.Ranks.{ClauseRef, hit_at, reciprocal_rank, citation_counts}
use claim_triage_agent.Evaluation.Cases.{RetrievalCase, GoldenSet, RetrievalAnswer}
use claim_triage_agent.Evaluation.Readings.{one_if, scored, unread, answered_in}

abbrev pub hit_rate_k : ℕ
hit_rate_k = 5

module _ {F : Type 0} (floats : Floats F) where
  abbrev pub retrieved_for : Dict RetrievalAnswer → RetrievalCase → List ClauseRef
  retrieved_for answers c = elim (get c.case_id answers) [ none ↦ [] | some a ↦ a.retrieved ]

  abbrev pub cited_for : Dict RetrievalAnswer → RetrievalCase → List ClauseRef
  cited_for answers c = elim (get c.case_id answers) [ none ↦ [] | some a ↦ a.cited ]

  unfoldable pub hits_in : ℕ → Dict RetrievalAnswer → List RetrievalCase → ℕ
  unfolding hit_at
  hits_in top_k answers [] = 0
  hits_in top_k answers (c ∷ cases) =
      one_if (hit_at (retrieved_for answers c) c.expected top_k) + hits_in top_k answers cases

  -- `ranks += reciprocal_rank(...)`, from `ranks`
  unfoldable pub ranks_from : F → Dict RetrievalAnswer → List RetrievalCase → F
  unfolding reciprocal_rank
  ranks_from ranks answers [] = ranks
  ranks_from ranks answers (c ∷ cases) =
      ranks_from (floats.add ranks (reciprocal_rank floats (retrieved_for answers c) c.expected))
        answers cases

  unfoldable pub resolved_in : Dict RetrievalAnswer → List RetrievalCase → ℕ
  unfolding citation_counts
  resolved_in answers [] = 0
  resolved_in answers (c ∷ cases) =
      (citation_counts (retrieved_for answers c) (cited_for answers c)).0
      + resolved_in answers cases

  unfoldable pub cited_in : Dict RetrievalAnswer → List RetrievalCase → ℕ
  unfolding citation_counts
  cited_in answers [] = 0
  cited_in answers (c ∷ cases) =
      (citation_counts (retrieved_for answers c) (cited_for answers c)).1 + cited_in answers cases

  unfoldable pub retrieval_metrics : ℕ → Dict RetrievalAnswer → List RetrievalCase → Dict F
  unfolding hits_in ranks_from resolved_in cited_in
  retrieval_metrics top_k answers cases =
      ("retrieval.hit_rate", floats.div (hits_in top_k answers cases) (length cases))
      ∷ (
        "retrieval.mrr",
        floats.quotient (ranks_from (floats.of 0) answers cases) (floats.of (length cases)),
      )
      ∷ (if cited_in answers cases == 0
          then []
          else (
            "retrieval.citation_validity",
            floats.div (resolved_in answers cases) (cited_in answers cases),
          )
            ∷ [])

  unfoldable pub measure_retrieval :
      ℕ → GoldenSet RetrievalCase → Option (Dict RetrievalAnswer) → Measurement F
  unfolding retrieval_metrics answered_in
  measure_retrieval top_k golden none =
      if empty golden.cases
      then unread Reading.no_cases Capability.retrieval golden
      else unread Reading.not_answered Capability.retrieval golden
  measure_retrieval top_k golden (some answers) =
      if empty golden.cases
      then unread Reading.no_cases Capability.retrieval golden
      else scored Capability.retrieval golden (answered_in (λ c. c.case_id) golden.cases answers)
          (retrieval_metrics top_k answers golden.cases)

-- ===== src/Evaluation/Ranks/Agreement.antt =====
-- src/claim_triage/evaluation/metrics.py: the citations that count as valid.
use claim_triage_agent.Common.{◌≡◌, ◌↔◌, ◌≤◌, true, List, [], ◌∷◌, length, arith, All}
use claim_triage_agent.Evaluation.Ranks.{ClauseRef, resolves, valid_citations, citation_counts}

valid_within : (retrieved cited : List ClauseRef) → valid_citations retrieved cited ≤ length cited
unfolding valid_citations
valid_within retrieved [] = omega arith
valid_within retrieved (c ∷ cs) = ground (arith, valid_within retrieved cs)

full_count_iff :
    (retrieved cited : List ClauseRef)
    → (valid_citations retrieved cited ≡ length cited)
      ↔ All (λ c. resolves retrieved c ≡ true) cited
unfolding valid_citations
full_count_iff retrieved [] = ground arith
full_count_iff retrieved (c ∷ cs) =
    ground (arith, valid_within retrieved cs, full_count_iff retrieved cs)

-- At most every citation is valid, and all are exactly if each resolves to the clause that was
-- retrieved under its identity, with no page that contradicts it.
pub citations_valid :
    (retrieved cited : List ClauseRef)
    → ((citation_counts retrieved cited).0 ≤ (citation_counts retrieved cited).1)
      × (((citation_counts retrieved cited).0 ≡ (citation_counts retrieved cited).1)
          ↔ All (λ c. resolves retrieved c ≡ true) cited)
unfolding citation_counts
citations_valid retrieved cited = (valid_within retrieved cited, full_count_iff retrieved cited)

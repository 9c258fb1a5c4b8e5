-- ===== src/Evaluation/Ranks.antt =====
-- src/claim_triage/evaluation/metrics.py: the metrics of a ranked list and of its citations.
pub mod Agreement
use claim_triage_agent.Common.{
  ℕ, zero, suc, ◌+◌, Bool, true, false, String, Option, none, some, List, [], ◌∷◌, length, ◌&&◌,
  ◌||◌, ◌==◌, nat_equality, string_equality, if◌then◌else◌,
}
use claim_triage_agent.Floats.{Floats}

pub record ClauseRef : Type 0 where
  pub clause_id : String
  pub edition : String
  pub page : Option ℕ

-- `one.identity == other.identity`
abbrev pub same_identity : ClauseRef → ClauseRef → Bool
same_identity one other = one.clause_id == other.clause_id && one.edition == other.edition

-- `clause.identity in set(identities(clauses))`
unfoldable pub identified : List ClauseRef → ClauseRef → Bool
identified [] clause = false
identified (c ∷ cs) clause = same_identity c clause || identified cs clause

-- `bool(set(identities(ranked[:k])) & set(identities(expected)))`
unfoldable pub hit_at : List ClauseRef → List ClauseRef → ℕ → Bool
unfolding identified
hit_at [] expected k = false
hit_at (c ∷ cs) expected zero = false
hit_at (c ∷ cs) expected (suc k) = identified expected c || hit_at cs expected k

-- The rank at which the loop of `reciprocal_rank` returns, counted from `rank`.
unfoldable pub first_rank : List ClauseRef → List ClauseRef → ℕ → Option ℕ
unfolding identified
first_rank [] expected rank = none
first_rank (c ∷ cs) expected rank =
    let rest = first_rank cs expected (suc rank) in
    if identified expected c then some rank else rest

module _ {F : Type 0} (floats : Floats F) where
  unfoldable pub reciprocal_rank : List ClauseRef → List ClauseRef → F
  unfolding first_rank
  reciprocal_rank ranked expected = elim (first_rank ranked expected 1) [
    | none ↦ floats.of 0
    | some rank ↦ floats.div 1 rank
  ]

-- The clause of this identity in a dictionary of the retrieved ones: the last of them.
unfoldable pub retrieved_as : List ClauseRef → ClauseRef → Option ClauseRef
retrieved_as [] citation = none
retrieved_as (c ∷ cs) citation =
    let rest = retrieved_as cs citation in
    elim rest [ some later ↦ some later | none ↦ if same_identity c citation then some c else none ]

abbrev pub pages_agree : Option ℕ → Option ℕ → Bool
pages_agree none _ = true
pages_agree (some p) none = true
pages_agree (some p) (some q) = p == q

-- Whether a citation counts as valid.
unfoldable pub resolves : List ClauseRef → ClauseRef → Bool
unfolding retrieved_as
resolves retrieved citation = elim (retrieved_as retrieved citation) [
  | none ↦ false
  | some found ↦ pages_agree citation.page found.page
]

unfoldable pub valid_citations : List ClauseRef → List ClauseRef → ℕ
unfolding resolves
valid_citations retrieved [] = 0
valid_citations retrieved (c ∷ cs) =
    let rest = valid_citations retrieved cs in if resolves retrieved c then suc rest else rest

unfoldable pub citation_counts : List ClauseRef → List ClauseRef → ℕ × ℕ
unfolding valid_citations
citation_counts retrieved cited = (valid_citations retrieved cited, length cited)

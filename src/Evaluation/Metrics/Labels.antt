-- ===== src/Evaluation/Metrics/Labels.antt =====
-- src/claim_triage/evaluation/metrics.py: the counts of a label, against counting the pairs.
use claim_triage_agent.Common.{
  ◌≡◌, refl, inl, inr, ℕ, ◌+◌, Bool, false, String, Option, none, some, List, [], ◌∷◌, arith,
  eq_iff, Option-cases, if◌then◌else◌, ◌==◌, ◌&&◌, ◌||◌, not, string_equality,
}
use claim_triage_agent.Dict.{Dict, get}
use claim_triage_agent.Dict.Laws.{get-put}
use claim_triage_agent.Evaluation.Metrics.{
  Counts, no_counts, hit, miss, stray, add_counts, labels_of, count_in, count_pair, count_pairs,
  label_counts,
}

abbrev pub named_as : String → Option String → Bool
named_as label none = false
named_as label (some answered) = answered == label

-- A case of this label that was answered with it, one that was not, and another label's that was.
abbrev pub is_hit : String → String × Option String → Bool
is_hit label pair = pair.0 == label && named_as label pair.1

abbrev pub is_miss : String → String × Option String → Bool
is_miss label pair = pair.0 == label && not (named_as label pair.1)

abbrev pub is_stray : String → String × Option String → Bool
is_stray label pair = not (pair.0 == label) && named_as label pair.1

abbrev pub count_of : {A : Type 0} → (A → Bool) → List A → ℕ
count_of test [] = 0
count_of test (x ∷ xs) = (if test x then 1 else 0) + count_of test xs

abbrev pub counts_of : String → List (String × Option String) → Counts
counts_of label pairs = record {
  true_positives = count_of (is_hit label) pairs;
  false_positives = count_of (is_stray label) pairs;
  false_negatives = count_of (is_miss label) pairs;
}

abbrev pub labels_with : String → List (String × Option String) → Bool
labels_with label [] = false
labels_with label (pair ∷ pairs) = pair.0 == label || labels_with label pairs

abbrev pub added : Option Counts → Counts → Option Counts
added none c = none
added (some before) c = some (add_counts before c)

pub get-count_in :
    (label key : String) (c : Counts) (counted : Dict Counts)
    → get label (count_in key c counted)
      ≡ (if key == label then added (get label counted) c else get label counted)
unfolding count_in
get-count_in label key c counted = elim (Option-cases (get key counted)) [
  | inl gone ↦ ground (arith, gone, eq_iff key label)
  | inr (before, held) ↦
      ground (arith, held, eq_iff key label, get-put label key (add_counts before c) counted)
]

get-count_pair :
    (label : String) (pair : String × Option String) (counted : Dict Counts)
    → get label (count_pair pair counted) ≡ added (get label counted) (counts_of label (pair ∷ []))
unfolding count_pair add_counts
get-count_pair label (truth, none) counted = ground (
  arith,
  get-count_in label truth miss counted,
  eq_iff truth label,
  Option-cases (get label counted),
)
get-count_pair label (truth, some answered) counted = ground (
  arith,
  get-count_in label truth hit counted,
  get-count_in label truth miss counted,
  get-count_in label answered stray (count_in truth miss counted),
  eq_iff truth label,
  eq_iff answered label,
  eq_iff answered truth,
  Option-cases (get label counted),
)

get-count_pairs :
    (label : String) (pairs : List (String × Option String)) (counted : Dict Counts)
    → get label (count_pairs pairs counted) ≡ added (get label counted) (counts_of label pairs)
unfolding count_pairs add_counts
get-count_pairs label [] counted = ground (arith, Option-cases (get label counted))
get-count_pairs label (pair ∷ pairs) counted = ground (
  arith,
  get-count_pairs label pairs (count_pair pair counted),
  get-count_pair label pair counted,
  Option-cases (get label counted),
)

get-labels_of :
    (label : String) (pairs : List (String × Option String))
    → get label (labels_of pairs) ≡ (if labels_with label pairs then some no_counts else none)
unfolding labels_of get
get-labels_of label [] = refl
get-labels_of label (pair ∷ pairs) = ground (
  arith,
  get-put label pair.0 no_counts (labels_of pairs),
  get-labels_of label pairs,
  eq_iff pair.0 label,
)

-- A label is counted exactly if a case has it, and its counts are the cases of it that were answered
-- with it, those of other labels that were, and those of it that were not.
pub label_counts_exact :
    (label : String) (pairs : List (String × Option String))
    → get label (label_counts pairs)
      ≡ (if labels_with label pairs then some (counts_of label pairs) else none)
unfolding label_counts add_counts
label_counts_exact label pairs =
    ground (arith, get-count_pairs label pairs (labels_of pairs), get-labels_of label pairs)

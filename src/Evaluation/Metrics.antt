-- ===== src/Evaluation/Metrics.antt =====
-- src/claim_triage/evaluation/metrics.py: fields, labels and the ranking of a score. Reading a text
-- as a decimal and folding its case and whitespace are parameters.
pub mod Fields
pub mod Labels
use claim_triage_agent.Common.{
  ℕ, ◌+◌, ◌*◌, Bool, true, false, String, Option, none, some, List, [], ◌∷◌, length, empty, map,
  not, ◌||◌, ◌++◌, ◌==◌, nat_equality, string_equality, if◌then◌else◌,
}
use claim_triage_agent.Floats.{Floats}
use claim_triage_agent.Dict.{Dict, get, put, present}

pub record Counts : Type 0 where
  pub true_positives : ℕ
  pub false_positives : ℕ
  pub false_negatives : ℕ

abbrev pub no_counts : Counts
no_counts = record { true_positives = 0; false_positives = 0; false_negatives = 0 }

abbrev pub hit : Counts
hit = record { true_positives = 1; false_positives = 0; false_negatives = 0 }

abbrev pub miss : Counts
miss = record { true_positives = 0; false_positives = 0; false_negatives = 1 }

abbrev pub stray : Counts
stray = record { true_positives = 0; false_positives = 1; false_negatives = 0 }

abbrev pub wrong : Counts
wrong = record { true_positives = 0; false_positives = 1; false_negatives = 1 }

-- `Counts.__add__`
unfoldable pub add_counts : Counts → Counts → Counts
add_counts a b = record {
  true_positives = a.true_positives + b.true_positives;
  false_positives = a.false_positives + b.false_positives;
  false_negatives = a.false_negatives + b.false_negatives;
}

-- A value of a field: absent, a flag, or the text of any other.
pub data Scalar : Type 0 where
  absent : Scalar
  flag : Bool → Scalar
  value : String → Scalar

-- `Decimal`, of a finite number, and the text that case and whitespace are folded out of.
pub record Texts (D : Type 0) : Type 0 where
  pub number : String → Option D
  pub same_number : D → D → Bool
  pub folded : String → String

abbrev pub same_flag : Bool → Bool → Bool
same_flag true b = b
same_flag false b = not b

module _ {D : Type 0} (texts : Texts D) where
  -- Two values that are neither absent nor flags.
  unfoldable pub compare_texts : Option D → Option D → String → String → Bool
  compare_texts (some m) (some n) s t = texts.same_number m n
  compare_texts _ _ s t = texts.folded s == texts.folded t

  unfoldable pub compare : Scalar → Scalar → Bool
  unfolding compare_texts
  compare absent absent = true
  compare absent _ = false
  compare _ absent = false
  compare (flag a) (flag b) = same_flag a b
  compare (flag a) _ = false
  compare _ (flag b) = false
  compare (value s) (value t) = compare_texts (texts.number s) (texts.number t) s t

  -- One field of `field_counts`: what the case states, and what was answered, if anything.
  unfoldable pub field_count : Scalar → Scalar → Counts
  unfolding compare
  field_count absent absent = no_counts
  field_count absent answer = wrong
  field_count truth absent = miss
  field_count truth answer = if compare truth answer then hit else wrong

  -- `predicted.get(name)`
  abbrev pub answer_of : Dict Scalar → String → Scalar
  answer_of predicted name = elim (get name predicted) [ none ↦ absent | some answer ↦ answer ]

  unfoldable pub field_counts : Dict Scalar → Dict Scalar → Counts
  unfolding field_count add_counts
  field_counts [] predicted = no_counts
  field_counts (f ∷ expected) predicted =
      add_counts (field_count f.1 (answer_of predicted f.0)) (field_counts expected predicted)

-- `{truth for truth, _ in pairs}`, each without counts; nothing that follows depends on their order but
-- the order in which floats are summed.
unfoldable pub labels_of : List (String × Option String) → Dict Counts
unfolding put
labels_of [] = []
labels_of (pair ∷ pairs) = put pair.0 no_counts (labels_of pairs)

-- `counted[label] += counts`, of a label that is there.
unfoldable pub count_in : String → Counts → Dict Counts → Dict Counts
unfolding get put add_counts
count_in label counts counted = elim (get label counted) [
  | none ↦ counted
  | some before ↦ put label (add_counts before counts) counted
]

-- One pair of the loop of `label_counts`.
unfoldable pub count_pair : String × Option String → Dict Counts → Dict Counts
unfolding count_in
count_pair (truth, none) counted = count_in truth miss counted
count_pair (truth, some answered) counted =
    if answered == truth
    then count_in truth hit counted
    else count_in answered stray (count_in truth miss counted)

unfoldable pub count_pairs : List (String × Option String) → Dict Counts → Dict Counts
unfolding count_pair
count_pairs [] counted = counted
count_pairs (pair ∷ pairs) counted = count_pairs pairs (count_pair pair counted)

unfoldable pub label_counts : List (String × Option String) → Dict Counts
unfolding labels_of count_pairs
label_counts pairs = count_pairs pairs (labels_of pairs)

-- What the loop of `average_precision` holds between two of its steps.
pub record Curve (F : Type 0) : Type 0 where
  pub found : ℕ
  pub seen : ℕ
  pub area : F
  pub previous_recall : F

module _ {F : Type 0} (floats : Floats F) where
  -- `_ratio`
  unfoldable pub ratio : ℕ → ℕ → F
  ratio numerator denominator =
      if denominator == 0 then floats.of 0 else floats.div numerator denominator

  unfoldable pub precision : Counts → F
  unfolding ratio
  precision c = ratio c.true_positives (c.true_positives + c.false_positives)

  unfoldable pub recall : Counts → F
  unfolding ratio
  recall c = ratio c.true_positives (c.true_positives + c.false_negatives)

  unfoldable pub f1 : Counts → F
  unfolding ratio
  f1 c = ratio (2 * c.true_positives) (2 * c.true_positives + c.false_positives + c.false_negatives)

  -- `sum(metric(counts) for counts in counted.values())`
  unfoldable pub sum_metric : (Counts → F) → Dict Counts → F
  sum_metric metric counted = floats.sum (map (λ kv. metric kv.1) counted)

  unfoldable pub macro_average : Dict Counts → (Counts → F) → F
  unfolding sum_metric
  macro_average counted metric =
      if empty counted
      then floats.of 0
      else floats.quotient (sum_metric metric counted) (floats.of (length counted))

  -- `sorted(..., reverse=True)` by the score, which keeps the order of equal scores.
  unfoldable pub insert_score : F × Bool → List (F × Bool) → List (F × Bool)
  insert_score x [] = x ∷ []
  insert_score x (y ∷ ys) =
      let rest = insert_score x ys in if floats.lt x.0 y.0 then y ∷ rest else x ∷ y ∷ ys

  unfoldable pub by_score : List (F × Bool) → List (F × Bool)
  unfolding insert_score
  by_score [] = []
  by_score (x ∷ xs) = insert_score x (by_score xs)

  unfoldable pub labelled : Bool → List F → List (F × Bool)
  labelled positive [] = []
  labelled positive (s ∷ scores) = (s, positive) ∷ labelled positive scores

  abbrev pub add_found : ℕ → Bool → ℕ
  add_found found true = found + 1
  add_found found false = found

  -- The end of one step: the area that it adds, and the recall that it reaches.
  unfoldable pub close_step : ℕ → Curve F → Curve F
  close_step positive_count c =
      let recall = floats.quotient (floats.of c.found) (floats.of positive_count) in
      record c {
        area =
            floats.add c.area
              (floats.mul (floats.sub recall c.previous_recall) (floats.div c.found c.seen));
        previous_recall = recall;
      }

  -- The two loops: the rest of a step at this threshold, and then the steps after it.
  unfoldable pub walk : ℕ → F → List (F × Bool) → Curve F → Curve F
  unfolding close_step
  walk positive_count threshold [] c = close_step positive_count c
  walk positive_count threshold (x ∷ ranked) c =
      let closed = close_step positive_count c in
      let c' = if floats.same x.0 threshold then c else closed in
      let threshold' = if floats.same x.0 threshold then threshold else x.0 in
      walk positive_count threshold' ranked
        (record c' { found = add_found c'.found x.1; seen = c'.seen + 1 })

  unfoldable pub area_under : ℕ → List (F × Bool) → F
  unfolding walk
  area_under positive_count [] = floats.of 0
  area_under positive_count (x ∷ ranked) =
      (walk positive_count x.0 ranked (record {
        found = add_found 0 x.1;
        seen = 1;
        area = floats.of 0;
        previous_recall = floats.of 0;
      })).area

  unfoldable pub average_precision : List F → List F → Option F
  unfolding by_score labelled area_under
  average_precision positives negatives =
      if empty positives || empty negatives
      then none
      else some (
          area_under (length positives)
            (by_score (labelled true positives ++ labelled false negatives)))

-- ===== src/Evaluation/Tests.antt =====
-- The gate at concrete measurements; parts per million stand for floating point numbers.
use claim_triage_agent.Common.{
  total, ℕ, Option, none, some, List, String, ◌≡◌, ◌↔◌, ◌&&◌, true, false, [], ◌∷◌, refl, ltb, leb,
  nat_eq, ◌+◌, ◌-◌, ◌*◌, ◌/◌, all, All,
}
use claim_triage_agent.Floats.{Floats}
use claim_triage_agent.Evaluation.Baselines.{Baseline, Settings, SetRecord}
use claim_triage_agent.Evaluation.Measurements.{Capability, Measurement, Reading}
use claim_triage_agent.Evaluation.Ranks.{ClauseRef, hit_at, citation_counts}
use claim_triage_agent.Evaluation.Gate.{Rules, passed, judge}
use claim_triage_agent.Evaluation.Gate.Passing.{IsComparable, Holds, passed_iff}
use claim_triage_agent.Evaluation.Gate.Report.{keeps_cases, clean, table_agrees}

abbrev pub millionths : Floats ℕ
millionths = record {
  of = λ n. n * 1000000;
  add = λ a b. a + b;
  mul = λ a b. a * b / 1000000;
  quotient = λ a b. a * 1000000 / b;
  sum = total;
  ceiling = λ a. (a + 999999) / 1000000;
  whole = λ a. a / 1000000;
  hundredths = λ a. a / 10000;
  div = λ a b. a * 1000000 / b;
  lt = ltb;
  le = leb;
  same = nat_eq;
  sub = λ a b. a - b;
  round = λ a places. a;
}

abbrev pub three_cases : Capability → SetRecord
three_cases capability = record { version = 1; cases = 3 }

abbrev pub at_five : Settings
at_five = record { top_k = 5 }

abbrev pub tagged : Baseline ℕ
tagged = record {
  tag = "v0.1.0";
  settings = at_five;
  sets = three_cases;
  metrics =
      ("extraction.f1", 900000)
      ∷ ("retrieval.citation_validity", 1000000)
      ∷ ("retrieval.mrr", 800000)
      ∷ [];
}

abbrev pub rules : Rules ℕ
rules = record { tolerance = 20000; floors = ("retrieval.citation_validity", 990000) ∷ [] }

abbrev retrieved : ℕ → Measurement ℕ
retrieved mrr = record {
  capability = Capability.retrieval;
  version = 1;
  reading = Reading.scored;
  cases = 3;
  answered = 3;
  metrics = ("retrieval.mrr", mrr) ∷ ("retrieval.citation_validity", 1000000) ∷ [];
}

small_drop : passed (judge millionths (retrieved 790000 ∷ []) tagged rules at_five) ≡ true
unfolding judge
small_drop = refl

large_drop : passed (judge millionths (retrieved 770000 ∷ []) tagged rules at_five) ≡ false
unfolding judge
large_drop = refl

other_depth :
    passed (judge millionths (retrieved 800000 ∷ []) tagged rules (record { top_k = 3 })) ≡ false
unfolding judge
other_depth = refl

passed_iff_example :
    (passed (judge millionths (retrieved 790000 ∷ []) tagged rules at_five) ≡ true) ↔ (
      IsComparable tagged (retrieved 790000 ∷ []) at_five
      × All (Holds millionths tagged rules) (retrieved 790000 ∷ []))
passed_iff_example = passed_iff millionths (retrieved 790000 ∷ []) tagged rules at_five

table_agrees_example : passed (judge millionths (retrieved 770000 ∷ []) tagged rules at_five) ≡ (
    all (keeps_cases tagged) (retrieved 770000 ∷ [])
    && clean (judge millionths (retrieved 770000 ∷ []) tagged rules at_five).rows)
table_agrees_example = table_agrees millionths (retrieved 770000) [] tagged rules at_five

abbrev clause : String → Option ℕ → ClauseRef
clause clause_id page = record { clause_id = clause_id; edition = "2026"; page = page }

abbrev found : List ClauseRef
found = clause "4.1" (some 12) ∷ clause "7.2" (some 30) ∷ []

second_is_found : hit_at found (clause "7.2" none ∷ []) 2 ≡ true
unfolding hit_at
second_is_found = refl

wrong_page : citation_counts found (clause "4.1" (some 13) ∷ clause "7.2" none ∷ []) ≡ (1, 2)
unfolding citation_counts
wrong_page = refl

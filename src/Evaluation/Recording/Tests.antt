-- ===== src/Evaluation/Recording/Tests.antt =====
-- A small run that is judged against its own record; rounding keeps every number of parts per million.
use claim_triage_agent.Common.{ℕ, ◌≡◌, refl, true, false, none, some, [], arith}
use claim_triage_agent.Evaluation.Baselines.{Baseline}
use claim_triage_agent.Evaluation.Cases.{Answers}
use claim_triage_agent.Evaluation.Gate.{passed, judge, has_regressed}
use claim_triage_agent.Evaluation.Recording.{
  Documents, recorded, recorded_metrics, recorded_places, set_record,
}
use claim_triage_agent.Evaluation.Recording.Rejudged.{rejudged}
use claim_triage_agent.Evaluation.Scoring.{measure}
use claim_triage_agent.Evaluation.Scoring.Tests.{plain, sets, answered}
use claim_triage_agent.Evaluation.Tests.{millionths, rules, at_five}

abbrev documents : Documents ℕ
documents = record {
  rules = λ text. none;
  baseline = λ text. none;
  dump_baseline = λ b. b.tag;
  is_field_f1 = λ name. true;
}

abbrev answers : Answers ℕ
answers = record { extraction = some answered; retrieval = none; classification = none }

abbrev first : Baseline ℕ
first = record { tag = "v1"; settings = at_five; sets = set_record sets; metrics = [] }

abbrev second : Baseline ℕ
second = record {
  tag = "v1";
  settings = at_five;
  sets = set_record sets;
  metrics = recorded_metrics millionths documents (measure millionths plain sets answers 5) [];
}

is_recorded :
    recorded millionths documents "v1" sets (measure millionths plain sets answers 5) at_five
    ≡ some second
unfolding recorded measure
is_recorded = refl

is_passed :
    passed (judge millionths (measure millionths plain sets answers 5) first rules at_five) ≡ true
unfolding judge measure set_record
is_passed = refl

steady :
    (v : ℕ)
    → has_regressed millionths v (millionths.round v recorded_places) rules.tolerance ≡ false
unfolding has_regressed
steady v = ground arith

rejudged_example :
    passed (judge millionths (measure millionths plain sets answers 5) second rules at_five) ≡ true
rejudged_example =
    rejudged millionths documents plain sets answers at_five first second rules "v1" is_passed
      is_recorded steady

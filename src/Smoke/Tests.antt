-- ===== src/Smoke/Tests.antt =====
-- A stack that is up at the second attempt, and the witness.
use claim_triage_agent.Common.{ℕ, zero, suc, ◌+◌, ◌*◌, ◌≡◌, refl, ◌↔◌, [], arith}
use claim_triage_agent.Boundary.{unavailable}
use claim_triage_agent.Contract.{Claim, ClaimStatus, Readiness}
use claim_triage_agent.Contract.Client.{answered}
use claim_triage_agent.Triage.Pipeline.{Outcome, returned, raised}
use claim_triage_agent.Triage.Run.{RunResult}
use claim_triage_agent.Smoke.{Stack, main}
use claim_triage_agent.Smoke.Waiting.{Carries, IsPolled, smoke_iff}

abbrev run : RunResult
run = record {
  run_id = 1;
  claim_id = 7;
  status = ClaimStatus.triaged;
  experiment = "default";
  variant = "baseline";
  trace_id = "t";
}

abbrev claim : Claim
claim = record {
  claim_id = 7;
  policy_number = "SIM-2026-0001";
  incident_date = 20500;
  claim_amount_eur = 184050;
  status = ClaimStatus.triaged;
  status_history = [];
}

abbrev late_readiness : ℕ → Outcome Readiness
late_readiness zero = raised (unavailable "starting")
late_readiness (suc n) = returned Readiness.ready

abbrev stack : Stack
stack = record {
  readiness = late_readiness;
  intake = returned run;
  read_back = λ n. answered claim;
  first_clock = λ n. n * 300;
  second_clock = λ n. 700 + n * 300;
  deadline = 1000;
}

carried : main 9 stack ≡ 0
unfolding main
carried = refl

smoke_iff_example : (main (suc 8) stack ≡ 0) ↔ Carries stack
unfolding IsPolled
smoke_iff_example =
    smoke_iff stack 8 (λ n. omega arith) (λ n. omega arith) (omega arith) (omega arith)

-- ===== src/Api/Relay/Tests.antt =====
-- A refusal of the pipeline as the entry point's caller sees it.
use claim_triage_agent.Common.{◌≡◌, refl, ℕ, ◌+◌, true, String, [], arith}
use claim_triage_agent.Api.{relayed_outcome}
use claim_triage_agent.Api.Relay.{IsRelayable, over_wire, relayed_unchanged}
use claim_triage_agent.Boundary.{BoundaryCode, BoundaryError, refused}
use claim_triage_agent.Triage.Pipeline.{raised}
use claim_triage_agent.Triage.Run.{RunRequest}
use claim_triage_agent.Triage.Surface.{Runner}
use claim_triage_agent.Wire.{Message}
use claim_triage_agent.Wire.Samples.{Sample, run_samples}

abbrev rejected : Message Sample → String
rejected message = "rejected"

abbrev no_policy : BoundaryError
no_policy = record { code = BoundaryCode.policy_not_found; detail = "no such policy" }

-- A pipeline whose systems hold no policy, and that counts the runs it was asked for.
abbrev refusing : Runner ℕ
refusing = record {
  ready = λ asked. (true, asked);
  run = λ request asked. (raised (refused 404 no_policy), asked + 1);
}

abbrev request : RunRequest
request = record {
  intake = record {
    policy_number = "P-1";
    incident_date = 1;
    claim_amount_eur = 1200;
    experiment = "baseline";
    variant = "replay";
  };
  run_id = 5;
  guard_verdicts = [];
}

no_policy-IsRelayable :
    (status : ℕ) (error : BoundaryError)
    → (refusing.run request 0).0 ≡ raised (refused status error)
    → IsRelayable status error
no_policy-IsRelayable status error told = ground arith

relayed_unchanged_example :
    (relayed_outcome ((over_wire run_samples (λ e. refl) rejected refusing).submit request 0).0
      ≡ relayed_outcome (refusing.run request 0).0)
    × (((over_wire run_samples (λ e. refl) rejected refusing).submit request 0).1 ≡ 1)
relayed_unchanged_example =
    relayed_unchanged run_samples (λ e. refl) rejected refusing request 0 refl (λ r told. refl)
      no_policy-IsRelayable

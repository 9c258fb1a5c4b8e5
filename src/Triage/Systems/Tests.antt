-- ===== src/Triage/Systems/Tests.antt =====
-- A run that is tried again, at concrete systems.
use claim_triage_agent.Common.{◌≡◌, refl, true, false, String, Option, none, some, [], ◌∷◌}
use claim_triage_agent.Contract.{Uuid, Claim, received}
use claim_triage_agent.Contract.Client.{answered}
use claim_triage_agent.CoreSim.Store.{
  CoreError, Request, create_claim, Drawn, write, create_row, answered_once, remember,
}
use claim_triage_agent.CoreSim.Store.Retry.{IsCalm, rows}
use claim_triage_agent.CoreSim.Tables.{Tables, claim, schema}
use claim_triage_agent.Database.{Session, Store, committed, ok}
use claim_triage_agent.Triage.Pipeline.{submission}
use claim_triage_agent.Triage.Run.{RunRequest}
use claim_triage_agent.Triage.Systems.{claim_key, intake, meanwhile_at, taken_in_again}
use claim_triage_agent.Wire.{Message}
use claim_triage_agent.Wire.Samples.{Sample, samples}

abbrev show : Uuid → String
show id = "5"

abbrev read_uuid : String → Option Uuid
read_uuid text = some 5

abbrev rejected : Message Sample → String
rejected message = "rejected"

abbrev worded : CoreError → String
worded e = "refused"

abbrev dumps : Request → String
dumps (create_claim s) = "create_claim"
dumps _ = "other"

abbrev sha256 : String → String
sha256 text = text

abbrev calm : Session Tables
calm = record { connects = true; answers = λ _. true; meanwhile = λ t. t; commit = committed }

calm-IsCalm : IsCalm calm
calm-IsCalm = record { connects = refl; answers = λ n. refl; commits = refl }

abbrev fresh : Store Tables
fresh = record { tables = none; schema_applied = false }

abbrev drawn : Drawn
drawn = record { id = 5; now = 100 }

abbrev later : Drawn
later = record { id = 6; now = 200 }

abbrev request : RunRequest
request = record {
  intake = record {
    policy_number = "SIM-2026-0001";
    incident_date = 20500;
    claim_amount_eur = 184050;
    experiment = "baseline";
    variant = "replay";
  };
  run_id = 5;
  guard_verdicts = [];
}

abbrev taken : Claim
taken = record {
  claim_id = 5;
  policy_number = "SIM-2026-0001";
  incident_date = 20500;
  claim_amount_eur = 184050;
  status = received;
  status_history = record { status = received; recorded_at = 100 } ∷ [];
}

first_intake :
    (write dumps sha256
      (create_claim (submission request))
      (claim_key samples show read_uuid rejected worded dumps sha256 request)
      drawn
      calm
      fresh).0
    ≡ ok (claim taken)
unfolding write create_row schema answered_once remember submission
first_intake = refl

taken_in_again_example :
    ((intake samples show read_uuid rejected worded dumps sha256 later calm request (
        meanwhile_at samples show read_uuid rejected worded dumps sha256 request drawn calm []
          fresh)).0
      ≡ answered taken)
    × (rows
          (intake samples show read_uuid rejected worded dumps sha256 later calm request (
            meanwhile_at samples show read_uuid rejected worded dumps sha256 request drawn calm []
              fresh)).1.tables
        ≡ rows
            (meanwhile_at samples show read_uuid rejected worded dumps sha256 request drawn calm []
              fresh).tables)
taken_in_again_example =
    taken_in_again samples show read_uuid rejected worded dumps sha256 (λ e. refl) request drawn
      later calm calm fresh taken [] first_intake tt calm-IsCalm refl refl refl

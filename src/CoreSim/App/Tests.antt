-- ===== src/CoreSim/App/Tests.antt =====
-- The systems over the wire, at concrete messages.
use claim_triage_agent.Common.{◌≡◌, refl, true, false, String, Option, none, some}
use claim_triage_agent.Contract.{Uuid, ClaimSubmission}
use claim_triage_agent.Contract.Client
use claim_triage_agent.Contract.Client.{Called, answered, unexpected}
use claim_triage_agent.CoreSim.App.Asking.{Readable, asked}
use claim_triage_agent.CoreSim.App.Crossing.{delivered, write_crosses, read_crosses}
use claim_triage_agent.CoreSim.App.Reading.{seen_as}
use claim_triage_agent.CoreSim.Store.{CoreError, Request, create_claim, Drawn, write, read}
use claim_triage_agent.CoreSim.Tables.{Tables, Answer, claim, document, party}
use claim_triage_agent.Database.{Session, Store, committed}
use claim_triage_agent.Wire.{Message}
use claim_triage_agent.Wire.Samples.{Sample, samples}

abbrev show : Uuid → String
show id = "5"

abbrev read_uuid : String → Option Uuid
read_uuid text = some 5

abbrev rejected : Message Sample → String
rejected message = "rejected"

abbrev worded : CoreError → String
worded e = "refused"

abbrev dumps : Request → String
dumps (create_claim s) = "create_claim"
dumps _ = "other"

abbrev sha256 : String → String
sha256 text = text

abbrev calm : Session Tables
calm = record { connects = true; answers = λ _. true; meanwhile = λ t. t; commit = committed }

abbrev fresh : Store Tables
fresh = record { tables = none; schema_applied = false }

abbrev submission : ClaimSubmission
submission = record {
  policy_number = "SIM-2026-0001";
  incident_date = 20500;
  claim_amount_eur = 184050;
}

abbrev drawn : Drawn
drawn = record { id = 5; now = 100 }

all-Readable : (b : Answer) → Readable samples b
all-Readable (claim c) = refl
all-Readable (document d) = refl
all-Readable (party p) = refl

write_crosses_example :
    asked samples show read_uuid
      (delivered samples show read_uuid rejected worded dumps sha256 drawn calm)
      (create_claim submission)
      "run/claim"
      fresh
    ≡ (
      seen_as worded (write dumps sha256 (create_claim submission) "run/claim" drawn calm fresh).0,
      (write dumps sha256 (create_claim submission) "run/claim" drawn calm fresh).1,
    )
write_crosses_example =
    write_crosses samples show read_uuid rejected worded dumps sha256 (λ e. refl)
      (create_claim submission) "run/claim" drawn calm fresh refl refl (λ b told. all-Readable b)

read_crosses_example :
    Client.read_claim samples show
      (delivered samples show read_uuid rejected worded dumps sha256 drawn calm)
      5
      fresh
    ≡ (seen_as worded (read 5 calm fresh).0, (read 5 calm fresh).1)
read_crosses_example =
    read_crosses samples show read_uuid rejected worded dumps sha256 (λ e. refl) 5 drawn calm fresh
      refl (λ c told. refl)

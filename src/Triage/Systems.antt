-- ===== src/Triage/Systems.antt =====
-- src/claim_triage/triage/pipeline.py over src/claim_triage/contract/client.py: the systems as the
-- pipeline reaches them, and a run that is tried again.
mod Tests
use Prim.Native.String.{◌++◌ as str_append}
use claim_triage_agent.Common.{
  ◌≡◌, refl, sym, ap, ◌∙◌, Bool, true, String, Option, some, List, arith,
}
use claim_triage_agent.Contract.{Uuid, Claim}
use claim_triage_agent.Contract.Client
use claim_triage_agent.Contract.Client.{Codecs, Called, answered}
use claim_triage_agent.CoreSim.App.{bounded}
use claim_triage_agent.CoreSim.App.Asking.{Carries, Readable, asked, map_called}
use claim_triage_agent.CoreSim.App.Crossing.{delivered, write_crosses}
use claim_triage_agent.CoreSim.App.Reading.{seen_as}
use claim_triage_agent.CoreSim.Store.{CoreError, Request, create_claim, Drawn, write}
use claim_triage_agent.CoreSim.Store.History.{Call, AllKeepKeys, after_all, retry_answers}
use claim_triage_agent.CoreSim.Store.Retry.{IsCalm, rows}
use claim_triage_agent.CoreSim.Tables.{Tables, Answer, claim}
use claim_triage_agent.Database.{Session, Store, ok}
use claim_triage_agent.Triage.Pipeline.{Systems, submission, taken_in}
use claim_triage_agent.Triage.Run.{RunRequest}
use claim_triage_agent.Wire.{Message, Exchange, ReadsBack}

module _ {J : Type 0} (codecs : Codecs J) (show : Uuid → String) where
  -- `CoreSimClient` over a transport.
  abbrev pub client_systems : {S : Type 0} → (Message J → S → Exchange J × S) → Systems S
  client_systems send = record {
    create_claim = Client.create_claim codecs show send;
    record_claim_status = λ claim_id status.
        Client.record_claim_status codecs show send claim_id (record { status = status });
  }

  module _ (read_uuid : String → Option Uuid) (rejected : Message J → String)
      (worded : CoreError → String) (dumps : Request → String) (sha256 : String → String) where
    -- The key of a run's intake.
    abbrev pub claim_key : RunRequest → String
    claim_key request = str_append (show request.run_id) "/claim"

    claim-injective :
        (called : Called Claim) (c : Claim)
        → map_called claim called ≡ answered (claim c)
        → called ≡ answered c
    claim-injective called c h = ground arith

    -- The intake of a run at systems that are reached.
    abbrev pub intake :
        Drawn → Session Tables → RunRequest → Store Tables → Called Claim × Store Tables
    intake drawn w =
        taken_in
          (client_systems (delivered codecs show read_uuid rejected worded dumps sha256 drawn w))
          show

    intake_crosses :
        (errors : (e : String × String) → ReadsBack codecs.errors e) (request : RunRequest)
        (drawn : Drawn) (w : Session Tables) (s : Store Tables) (c : Claim)
        → ReadsBack codecs.submissions (submission request)
        → bounded 128 (claim_key request) ≡ true
        → ReadsBack codecs.claims c
        → (write dumps sha256 (create_claim (submission request)) (claim_key request) drawn w s).0
          ≡ ok (claim c)
        → ((intake drawn w request s).0 ≡ answered c)
          × ((intake drawn w request s).1
              ≡ (write dumps sha256
                  (create_claim (submission request))
                  (claim_key request)
                  drawn
                  w
                  s).1)
    unfolding taken_in
    intake_crosses errors request drawn w s c sent fits read told =
        let reads =
          λ (b : Answer)
              (returned : (write dumps sha256 (create_claim (submission request))
                  (claim_key request) drawn w s).0
                ≡ ok b).
            let same : b ≡ claim c = ground (arith, told, returned) in
            let readable : Readable codecs b = rw same read in readable in
        let crossed =
          write_crosses codecs show read_uuid rejected worded dumps sha256 errors
            (create_claim (submission request)) (claim_key request) drawn w s sent fits reads in
        (
          claim-injective _ c (ap (λ x. x.0) crossed ∙ ap (seen_as worded) told),
          ap (λ x. x.1) crossed,
        )

    -- The tables after a run's claim was taken in, and whatever was asked of the systems since.
    abbrev pub meanwhile_at :
        RunRequest
        → Drawn
        → Session Tables
        → List (Call × Session Tables)
        → Store Tables
        → Store Tables
    meanwhile_at request drawn w between s =
        after_all dumps sha256 between
          (write dumps sha256 (create_claim (submission request)) (claim_key request) drawn w s).1

    -- A run that is tried again, after its claim was taken in and whatever was asked of the systems in
    -- between, is answered the claim of the first time, and no row is added for it: where the systems
    -- are reached and nothing of them fails, and the key and the models cross the wire.
    pub taken_in_again :
        (errors : (e : String × String) → ReadsBack codecs.errors e) (request : RunRequest)
        (drawn drawn' : Drawn) (w w' : Session Tables) (s : Store Tables) (c : Claim)
        (between : List (Call × Session Tables))
        → (write dumps sha256 (create_claim (submission request)) (claim_key request) drawn w s).0
          ≡ ok (claim c)
        → AllKeepKeys dumps sha256 between
        → IsCalm w'
        → ReadsBack codecs.submissions (submission request)
        → bounded 128 (claim_key request) ≡ true
        → ReadsBack codecs.claims c
        → ((intake drawn' w' request (meanwhile_at request drawn w between s)).0 ≡ answered c)
          × (rows (intake drawn' w' request (meanwhile_at request drawn w between s)).1.tables
              ≡ rows (meanwhile_at request drawn w between s).tables)
    taken_in_again errors request drawn drawn' w w' s c between first kept calm sent fits read =
        let s' = meanwhile_at request drawn w between s in
        let (again, unchanged) =
          retry_answers dumps sha256 (create_claim (submission request)) (claim_key request) drawn
            drawn' w w' s (claim c) between first kept calm in
        let (answer, tables) = intake_crosses errors request drawn' w' s' c sent fits read again in
        (answer, rw tables unchanged)

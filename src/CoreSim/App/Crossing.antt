-- ===== src/CoreSim/App/Crossing.antt =====
-- src/claim_triage/contract/client.py over src/claim_triage/core_sim/app.py: a call of the client
-- comes to what the store answers, errors included.
use claim_triage_agent.Common.{◌≡◌, ◌<◌, refl, ℕ, true, String, Option, some, arith, nat_equality}
use claim_triage_agent.Contract.{Uuid, Claim, ClaimDocument, ClaimParty}
use claim_triage_agent.Contract.Client
use claim_triage_agent.Contract.Client.{
  Called, answered, refusal as refused_with, unreachable, unexpected, error_code_of, Codecs,
  error_response, refusal_of, received_as, request_as,
}
use claim_triage_agent.CoreSim.App.{
  bounded, bound_get, bound_to, answer_as, dump_answer, write_status, respond, serve,
}
use claim_triage_agent.CoreSim.App.Asking.{
  map_called, map_called-error, validated_claims, validated_documents, validated_parties, Readable,
  Carries, asked, message_of, bound_to-message_of,
}
use claim_triage_agent.CoreSim.App.Reading.{seen_as, answer_read, error_read, crash_read}
use claim_triage_agent.CoreSim.Store.{
  CoreError, Request, create_claim, record_claim_status, attach_claim_document, record_claim_party,
  Drawn, Model, model_of, write, read,
}
use claim_triage_agent.CoreSim.Store.Recall.{write-Recalls}
use claim_triage_agent.CoreSim.Tables.{Tables, Answer, claim, document, party}
use claim_triage_agent.Database.{Session, Store, Result, ok, err, own, db}
use claim_triage_agent.Wire.{Codec, ReadsBack, Message, Exchange, responded}

module _ {J : Type 0} (codecs : Codecs J) where
  module _ (errors : (e : String × String) → ReadsBack codecs.errors e) where
    written_read :
        {A : Type 0} (codec : Codec J A) (inject : A → Answer) (expected : ℕ)
        (worded : CoreError → String) (r : Result CoreError Answer)
        → expected < 300
        → ((a : A) → dump_answer codecs (inject a) ≡ codec.dump a)
        → ((b : Answer) → r ≡ ok b → (a : A) × (b ≡ inject a) × ReadsBack codec a)
        → map_called inject (
            received_as codecs codec.validate expected
              (responded (answer_as codecs worded expected (dump_answer codecs) r)))
          ≡ seen_as worded r
    unfolding answer_as received_as
    written_read codec inject expected worded (ok b) low dumped reads =
        let (a, same, back) = reads b refl in ground (arith, same, dumped a, back)
    written_read codec inject expected worded (err (own e)) low dumped reads =
        rw (error_read codecs errors codec.validate expected worded e low)
          (map_called-error inject worded e)
    written_read codec inject expected worded (err (db e)) low dumped reads =
        rw (crash_read codecs errors codec.validate expected (ground (arith, low))) refl

  module _ (show : Uuid → String) (read_uuid : String → Option Uuid) (rejected : Message J → String)
      (worded : CoreError → String) (dumps : Request → String) (sha256 : String → String) where
    -- A transport that delivers every message to the systems, and every response back.
    abbrev pub delivered :
        Drawn → Session Tables → Message J → Store Tables → Exchange J × Store Tables
    delivered drawn w message s =
        let (response, s') =
          serve codecs read_uuid rejected worded dumps sha256 message drawn w s in
        (responded response, s')

    serve-write :
        (request : Request) (key : String) (drawn : Drawn) (w : Session Tables) (s : Store Tables)
        → Carries codecs show read_uuid request
        → bounded 128 key ≡ true
        → serve codecs read_uuid rejected worded dumps sha256
            (message_of codecs show read_uuid request key)
            drawn
            w
            s
          ≡ (
            answer_as codecs worded
                (write_status codecs request)
                (dump_answer codecs)
                (write dumps sha256 request key drawn w s).0,
            (write dumps sha256 request key drawn w s).1,
          )
    unfolding serve respond
    serve-write request key drawn w s carries fits =
        rw (bound_to-message_of codecs show read_uuid request key carries fits) refl

    answered_claim :
        (request : Request) (key : String) (drawn : Drawn) (w : Session Tables) (s : Store Tables)
        (b : Answer)
        → model_of request ≡ Model.claims
        → (write dumps sha256 request key drawn w s).0 ≡ ok b
        → Readable codecs b
        → (a : Claim) × (b ≡ claim a) × ReadsBack codecs.claims a
    answered_claim request key drawn w s b model returned reads =
        let (m, held, same, valid) = write-Recalls dumps sha256 request key drawn w s b returned in
        let (a, is) = validated_claims m.response b (rw model at valid) in (a, is, rw is at reads)

    answered_document :
        (request : Request) (key : String) (drawn : Drawn) (w : Session Tables) (s : Store Tables)
        (b : Answer)
        → model_of request ≡ Model.documents
        → (write dumps sha256 request key drawn w s).0 ≡ ok b
        → Readable codecs b
        → (a : ClaimDocument) × (b ≡ document a) × ReadsBack codecs.documents a
    answered_document request key drawn w s b model returned reads =
        let (m, held, same, valid) = write-Recalls dumps sha256 request key drawn w s b returned in
        let (a, is) = validated_documents m.response b (rw model at valid) in
        (a, is, rw is at reads)

    answered_party :
        (request : Request) (key : String) (drawn : Drawn) (w : Session Tables) (s : Store Tables)
        (b : Answer)
        → model_of request ≡ Model.parties
        → (write dumps sha256 request key drawn w s).0 ≡ ok b
        → Readable codecs b
        → (a : ClaimParty) × (b ≡ party a) × ReadsBack codecs.parties a
    answered_party request key drawn w s b model returned reads =
        let (m, held, same, valid) = write-Recalls dumps sha256 request key drawn w s b returned in
        let (a, is) = validated_parties m.response b (rw model at valid) in (a, is, rw is at reads)

    -- A write of the client comes to what the store answers: the value itself, the refusal of the
    -- store's exception with its status and code, or an unexpected response where the systems crash.
    pub write_crosses :
        (errors : (e : String × String) → ReadsBack codecs.errors e) (request : Request)
        (key : String) (drawn : Drawn) (w : Session Tables) (s : Store Tables)
        → Carries codecs show read_uuid request
        → bounded 128 key ≡ true
        → ((b : Answer) → (write dumps sha256 request key drawn w s).0 ≡ ok b → Readable codecs b)
        → asked codecs show read_uuid (delivered drawn w) request key s ≡ (
          seen_as worded (write dumps sha256 request key drawn w s).0,
          (write dumps sha256 request key drawn w s).1,
        )
    unfolding model_of Client.create_claim Client.record_claim_status Client.attach_claim_document
        Client.record_claim_party Client.request_as
    write_crosses errors (create_claim x) key drawn w s carries fits reads =
        let told =
          λ (b : Answer) (returned : (write dumps sha256 (create_claim x) key drawn w s).0 ≡ ok b).
            answered_claim (create_claim x) key drawn w s b refl returned (reads b returned) in
        rw (serve-write (create_claim x) key drawn w s carries fits) (
          ground (
            arith,
            written_read errors codecs.claims claim 201 worded
                (write dumps sha256 (create_claim x) key drawn w s).0 (omega arith) (λ a. refl)
                told,
          ))
    write_crosses errors (record_claim_status id st) key drawn w s carries fits reads =
        let told =
          λ (b : Answer)
              (returned : (write dumps sha256 (record_claim_status id st) key drawn w s).0 ≡ ok b).
            answered_claim (record_claim_status id st) key drawn w s b refl returned
              (reads b returned) in
        rw (serve-write (record_claim_status id st) key drawn w s carries fits) (
          ground (
            arith,
            written_read errors codecs.claims claim 200 worded
                (write dumps sha256 (record_claim_status id st) key drawn w s).0 (omega arith)
                (λ a. refl) told,
          ))
    write_crosses errors (attach_claim_document id x) key drawn w s carries fits reads =
        let told =
          λ (b : Answer)
              (returned : (write dumps sha256 (attach_claim_document id x) key drawn w s).0 ≡ ok b).
            answered_document (attach_claim_document id x) key drawn w s b refl returned
              (reads b returned) in
        rw (serve-write (attach_claim_document id x) key drawn w s carries fits) (
          ground (
            arith,
            written_read errors codecs.documents document 201 worded
                (write dumps sha256 (attach_claim_document id x) key drawn w s).0 (omega arith)
                (λ a. refl) told,
          ))
    write_crosses errors (record_claim_party id x) key drawn w s carries fits reads =
        let told =
          λ (b : Answer)
              (returned : (write dumps sha256 (record_claim_party id x) key drawn w s).0 ≡ ok b).
            answered_party (record_claim_party id x) key drawn w s b refl returned
              (reads b returned) in
        rw (serve-write (record_claim_party id x) key drawn w s carries fits) (
          ground (
            arith,
            written_read errors codecs.parties party 201 worded
                (write dumps sha256 (record_claim_party id x) key drawn w s).0 (omega arith)
                (λ a. refl) told,
          ))

    -- Reading a claim, likewise.
    pub read_crosses :
        (errors : (e : String × String) → ReadsBack codecs.errors e) (claim_id : Uuid)
        (drawn : Drawn) (w : Session Tables) (s : Store Tables)
        → read_uuid (show claim_id) ≡ some claim_id
        → ((c : Claim) → (read claim_id w s).0 ≡ ok c → ReadsBack codecs.claims c)
        → Client.read_claim codecs show (delivered drawn w) claim_id s
          ≡ (seen_as worded (read claim_id w s).0, (read claim_id w s).1)
    unfolding Client.read_claim Client.request_as serve respond bound_to bound_get
    read_crosses errors claim_id drawn w s named reads = ground (
      arith,
      named,
      answer_read codecs errors codecs.claims 200 worded (read claim_id w s).0 (omega arith) reads,
    )

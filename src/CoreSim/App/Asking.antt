-- ===== src/CoreSim/App/Asking.antt =====
-- src/claim_triage/contract/client.py and src/claim_triage/core_sim/app.py: the four writes as the
-- client sends them, and the routes that take them.
use claim_triage_agent.Common.{◌≡◌, refl, true, String, Option, some, arith, nat_equality}
use claim_triage_agent.Contract.{Uuid, Claim, ClaimDocument, ClaimParty}
use claim_triage_agent.Contract.Client
use claim_triage_agent.Contract.Client.{
  Called, answered, refusal as refused_with, unreachable, unexpected, error_code_of, Codecs,
  error_response, refusal_of, received_as, request_as,
}
use claim_triage_agent.CoreSim.App.{writes, bounded, with_body, bound_post, bound_to}
use claim_triage_agent.CoreSim.App.Reading.{seen_as}
use claim_triage_agent.CoreSim.Store.{
  CoreError, claim_not_found, policy_not_found, idempotency_key_reuse, invalid_record, Request,
  create_claim, record_claim_status, attach_claim_document, record_claim_party, Model, validated,
}
use claim_triage_agent.CoreSim.Tables.{Answer, claim, document, party}
use claim_triage_agent.Database.{err, own}
use claim_triage_agent.Wire.{ReadsBack, Message, Exchange}

-- The answers of the four writes, as one type.
abbrev pub map_called : {A B : Type 0} → (A → B) → Called A → Called B
map_called f (answered a) = answered (f a)
map_called f (refused_with status error) = refused_with status error
map_called f (unreachable why) = unreachable why
map_called f unexpected = unexpected

pub map_called-error :
    {A : Type 0} (inject : A → Answer) (worded : CoreError → String) (e : CoreError)
    → map_called inject (seen_as worded (err (own e))) ≡ seen_as worded (err (own e))
map_called-error inject worded (claim_not_found id) = refl
map_called-error inject worded (policy_not_found number) = refl
map_called-error inject worded (idempotency_key_reuse key) = refl
map_called-error inject worded invalid_record = refl

-- An answer of each model is that model's.
pub validated_claims :
    (b a : Answer) → validated Model.claims b ≡ some a → (c : Claim) × (a ≡ claim c)
unfolding validated
validated_claims (claim c) a h = (c, ground (arith, h))
validated_claims (document d) a h = absurd (ground (arith, h))
validated_claims (party p) a h = absurd (ground (arith, h))

pub validated_documents :
    (b a : Answer) → validated Model.documents b ≡ some a → (d : ClaimDocument) × (a ≡ document d)
unfolding validated
validated_documents (document d) a h = (d, ground (arith, h))
validated_documents (claim c) a h = absurd (ground (arith, h))
validated_documents (party p) a h = absurd (ground (arith, h))

pub validated_parties :
    (b a : Answer) → validated Model.parties b ≡ some a → (p : ClaimParty) × (a ≡ party p)
unfolding validated
validated_parties (party p) a h = (p, ground (arith, h))
validated_parties (claim c) a h = absurd (ground (arith, h))
validated_parties (document d) a h = absurd (ground (arith, h))

module _ {J : Type 0} (codecs : Codecs J) where
  -- A response that was stored can be read by the client.
  abbrev pub Readable : Answer → Type 0
  Readable (claim c) = ReadsBack codecs.claims c
  Readable (document d) = ReadsBack codecs.documents d
  Readable (party p) = ReadsBack codecs.parties p

  module _ (show : Uuid → String) (read_uuid : String → Option Uuid) where
    -- The request's identifier and body can be read by the systems.
    abbrev pub Carries : Request → Type 0
    Carries (create_claim x) = ReadsBack codecs.submissions x
    Carries (record_claim_status id st) =
        (read_uuid (show id) ≡ some id) × ReadsBack codecs.updates (record { status = st })
    Carries (attach_claim_document id x) =
        (read_uuid (show id) ≡ some id) × ReadsBack codecs.attachments x
    Carries (record_claim_party id x) =
        (read_uuid (show id) ≡ some id) × ReadsBack codecs.registrations x

    -- The client's method for each request.
    abbrev pub asked :
        {S : Type 0} → (Message J → S → Exchange J × S) → Request → String → S → Called Answer × S
    asked send (create_claim x) key s =
        let (called, s') = Client.create_claim codecs show send x key s in
        (map_called claim called, s')
    asked send (record_claim_status id st) key s =
        let (called, s') =
          Client.record_claim_status codecs show send id (record { status = st }) key s in
        (map_called claim called, s')
    asked send (attach_claim_document id x) key s =
        let (called, s') = Client.attach_claim_document codecs show send id x key s in
        (map_called document called, s')
    asked send (record_claim_party id x) key s =
        let (called, s') = Client.record_claim_party codecs show send id x key s in
        (map_called party called, s')

    abbrev pub message_of : Request → String → Message J
    message_of (create_claim x) key = Client.create_message codecs show x key
    message_of (record_claim_status id st) key =
        Client.status_message codecs show id (record { status = st }) key
    message_of (attach_claim_document id x) key = Client.document_message codecs show id x key
    message_of (record_claim_party id x) key = Client.party_message codecs show id x key

    pub bound_to-message_of :
        (request : Request) (key : String)
        → Carries request
        → bounded 128 key ≡ true
        → bound_to codecs read_uuid (message_of request key) ≡ writes request key
    unfolding bound_to bound_post with_body
    bound_to-message_of (create_claim x) key carries fits = ground (arith, carries, fits)
    bound_to-message_of (record_claim_status id st) key carries fits = ground (arith, carries, fits)
    bound_to-message_of (attach_claim_document id x) key carries fits =
        ground (arith, carries, fits)
    bound_to-message_of (record_claim_party id x) key carries fits = ground (arith, carries, fits)

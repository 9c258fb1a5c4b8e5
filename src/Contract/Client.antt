-- ===== src/Contract/Client.antt =====
-- src/claim_triage/contract/client.py: the typed client of the surrounding systems. Sending a message
-- is the transport's, a parameter with a state of its own; so are the JSON of the models and the text
-- of an identifier.
use claim_triage_agent.Common.{
  ℕ, String, Option, none, some, List, [], ◌∷◌, not, ◌==◌, nat_equality, string_equality,
  if◌then◌else◌,
}
use claim_triage_agent.Contract.{
  Uuid, Claim, ClaimStatusUpdate, ClaimSubmission, ClaimDocument, ClaimDocumentSubmission,
  ClaimParty, ClaimPartySubmission, Policy, Readiness, ErrorCode, ErrorResponse,
}
use claim_triage_agent.Wire.{Codec, Message, json, other, Response, Exchange, responded, lost}

-- What a call comes back with: an answer, a `Refusal` with its status, `CoreSimUnreachable`, or
-- `UnexpectedResponse`. The subclasses of `Refusal` are the codes of its response.
pub data Called (A : Type 0) : Type 0 where
  answered : A → Called A
  refusal : ℕ → ErrorResponse → Called A
  unreachable : String → Called A
  unexpected : Called A

-- `ErrorCode(value)`: the member of that value, which a model has to have.
unfoldable pub error_code_of : String → Option ErrorCode
error_code_of value =
    if value == "invalid_payload"
    then some ErrorCode.invalid_payload
    else if value == "claim_not_found"
    then some ErrorCode.claim_not_found
    else if value == "policy_not_found"
    then some ErrorCode.policy_not_found
    else if value == "idempotency_key_reuse"
    then some ErrorCode.idempotency_key_reuse
    else if value == "service_unavailable"
    then some ErrorCode.service_unavailable
    else none

-- The JSON of every model; an error's is that of its two texts.
pub record Codecs (J : Type 0) : Type 0 where
  pub errors : Codec J (String × String)
  pub readiness : Codec J Readiness
  pub policies : Codec J Policy
  pub submissions : Codec J ClaimSubmission
  pub claims : Codec J Claim
  pub updates : Codec J ClaimStatusUpdate
  pub attachments : Codec J ClaimDocumentSubmission
  pub documents : Codec J ClaimDocument
  pub registrations : Codec J ClaimPartySubmission
  pub parties : Codec J ClaimParty
  pub party_lists : Codec J (List ClaimParty)

module _ {J : Type 0} (codecs : Codecs J) where
  -- `ErrorResponse.model_validate`
  unfoldable pub error_response : J → Option ErrorResponse
  unfolding error_code_of
  error_response document = elim (codecs.errors.validate document) [
    | none ↦ none
    | some (value, detail) ↦ elim (error_code_of value) [
      | none ↦ none
      | some code ↦ some (record { code = code; detail = detail })
    ]
  ]

  -- `_refusal`
  unfoldable pub refusal_of : {A : Type 0} → Response J → Called A
  unfolding error_response
  refusal_of response = elim response.body [
    | other ↦ unexpected
    | json document ↦ elim (error_response document) [
      | none ↦ unexpected
      | some error ↦ refusal response.status_code error
    ]
  ]

  -- `_request`, once the transport has sent the message.
  unfoldable pub received_as : {A : Type 0} → (J → Option A) → ℕ → Exchange J → Called A
  unfolding refusal_of
  received_as parse expected (lost why) = unreachable why
  received_as parse expected (responded response) =
      if not (response.status_code == expected) then refusal_of response else elim response.body [
        | other ↦ unexpected
        | json document ↦ elim (parse document) [ none ↦ unexpected | some a ↦ answered a ]
      ]

  module _ (show : Uuid → String) where
    abbrev pub readiness_message : Message J
    readiness_message = record {
      method = "GET";
      path = "healthz" ∷ [];
      idempotency_key = none;
      body = none;
    }

    abbrev pub policy_message : String → Message J
    policy_message policy_number = record {
      method = "GET";
      path = "policies" ∷ policy_number ∷ [];
      idempotency_key = none;
      body = none;
    }

    abbrev pub create_message : ClaimSubmission → String → Message J
    create_message submission key = record {
      method = "POST";
      path = "claims" ∷ [];
      idempotency_key = some key;
      body = some (codecs.submissions.dump submission);
    }

    abbrev pub read_message : Uuid → Message J
    read_message claim_id = record {
      method = "GET";
      path = "claims" ∷ show claim_id ∷ [];
      idempotency_key = none;
      body = none;
    }

    abbrev pub status_message : Uuid → ClaimStatusUpdate → String → Message J
    status_message claim_id status_update key = record {
      method = "POST";
      path = "claims" ∷ show claim_id ∷ "status" ∷ [];
      idempotency_key = some key;
      body = some (codecs.updates.dump status_update);
    }

    abbrev pub document_message : Uuid → ClaimDocumentSubmission → String → Message J
    document_message claim_id attachment key = record {
      method = "POST";
      path = "claims" ∷ show claim_id ∷ "documents" ∷ [];
      idempotency_key = some key;
      body = some (codecs.attachments.dump attachment);
    }

    abbrev pub parties_message : Uuid → Message J
    parties_message claim_id = record {
      method = "GET";
      path = "claims" ∷ show claim_id ∷ "parties" ∷ [];
      idempotency_key = none;
      body = none;
    }

    abbrev pub party_message : Uuid → ClaimPartySubmission → String → Message J
    party_message claim_id registration key = record {
      method = "POST";
      path = "claims" ∷ show claim_id ∷ "parties" ∷ [];
      idempotency_key = some key;
      body = some (codecs.registrations.dump registration);
    }

    module _ {S : Type 0} (send : Message J → S → Exchange J × S) where
      -- `_request`
      unfoldable pub request_as : {A : Type 0} → (J → Option A) → ℕ → Message J → S → Called A × S
      unfolding received_as
      request_as parse expected message s =
          let (exchange, s') = send message s in (received_as parse expected exchange, s')

      unfoldable pub read_readiness : S → Called Readiness × S
      unfolding request_as
      read_readiness = request_as codecs.readiness.validate 200 readiness_message

      unfoldable pub read_policy : String → S → Called Policy × S
      unfolding request_as
      read_policy number = request_as codecs.policies.validate 200 (policy_message number)

      unfoldable pub create_claim : ClaimSubmission → String → S → Called Claim × S
      unfolding request_as
      create_claim submission key =
          request_as codecs.claims.validate 201 (create_message submission key)

      unfoldable pub read_claim : Uuid → S → Called Claim × S
      unfolding request_as
      read_claim claim_id = request_as codecs.claims.validate 200 (read_message claim_id)

      unfoldable pub record_claim_status : Uuid → ClaimStatusUpdate → String → S → Called Claim × S
      unfolding request_as
      record_claim_status claim_id status_update key =
          request_as codecs.claims.validate 200 (status_message claim_id status_update key)

      unfoldable pub attach_claim_document :
          Uuid → ClaimDocumentSubmission → String → S → Called ClaimDocument × S
      unfolding request_as
      attach_claim_document claim_id attachment key =
          request_as codecs.documents.validate 201 (document_message claim_id attachment key)

      unfoldable pub read_claim_parties : Uuid → S → Called (List ClaimParty) × S
      unfolding request_as
      read_claim_parties claim_id =
          request_as codecs.party_lists.validate 200 (parties_message claim_id)

      unfoldable pub record_claim_party :
          Uuid → ClaimPartySubmission → String → S → Called ClaimParty × S
      unfolding request_as
      record_claim_party claim_id registration key =
          request_as codecs.parties.validate 201 (party_message claim_id registration key)

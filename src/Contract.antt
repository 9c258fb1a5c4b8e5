-- ===== src/Contract.antt =====
-- src/claim_triage/contract/models.py: the shapes that cross the surrounding systems' wire. An
-- identifier is a number, a date or an instant is a number of its unit since an origin, and an
-- amount is a number of cents.
pub mod Client
use claim_triage_agent.Common.{ℕ, String, List}

abbrev pub Uuid : Type 0
Uuid = ℕ

abbrev pub Date : Type 0
Date = ℕ

abbrev pub Instant : Type 0
Instant = ℕ

pub data ErrorCode : Type 0 where
  invalid_payload claim_not_found policy_not_found : ErrorCode
  idempotency_key_reuse service_unavailable : ErrorCode

pub record ErrorResponse : Type 0 where
  pub code : ErrorCode
  pub detail : String

-- `status: Literal["ok"]`
pub data Readiness : Type 0 where
  ready : Readiness

pub record Policy : Type 0 where
  pub policy_number : String
  pub product_family : String
  pub valid_from : Date

pub data ClaimStatus : Type 0 where
  received triaged : ClaimStatus

pub record ClaimStatusTransition : Type 0 where
  pub status : ClaimStatus
  pub recorded_at : Instant

pub record ClaimSubmission : Type 0 where
  pub policy_number : String
  pub incident_date : Date
  pub claim_amount_eur : ℕ

pub record ClaimStatusUpdate : Type 0 where
  pub status : ClaimStatus

pub record Claim : Type 0 where
  pub claim_id : Uuid
  pub policy_number : String
  pub incident_date : Date
  pub claim_amount_eur : ℕ
  pub status : ClaimStatus
  pub status_history : List ClaimStatusTransition

pub record ClaimDocumentSubmission : Type 0 where
  pub document_type : String
  pub filename : String

pub record ClaimDocument : Type 0 where
  pub document_id : Uuid
  pub claim_id : Uuid
  pub document_type : String
  pub filename : String
  pub attached_at : Instant

pub data PartyRole : Type 0 where
  policyholder claimant driver witness other : PartyRole

pub record ClaimPartySubmission : Type 0 where
  pub role : PartyRole

pub record ClaimParty : Type 0 where
  pub party_id : Uuid
  pub claim_id : Uuid
  pub role : PartyRole
  pub recorded_at : Instant

-- ===== src/Boundary.antt =====
-- src/claim_triage/boundary.py: the failures that the repository's own boundaries answer with. A
-- detail is text; how an exception is worded is not modelled.
use claim_triage_agent.Common.{ℕ, String, Option, none, some, if◌then◌else◌, ◌==◌, nat_equality}
use claim_triage_agent.Common.{string_equality}
use claim_triage_agent.Contract.{ErrorCode, ErrorResponse}

pub data BoundaryCode : Type 0 where
  invalid_payload claim_not_found policy_not_found : BoundaryCode
  idempotency_key_reuse service_unavailable : BoundaryCode
  not_found unsupported_media_type payload_too_large document_refused rate_limited : BoundaryCode

-- `code.value`, the string that crosses the wire, for each of the two vocabularies.
abbrev pub error_value : ErrorCode → String
error_value ErrorCode.invalid_payload = "invalid_payload"
error_value ErrorCode.claim_not_found = "claim_not_found"
error_value ErrorCode.policy_not_found = "policy_not_found"
error_value ErrorCode.idempotency_key_reuse = "idempotency_key_reuse"
error_value ErrorCode.service_unavailable = "service_unavailable"

abbrev pub boundary_value : BoundaryCode → String
boundary_value BoundaryCode.invalid_payload = "invalid_payload"
boundary_value BoundaryCode.claim_not_found = "claim_not_found"
boundary_value BoundaryCode.policy_not_found = "policy_not_found"
boundary_value BoundaryCode.idempotency_key_reuse = "idempotency_key_reuse"
boundary_value BoundaryCode.service_unavailable = "service_unavailable"
boundary_value BoundaryCode.not_found = "not_found"
boundary_value BoundaryCode.unsupported_media_type = "unsupported_media_type"
boundary_value BoundaryCode.payload_too_large = "payload_too_large"
boundary_value BoundaryCode.document_refused = "document_refused"
boundary_value BoundaryCode.rate_limited = "rate_limited"

-- `BoundaryCode(value)`: the member of that value, or `ValueError`.
unfoldable pub code_of : String → Option BoundaryCode
code_of value =
    if value == "invalid_payload"
    then some BoundaryCode.invalid_payload
    else if value == "claim_not_found"
    then some BoundaryCode.claim_not_found
    else if value == "policy_not_found"
    then some BoundaryCode.policy_not_found
    else if value == "idempotency_key_reuse"
    then some BoundaryCode.idempotency_key_reuse
    else if value == "service_unavailable"
    then some BoundaryCode.service_unavailable
    else if value == "not_found"
    then some BoundaryCode.not_found
    else if value == "unsupported_media_type"
    then some BoundaryCode.unsupported_media_type
    else if value == "payload_too_large"
    then some BoundaryCode.payload_too_large
    else if value == "document_refused"
    then some BoundaryCode.document_refused
    else if value == "rate_limited"
    then some BoundaryCode.rate_limited
    else none

pub record BoundaryError : Type 0 where
  pub code : BoundaryCode
  pub detail : String

-- `BoundaryError.relayed`; `none` is the `ValueError` of a code that has no counterpart.
unfoldable pub relayed : ErrorResponse → Option BoundaryError
unfolding code_of
relayed refusal = elim (code_of (error_value refusal.code)) [
  | none ↦ none
  | some code ↦ some (record { code = code; detail = refusal.detail })
]

-- What an exception is on the wire: a status and the error in the body.
pub record Response : Type 0 where
  pub status_code : ℕ
  pub error : BoundaryError

-- `Unavailable`, `Refused`, and any other exception, which the framework answers with a 500.
pub data Failure : Type 0 where
  unavailable : String → Failure
  refused : ℕ → BoundaryError → Failure
  defect : Failure

-- The handlers of `install` for the first two; `none` is left to the framework.
unfoldable pub handled : Failure → Option Response
handled (unavailable detail) = some (record {
  status_code = 503;
  error = record { code = BoundaryCode.service_unavailable; detail = detail };
})
handled (refused status error) = some (record { status_code = status; error = error })
handled defect = none

-- `refused_before_a_route`: the framework's own refusals, by their status.
unfoldable pub before_a_route : ℕ → String → Response
before_a_route status detail = record {
  status_code = status;
  error = record {
    code =
        if status == 404
        then BoundaryCode.not_found
        else if status == 415
        then BoundaryCode.unsupported_media_type
        else BoundaryCode.invalid_payload;
    detail = detail;
  };
}

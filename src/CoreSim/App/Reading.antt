-- ===== src/CoreSim/App/Reading.antt =====
-- src/claim_triage/contract/client.py: what it reads in the responses of src/claim_triage/core_sim/app.py.
use claim_triage_agent.Common.{
  ◌≡◌, ◌≢◌, ◌<◌, refl, ℕ, String, Option, none, some, arith, nat_equality,
}
use claim_triage_agent.Boundary.{error_value}
use claim_triage_agent.Contract.{ErrorCode}
use claim_triage_agent.Contract.Client.{
  Called, answered, refusal as refused_with, unexpected, error_code_of, Codecs, error_response,
  refusal_of, received_as,
}
use claim_triage_agent.CoreSim.App.{crashed, refusal, handled_error, answer_as}
use claim_triage_agent.CoreSim.Store.{
  CoreError, claim_not_found, policy_not_found, idempotency_key_reuse, invalid_record,
}
use claim_triage_agent.Database.{Result, ok, err, own, db}
use claim_triage_agent.Wire.{Codec, ReadsBack, json, responded}

-- The status and the code that each exception of the store has on the wire; `none` is a crash.
abbrev pub wire_error : CoreError → Option (ℕ × ErrorCode)
wire_error (claim_not_found _) = some (404, ErrorCode.claim_not_found)
wire_error (policy_not_found _) = some (404, ErrorCode.policy_not_found)
wire_error (idempotency_key_reuse _) = some (409, ErrorCode.idempotency_key_reuse)
wire_error invalid_record = none

-- What a caller is to see of what the store comes to.
abbrev pub seen_as : {A : Type 0} → (CoreError → String) → Result CoreError A → Called A
seen_as worded (ok a) = answered a
seen_as worded (err (own e)) = elim (wire_error e) [
  | none ↦ unexpected
  | some (status, code) ↦ refused_with status (record { code = code; detail = worded e })
]
seen_as worded (err (db e)) = unexpected

module _ {J : Type 0} (codecs : Codecs J)
    (errors : (e : String × String) → ReadsBack codecs.errors e) where
  -- The JSON of a refusal is that of its code's own text, which the client knows.
  refusal_body :
      (status : ℕ) (code : ErrorCode) (detail : String)
      → refusal codecs status code detail ≡ record {
        status_code = status;
        body = json (codecs.errors.dump (error_value code, detail));
      }
  unfolding refusal
  refusal_body status ErrorCode.invalid_payload detail = refl
  refusal_body status ErrorCode.claim_not_found detail = refl
  refusal_body status ErrorCode.policy_not_found detail = refl
  refusal_body status ErrorCode.idempotency_key_reuse detail = refl
  refusal_body status ErrorCode.service_unavailable detail = refl

  error_code_of-value : (code : ErrorCode) → error_code_of (error_value code) ≡ some code
  unfolding error_code_of
  error_code_of-value ErrorCode.invalid_payload = refl
  error_code_of-value ErrorCode.claim_not_found = refl
  error_code_of-value ErrorCode.policy_not_found = refl
  error_code_of-value ErrorCode.idempotency_key_reuse = refl
  error_code_of-value ErrorCode.service_unavailable = refl

  refusal_read :
      {A : Type 0} (parse : J → Option A) (expected status : ℕ) (code : ErrorCode) (detail : String)
      → status ≢ expected
      → received_as codecs parse expected (responded (refusal codecs status code detail))
        ≡ refused_with status (record { code = code; detail = detail })
  unfolding received_as refusal_of error_response
  refusal_read parse expected status code detail apart =
      rw (refusal_body status code detail)
        (ground (arith, apart, errors (error_value code, detail), error_code_of-value code))

  pub crash_read :
      {A : Type 0} (parse : J → Option A) (expected : ℕ)
      → 500 ≢ expected
      → received_as codecs parse expected (responded (crashed codecs)) ≡ unexpected
  unfolding received_as refusal_of
  crash_read parse expected apart = ground (arith, apart)

  pub error_read :
      {A : Type 0} (parse : J → Option A) (expected : ℕ) (worded : CoreError → String)
      (e : CoreError)
      → expected < 300
      → received_as codecs parse expected (responded (handled_error codecs worded e))
        ≡ seen_as worded (err (own e))
  unfolding handled_error
  error_read parse expected worded (claim_not_found id) low =
      refusal_read parse expected 404 _ _ (ground (arith, low))
  error_read parse expected worded (policy_not_found number) low =
      refusal_read parse expected 404 _ _ (ground (arith, low))
  error_read parse expected worded (idempotency_key_reuse key) low =
      refusal_read parse expected 409 _ _ (ground (arith, low))
  error_read parse expected worded invalid_record low =
      crash_read parse expected (ground (arith, low))

  pub answer_read :
      {A : Type 0} (codec : Codec J A) (expected : ℕ) (worded : CoreError → String)
      (r : Result CoreError A)
      → expected < 300
      → ((a : A) → r ≡ ok a → ReadsBack codec a)
      → received_as codecs codec.validate expected
          (responded (answer_as codecs worded expected codec.dump r))
        ≡ seen_as worded r
  unfolding answer_as received_as
  answer_read codec expected worded (ok a) low reads = ground (arith, reads a refl)
  answer_read codec expected worded (err (own e)) low reads =
      error_read codec.validate expected worded e low
  answer_read codec expected worded (err (db e)) low reads =
      crash_read codec.validate expected (ground (arith, low))

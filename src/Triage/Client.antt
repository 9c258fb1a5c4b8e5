-- ===== src/Triage/Client.antt =====
-- src/claim_triage/triage/client.py: our own boundaries, from the caller's side. The transport is a
-- parameter with a state of its own; of the text of a failed transport only the transport's part is
-- kept.
use claim_triage_agent.Common.{
  ℕ, Bool, true, false, String, Option, none, some, [], ◌∷◌, not, ◌==◌, nat_equality, if◌then◌else◌,
}
use claim_triage_agent.Boundary.{
  BoundaryCode, BoundaryError, code_of, Failure, unavailable, refused, defect,
}
use claim_triage_agent.Contract.{Readiness}
use claim_triage_agent.Triage.Pipeline.{Outcome, returned, raised}
use claim_triage_agent.Triage.Run.{RunRequest, RunResult}
use claim_triage_agent.Wire.{Codec, Message, json, other, Exchange, responded, lost}

-- The JSON of the wire's models; an error's is that of its two texts.
pub record RunCodecs (J : Type 0) : Type 0 where
  pub errors : Codec J (String × String)
  pub readiness : Codec J Readiness
  pub requests : Codec J RunRequest
  pub results : Codec J RunResult

abbrev pub is_unavailable : BoundaryCode → Bool
is_unavailable BoundaryCode.service_unavailable = true
is_unavailable _ = false

module _ {J : Type 0} (codecs : RunCodecs J) where
  -- `BoundaryError.model_validate`
  unfoldable pub boundary_error : J → Option BoundaryError
  boundary_error content = elim (codecs.errors.validate content) [
    | none ↦ none
    | some (value, detail) ↦ elim (code_of value) [
      | none ↦ none
      | some code ↦ some (record { code = code; detail = detail })
    ]
  ]

  -- What a response of another status than the expected one raises.
  unfoldable pub refusal_of : ℕ → J → Failure
  unfolding boundary_error
  refusal_of status content = elim (boundary_error content) [
    | none ↦ defect
    | some error ↦
        if is_unavailable error.code then unavailable error.detail else refused status error
  ]

  -- `_request`, once the transport has sent the message.
  unfoldable pub received_as : {A : Type 0} → (J → Option A) → ℕ → Exchange J → Outcome A
  unfolding refusal_of
  received_as parse expected (lost why) = raised (unavailable why)
  received_as parse expected (responded response) = elim response.body [
    | other ↦ raised defect
    | json content ↦
        if not (response.status_code == expected)
        then raised (refusal_of response.status_code content)
        else elim (parse content) [ none ↦ raised defect | some a ↦ returned a ]
  ]

  abbrev pub run_message : RunRequest → Message J
  run_message request = record {
    method = "POST";
    path = "runs" ∷ [];
    idempotency_key = none;
    body = some (codecs.requests.dump request);
  }

  module _ {S : Type 0} (send : Message J → S → Exchange J × S) where
    -- `RunClient.read_readiness`
    unfoldable pub read_readiness : S → Outcome Readiness × S
    unfolding received_as
    read_readiness s =
        let (exchange, s') =
          send
            (record { method = "GET"; path = "healthz" ∷ []; idempotency_key = none; body = none })
            s in
        (received_as codecs.readiness.validate 200 exchange, s')

    -- `RunClient.submit`
    unfoldable pub submit : RunRequest → S → Outcome RunResult × S
    unfolding received_as
    submit request s =
        let (exchange, s') = send (run_message request) s in
        (received_as codecs.results.validate 201 exchange, s')

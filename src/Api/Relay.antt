-- ===== src/Api/Relay.antt =====
-- src/claim_triage/api/surface.py over src/claim_triage/triage/client.py and
-- src/claim_triage/triage/surface.py: the entry point answers as the pipeline behind it came out.
mod Tests
use claim_triage_agent.Common.{
  ◌≡◌, ◌≢◌, refl, sym, ap, ◌∙◌, ℕ, Bool, true, false, String, Option, none, some, List, [], ◌∷◌,
  arith, Bool-cases, inl, inr, eq_of_ne, nat_equality, if◌then◌else◌,
}
use claim_triage_agent.Api.{Runs, relayed_outcome}
use claim_triage_agent.Boundary.{
  BoundaryCode, BoundaryError, boundary_value, code_of, Failure, unavailable, refused, defect,
  handled,
}
use claim_triage_agent.Triage.Client.{
  RunCodecs, is_unavailable, boundary_error, refusal_of, received_as, run_message, submit,
}
use claim_triage_agent.Triage.Pipeline.{Outcome, returned, raised}
use claim_triage_agent.Triage.Run.{RunRequest, RunResult}
use claim_triage_agent.Triage.Surface.{
  Runner, written, answer_as, bound_to, bound_path, creates_run, respond, serve,
}
use claim_triage_agent.Wire.{Codec, ReadsBack, Message, Exchange, responded}

-- A refusal that the wire keeps: it is not taken for an answer, and only 503 says unavailable.
abbrev pub IsRelayable : ℕ → BoundaryError → Type 0
IsRelayable status error = (status ≢ 201) × (is_unavailable error.code ≡ true → status ≡ 503)

code_of-boundary_value : (code : BoundaryCode) → code_of (boundary_value code) ≡ some code
unfolding code_of
code_of-boundary_value BoundaryCode.invalid_payload = refl
code_of-boundary_value _ = refl

module _ {J : Type 0} (codecs : RunCodecs J)
    (errors : (e : String × String) → ReadsBack codecs.errors e) where
  boundary_error-written :
      (error : BoundaryError)
      → boundary_error codecs (codecs.errors.dump (boundary_value error.code, error.detail))
        ≡ some error
  unfolding boundary_error
  boundary_error-written error =
      ground
        (arith, errors (boundary_value error.code, error.detail), code_of-boundary_value error.code)

  refusal_of-written :
      (status : ℕ) (error : BoundaryError)
      → refusal_of codecs status (codecs.errors.dump (boundary_value error.code, error.detail))
        ≡ (if is_unavailable error.code then unavailable error.detail else refused status error)
  unfolding refusal_of
  refusal_of-written status error = rw (boundary_error-written error, refusal_of) refl

  -- The answer of a refusal that the client reads, whichever of its two exceptions it raises.
  refused-relayed :
      (status : ℕ) (code : BoundaryCode) (detail : String)
      → (is_unavailable code ≡ true → status ≡ 503)
      → relayed_outcome (
          raised (
            if is_unavailable code
            then unavailable detail
            else refused status (record { code = code; detail = detail })))
        ≡ relayed_outcome (raised (refused status (record { code = code; detail = detail })))
  unfolding relayed_outcome handled
  refused-relayed status BoundaryCode.service_unavailable detail only = ground (arith, only refl)
  refused-relayed status _ detail only = refl

  -- What the client reads in the answer to an outcome is answered as the outcome itself.
  relayed-received_as :
      (o : Outcome RunResult)
      → ((r : RunResult) → o ≡ returned r → ReadsBack codecs.results r)
      → ((status : ℕ) (error : BoundaryError)
          → o ≡ raised (refused status error)
          → IsRelayable status error)
      → relayed_outcome (
          received_as codecs codecs.results.validate 201
            (responded (answer_as codecs 201 codecs.results o)))
        ≡ relayed_outcome o
  unfolding received_as answer_as handled
  relayed-received_as (returned r) reads relayable =
      ap relayed_outcome (ground (arith, reads r refl))
  relayed-received_as (raised (unavailable detail)) reads relayable = ap relayed_outcome (
      rw
        (refusal_of-written 503
          (record { code = BoundaryCode.service_unavailable; detail = detail }))
        refl)
  relayed-received_as (raised (refused status error)) reads relayable =
      let (apart, only) = relayable status error refl in
      rw (eq_of_ne status 201 apart, refusal_of-written status error)
        (refused-relayed status error.code error.detail only)
  relayed-received_as (raised defect) reads relayable = refl

  module _ (rejected : Message J → String) {S : Type 0} (runner : Runner S) where
    -- A transport that delivers every message to the triager, and every response back.
    abbrev pub delivered : Message J → S → Exchange J × S
    delivered message s =
        let (response, s') = serve codecs rejected runner message s in (responded response, s')

    -- The triager as the entry point reaches it.
    abbrev pub over_wire : Runs S
    over_wire = record { submit = submit codecs delivered }

    serve_run :
        (request : RunRequest) (s : S)
        → ReadsBack codecs.requests request
        → serve codecs rejected runner (run_message codecs request) s
          ≡ (answer_as codecs 201 codecs.results (runner.run request s).0, (runner.run request s).1)
    unfolding serve respond bound_to bound_path
    serve_run request s carried = rw (carried) refl

    submit_lem :
        (request : RunRequest) (s : S)
        → submit codecs delivered request s ≡ (
          received_as codecs codecs.results.validate 201
              (responded (serve codecs rejected runner (run_message codecs request) s).0),
          (serve codecs rejected runner (run_message codecs request) s).1,
        )
    unfolding submit
    submit_lem request s = refl

    -- A run that is asked for over the wire moves the pipeline as one that is asked for directly, and
    -- the entry point gives its caller the answer that it would give to the pipeline's own outcome,
    -- where the request and the result read back, and a refusal has not the status 201 and says that
    -- the service is unavailable only with 503.
    pub relayed_unchanged :
        (request : RunRequest) (s : S)
        → ReadsBack codecs.requests request
        → ((r : RunResult) → (runner.run request s).0 ≡ returned r → ReadsBack codecs.results r)
        → ((status : ℕ) (error : BoundaryError)
            → (runner.run request s).0 ≡ raised (refused status error)
            → IsRelayable status error)
        → (relayed_outcome (over_wire.submit request s).0
            ≡ relayed_outcome (runner.run request s).0)
          × ((over_wire.submit request s).1 ≡ (runner.run request s).1)
    relayed_unchanged request s carried reads relayable =
        rw (submit_lem request s, serve_run request s carried)
          (relayed-received_as (runner.run request s).0 reads relayable, refl)

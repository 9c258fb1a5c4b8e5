-- ===== src/Triage/Surface.antt =====
-- src/claim_triage/triage/surface.py: the triager's boundary. Binding a message to a route is the
-- framework's, in what the routes declare; the text of a rejection is `rejected`.
use claim_triage_agent.Common.{
  ℕ, Bool, true, false, String, Option, none, some, List, [], ◌∷◌, ◌==◌, string_equality,
  if◌then◌else◌,
}
use claim_triage_agent.Boundary.{
  BoundaryCode, BoundaryError, boundary_value, Failure, unavailable, handled, before_a_route,
}
use claim_triage_agent.Boundary
use claim_triage_agent.Contract.{ready}
use claim_triage_agent.Triage.Client.{RunCodecs}
use claim_triage_agent.Triage.Pipeline.{Outcome, returned, raised}
use claim_triage_agent.Triage.Run.{RunRequest, RunResult}
use claim_triage_agent.Wire.{Codec, Message, json, other, Response}

pub data Bound : Type 0 where
  reads_readiness : Bound
  creates_run : RunRequest → Bound
  outside : Bound
  unserved : ℕ → Bound

-- The pipeline behind the surface, over a state of its own.
pub record Runner (S : Type 0) : Type 0 where
  pub ready : S → Bool × S
  pub run : RunRequest → S → Outcome RunResult × S

module _ {J : Type 0} (codecs : RunCodecs J) where
  -- `boundary.refusal` of a response that the handlers of `install` make.
  abbrev pub written : Boundary.Response → Response J
  written response = record {
    status_code = response.status_code;
    body = json (codecs.errors.dump (boundary_value response.error.code, response.error.detail));
  }

  -- The answer of a route, or of the handler that takes what it raised; the framework's own answer
  -- to any other exception has no JSON.
  unfoldable pub answer_as : {A : Type 0} → ℕ → Codec J A → Outcome A → Response J
  answer_as status codec (returned a) = record { status_code = status; body = json (codec.dump a) }
  answer_as status codec (raised failure) = elim (handled failure) [
    | some response ↦ written response
    | none ↦ record { status_code = 500; body = other }
  ]

  unfoldable pub bound_path : List String → Bool → Option J → Bound
  bound_path (a ∷ []) posts body =
      if a == "healthz"
      then (if posts then unserved 405 else reads_readiness)
      else if a == "runs"
      then (if posts
          then elim body [
            | none ↦ outside
            | some content ↦ elim (codecs.requests.validate content) [
              | none ↦ outside
              | some request ↦ creates_run request
            ]
          ]
          else unserved 405)
      else unserved 404
  bound_path _ posts body = unserved 404

  -- The routes that `create_app` declares.
  unfoldable pub bound_to : Message J → Bound
  unfolding bound_path
  bound_to message =
      if message.method == "POST"
      then bound_path message.path true message.body
      else if message.method == "GET"
      then bound_path message.path false message.body
      else unserved 405

  module _ (rejected : Message J → String) {S : Type 0} (runner : Runner S) where
    unfoldable pub respond : Message J → Bound → S → Response J × S
    unfolding answer_as
    respond message reads_readiness s =
        let (up, s') = runner.ready s in
        (
          answer_as 200 codecs.readiness (
              if up
              then returned ready
              else raised (unavailable "the triage store is unreachable")),
          s',
        )
    respond message (creates_run request) s =
        let (outcome, s') = runner.run request s in (answer_as 201 codecs.results outcome, s')
    respond message outside s = (
      written (record {
        status_code = 422;
        error = record { code = BoundaryCode.invalid_payload; detail = rejected message };
      }),
      s,
    )
    respond message (unserved status) s = (written (before_a_route status (rejected message)), s)

    -- A message through `create_app`.
    unfoldable pub serve : Message J → S → Response J × S
    unfolding bound_to respond
    serve message = respond message (bound_to message)

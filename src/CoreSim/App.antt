-- ===== src/CoreSim/App.antt =====
-- src/claim_triage/core_sim/app.py: the surface of the surrounding systems. Binding a message to a
-- route is the framework's, in what the routes declare; `read_uuid` reads an identifier, `rejected`
-- words what a request outside the contract is rejected for and `worded` an exception.
pub mod Reading
pub mod Asking
pub mod Crossing
mod Tests
use Prim.Native.Char.{code}
use Prim.Native.String.{count}
use claim_triage_agent.Common.{
  ℕ, Bool, true, false, String, Option, none, some, List, [], ◌∷◌, leb, ◌&&◌, ◌||◌, ◌==◌, nat_eq,
  string_equality, if◌then◌else◌,
}
use claim_triage_agent.Boundary.{error_value, code_of, boundary_value}
use claim_triage_agent.Contract.{
  Uuid, ErrorCode, ready, Readiness, Policy, Claim, ClaimStatusUpdate, ClaimParty,
}
use claim_triage_agent.Contract.Client.{Codecs}
use claim_triage_agent.CoreSim.Store.{
  CoreError, claim_not_found, policy_not_found, idempotency_key_reuse, invalid_record, Request,
  create_claim, record_claim_status, attach_claim_document, record_claim_party, Drawn, write, read,
  read_policy, read_parties, ready as store_ready,
}
use claim_triage_agent.CoreSim.Tables.{Tables, Answer, claim, document, party}
use claim_triage_agent.Database.{Session, Store, Result, ok, err, own, db}
use claim_triage_agent.Wire.{Codec, Message, Body, json, other, Response}

-- What a message is bound to: the call of a route, a request outside the contract, or a path or a
-- method that no route serves, with the framework's status.
pub data Bound : Type 0 where
  reads_readiness : Bound
  reads_policy : String → Bound
  reads_claim : Uuid → Bound
  reads_parties : Uuid → Bound
  writes : Request → String → Bound
  outside : Bound
  unserved : ℕ → Bound

-- `PolicyNumber` and `IdempotencyKey`: a text of at least one character and at most so many.
abbrev pub bounded : ℕ → String → Bool
bounded most text = leb 1 (count text) && leb (count text) most

-- A slash that a segment quotes is decoded before a route is looked for.
unfoldable pub has_slash : String → Bool
has_slash String.[] = false
has_slash (String.◌∷◌ c text) = let rest = has_slash text in nat_eq (code c) 47 || rest

abbrev with_uuid : Option Uuid → (Uuid → Bound) → Bound
with_uuid none call = outside
with_uuid (some claim_id) call = call claim_id

module _ {J : Type 0} (codecs : Codecs J) (read_uuid : String → Option Uuid) where
  -- A route that writes: its key is bounded, and its body has the model.
  unfoldable pub with_body :
      {A : Type 0} → Codec J A → Option String → Option J → (A → Request) → Bound
  with_body codec (some key) (some content) request =
      if bounded 128 key
      then elim (codec.validate content) [ none ↦ outside | some a ↦ writes (request a) key ]
      else outside
  with_body codec _ _ request = outside

  unfoldable pub bound_get : List String → Bound
  unfolding has_slash
  bound_get (a ∷ []) =
      if a == "healthz"
      then reads_readiness
      else if a == "claims"
      then unserved 405
      else unserved 404
  bound_get (a ∷ b ∷ []) =
      if a == "policies"
      then (if has_slash b then unserved 404 else if bounded 64 b then reads_policy b else outside)
      else if a == "claims"
      then with_uuid (read_uuid b) reads_claim
      else unserved 404
  bound_get (a ∷ b ∷ c ∷ []) =
      if a == "claims" && c == "parties"
      then with_uuid (read_uuid b) reads_parties
      else if a == "claims" && (c == "status" || c == "documents")
      then unserved 405
      else unserved 404
  bound_get _ = unserved 404

  unfoldable pub bound_post : List String → Option String → Option J → Bound
  unfolding with_body
  bound_post (a ∷ []) key body =
      if a == "claims"
      then with_body codecs.submissions key body create_claim
      else if a == "healthz"
      then unserved 405
      else unserved 404
  bound_post (a ∷ b ∷ []) key body =
      if a == "policies" || a == "claims" then unserved 405 else unserved 404
  bound_post (a ∷ b ∷ c ∷ []) key body =
      if a == "claims" && c == "status"
      then with_uuid (read_uuid b)
          (λ id. with_body codecs.updates key body (λ u. record_claim_status id u.status))
      else if a == "claims" && c == "documents"
      then with_uuid (read_uuid b)
          (λ id. with_body codecs.attachments key body (attach_claim_document id))
      else if a == "claims" && c == "parties"
      then with_uuid (read_uuid b)
          (λ id. with_body codecs.registrations key body (record_claim_party id))
      else unserved 404
  bound_post _ key body = unserved 404

  -- The routes that `create_app` declares.
  unfoldable pub bound_to : Message J → Bound
  unfolding bound_get bound_post
  bound_to message =
      if message.method == "GET"
      then bound_get message.path
      else if message.method == "POST"
      then bound_post message.path message.idempotency_key message.body
      else unserved 405

module _ {J : Type 0} (codecs : Codecs J) where
  -- The framework's answer to an exception that no handler takes; like its answers to a request that
  -- no route serves, its body is not the contract's error.
  abbrev pub crashed : Response J
  crashed = record { status_code = 500; body = other }

  -- `boundary.refusal`
  unfoldable pub refusal : ℕ → ErrorCode → String → Response J
  unfolding code_of
  refusal status code detail = elim (code_of (error_value code)) [
    | none ↦ crashed
    | some ours ↦ record {
      status_code = status;
      body = json (codecs.errors.dump (boundary_value ours, detail));
    }
  ]

  -- The exception handlers that answer what the store raises.
  unfoldable pub handled_error : (CoreError → String) → CoreError → Response J
  unfolding refusal
  handled_error worded (claim_not_found id) =
      refusal 404 ErrorCode.claim_not_found (worded (claim_not_found id))
  handled_error worded (policy_not_found number) =
      refusal 404 ErrorCode.policy_not_found (worded (policy_not_found number))
  handled_error worded (idempotency_key_reuse key) =
      refusal 409 ErrorCode.idempotency_key_reuse (worded (idempotency_key_reuse key))
  handled_error worded invalid_record = crashed

  -- What a route answers with.
  unfoldable pub answer_as :
      {A : Type 0} → (CoreError → String) → ℕ → (A → J) → Result CoreError A → Response J
  unfolding handled_error
  answer_as worded status dump (ok a) = record { status_code = status; body = json (dump a) }
  answer_as worded status dump (err (own e)) = handled_error worded e
  answer_as worded status dump (err (db e)) = crashed

  abbrev pub dump_answer : Answer → J
  dump_answer (claim c) = codecs.claims.dump c
  dump_answer (document d) = codecs.documents.dump d
  dump_answer (party p) = codecs.parties.dump p

  abbrev pub write_status : Request → ℕ
  write_status (record_claim_status _ _) = 200
  write_status _ = 201

  module _ (read_uuid : String → Option Uuid) (rejected : Message J → String)
      (worded : CoreError → String) (dumps : Request → String) (sha256 : String → String) where
    -- The call of a route, and its answer.
    unfoldable pub respond :
        Message J → Bound → Drawn → Session Tables → Store Tables → Response J × Store Tables
    unfolding answer_as refusal
    respond message reads_readiness drawn w s =
        let (up, s') = store_ready w s in
        (
          (if up
              then record { status_code = 200; body = json (codecs.readiness.dump ready) }
              else refusal 503 ErrorCode.service_unavailable
                  "the claims the systems hold are unreachable"),
          s',
        )
    respond message (reads_policy number) drawn w s =
        let (r, s') = read_policy number w s in (answer_as worded 200 codecs.policies.dump r, s')
    respond message (reads_claim claim_id) drawn w s =
        let (r, s') = read claim_id w s in (answer_as worded 200 codecs.claims.dump r, s')
    respond message (reads_parties claim_id) drawn w s =
        let (r, s') = read_parties claim_id w s in
        (answer_as worded 200 codecs.party_lists.dump r, s')
    respond message (writes request key) drawn w s =
        let (r, s') = write dumps sha256 request key drawn w s in
        (answer_as worded (write_status request) dump_answer r, s')
    respond message outside drawn w s =
        (refusal 422 ErrorCode.invalid_payload (rejected message), s)
    respond message (unserved status) drawn w s = (record { status_code = status; body = other }, s)

    -- A message through `create_app`.
    unfoldable pub serve :
        Message J → Drawn → Session Tables → Store Tables → Response J × Store Tables
    unfolding bound_to respond
    serve message = respond message (bound_to codecs read_uuid message)

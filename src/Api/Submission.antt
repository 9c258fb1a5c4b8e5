-- ===== src/Api/Submission.antt =====
-- src/claim_triage/api/surface.py: what reaches the triager, and what is answered without it.
use claim_triage_agent.Common.{
  ◌≡◌, refl, ◌⊎◌, inl, inr, true, false, String, none, some, arith, All, Option-cases, nat_equality,
  string_equality,
}
use claim_triage_agent.Boundary.{before_a_route}
use claim_triage_agent.Contract.{Uuid}
use claim_triage_agent.Floats.{Floats}
use claim_triage_agent.Guards.Ingress.{
  IngressLimits, Decoders, Decoded, decoded, unreadable, screen, first_refusal,
}
use claim_triage_agent.Guards.Ingress.Admission.{IsAdmissible, admitted_iff}
use claim_triage_agent.Guards.RateLimit.{RateLimit, Readings, take_for}
use claim_triage_agent.Guards.Verdict.{Detail}
use claim_triage_agent.Triage.Run.{IntakeRequest, RunRequest}
use claim_triage_agent.Api.Middleware.{
  is_submission, is_refusal, Decoded-cases, refused_by-is_refusal, LetsPass, is_within,
  middleware_cases,
}
use claim_triage_agent.Api.{
  Digits, Parts, Form, form, unparsable, unbound, Request, Runs, Entry, Reply, answered, failed,
  caller_of, uploads, relayed_outcome, declared_length, rejected_claim, middleware, admit,
  submit_claim, submitted, serve,
}

module _ {F : Type 0} (floats : Floats F) (limit : RateLimit F) (limits : IngressLimits F)
    (digits : String → Digits) (worded : Detail → String) where
  module _ (decoders : Decoders) (parse : String → Decoded IntakeRequest) {S : Type 0}
      (runs : Runs S) where
    -- The run request of a submission that is let in.
    abbrev pub run_request : Parts → Uuid → IntakeRequest → RunRequest
    run_request parts run_id intake = record {
      intake = intake;
      run_id = run_id;
      guard_verdicts = screen floats decoders (uploads parts.documents limits) limits;
    }

    -- How a submission ends: the triager is asked once, for the claim that the part holds and with
    -- the verdicts of documents that are all admissible, and its answer is relayed; or the triager is
    -- not asked, and the caller is refused.
    abbrev pub SubmissionEnds : Parts → Uuid → S → Reply × S → Type 0
    SubmissionEnds parts run_id s (reply, s') =
        ((intake : IntakeRequest) × (parse parts.claim ≡ decoded intake)
          × All (IsAdmissible floats decoders limits) (uploads parts.documents limits)
          × (reply ≡ relayed_outcome (runs.submit (run_request parts run_id intake) s).0)
          × (s' ≡ (runs.submit (run_request parts run_id intake) s).1))
        ⊎ (is_refusal reply ≡ true) × (s' ≡ s)

    submit_parsed :
        (parts : Parts) (run_id : Uuid) (s : S) (intake : IntakeRequest)
        → parse parts.claim ≡ decoded intake
        → submit_claim floats limit limits digits worded decoders parse runs parts run_id s
          ≡ admit floats limit limits digits worded decoders parse runs intake run_id
              (run_request parts run_id intake).guard_verdicts
              s
    unfolding submit_claim
    submit_parsed parts run_id s intake parsed = ground (arith, parsed)

    submit_unparsed :
        (parts : Parts) (run_id : Uuid) (s : S) (why : String)
        → parse parts.claim ≡ unreadable why
        → submit_claim floats limit limits digits worded decoders parse runs parts run_id s
          ≡ (answered (rejected_claim why) none, s)
    unfolding submit_claim
    submit_unparsed parts run_id s why unparsed = ground (arith, unparsed)

    admit-ends :
        (parts : Parts) (run_id : Uuid) (s : S) (intake : IntakeRequest)
        → parse parts.claim ≡ decoded intake
        → SubmissionEnds parts run_id s (
            admit floats limit limits digits worded decoders parse runs intake run_id
              (run_request parts run_id intake).guard_verdicts
              s)
    unfolding admit
    admit-ends parts run_id s intake parsed =
        let us = uploads parts.documents limits in
        let verdicts = screen floats decoders us limits in
        elim (Option-cases (first_refusal verdicts)) [
          | inl let_in ↦ inl (
            intake,
            parsed,
            (admitted_iff floats decoders us limits).0 let_in,
            ground (arith, let_in),
            ground (arith, let_in),
          )
          | inr (found, held) ↦ inr (
            ground (arith, held, refused_by-is_refusal worded (some found.0) found.1 none),
            ground (arith, held),
          )
        ]

    submit_claim-ends :
        (parts : Parts) (run_id : Uuid) (s : S)
        → SubmissionEnds parts run_id s
            (submit_claim floats limit limits digits worded decoders parse runs parts run_id s)
    submit_claim-ends parts run_id s = elim (Decoded-cases (parse parts.claim)) [
      | inl (intake, parsed) ↦
          rw (submit_parsed parts run_id s intake parsed) (admit-ends parts run_id s intake parsed)
      | inr (why, unparsed) ↦ rw (submit_unparsed parts run_id s why unparsed) (inr (refl, refl))
    ]

    serve_passed :
        (request : Request) (at : Readings F) (run_id : Uuid) (e : Entry F S)
        → is_submission request ≡ true
        → (middleware floats limit limits digits worded request at e.submitters).0 ≡ none
        → ((serve floats limit limits digits worded decoders parse runs request at run_id e).0
            ≡ (submitted floats limit limits digits worded decoders parse runs request.body run_id
                e.runs).0)
          × ((serve floats limit limits digits worded decoders parse runs request at run_id
                e).1.runs
              ≡ (submitted floats limit limits digits worded decoders parse runs request.body run_id
                  e.runs).1)
    unfolding serve
    serve_passed request at run_id e here passes =
        (ground (arith, here, passes), ground (arith, here, passes))

    serve_stopped :
        (request : Request) (at : Readings F) (run_id : Uuid) (e : Entry F S) (reply : Reply)
        → (middleware floats limit limits digits worded request at e.submitters).0 ≡ some reply
        → ((serve floats limit limits digits worded decoders parse runs request at run_id e).0
            ≡ reply)
          × ((serve floats limit limits digits worded decoders parse runs request at run_id
                e).1.runs
              ≡ e.runs)
    unfolding serve
    serve_stopped request at run_id e reply stops = (ground (arith, stops), ground (arith, stops))

    -- How a submission ends that the middleware lets pass: as the route ends it; or, where the body does
    -- not parse or its parts are not those of the route, refused with 400 or 422, the triager not asked.
    abbrev pub BodyEnds : Form → Uuid → S → Reply × S → Type 0
    BodyEnds body run_id s (reply, s') =
        ((parts : Parts) × (body ≡ form parts) × SubmissionEnds parts run_id s (reply, s'))
        ⊎ ((why : String) × (body ≡ unparsable why)
            × (reply ≡ answered (before_a_route 400 why) none)
            × (s' ≡ s))
        ⊎ ((why : String) × (body ≡ unbound why)
            × (reply ≡ answered (rejected_claim why) none)
            × (s' ≡ s))

    submitted-ends :
        (body : Form) (run_id : Uuid) (s : S)
        → BodyEnds body run_id s
            (submitted floats limit limits digits worded decoders parse runs body run_id s)
    unfolding submitted
    submitted-ends (form parts) run_id s = inl (parts, refl, submit_claim-ends parts run_id s)
    submitted-ends (unparsable why) run_id s = inr (inl (why, refl, refl, refl))
    submitted-ends (unbound why) run_id s = inr (inr (why, refl, refl, refl))

    -- A submission reaches the triager only with a token, a declared length within the ceiling, a body
    -- that parses into its parts, a claim that parses and documents that are all admissible; it then
    -- carries their verdicts, and the triager's answer is relayed. Any other is not handed on: a body
    -- that does not parse is answered 400 once it is let pass, a declared length of digits that are no
    -- number is a defect, and the rest is refused with 413, 415, 422 or 429.
    pub serve_ends :
        (request : Request) (at : Readings F) (run_id : Uuid) (e : Entry F S)
        → is_submission request ≡ true
        → let (reply, after) =
            serve floats limit limits digits worded decoders parse runs request at run_id e in
          LetsPass floats limit limits digits worded request at e.submitters
            × BodyEnds request.body run_id e.runs (reply, after.runs)
          ⊎ ((declared_length digits request.content_length ≡ none)
              × (reply ≡ failed)
              × (after.runs ≡ e.runs))
          ⊎ ((is_refusal reply ≡ true) × (after.runs ≡ e.runs))
    serve_ends request at run_id e here =
        elim (middleware_cases floats limit limits digits worded request at e.submitters here) [
          | inl (passes, lets) ↦
              let (reply_eq, runs_eq) = serve_passed request at run_id e here passes in
              inl (lets, rw (reply_eq, runs_eq) (submitted-ends request.body run_id e.runs))
          | inr (inl (stops, raises)) ↦
              let (reply_eq, runs_eq) = serve_stopped request at run_id e failed stops in
              inr (inl (raises, reply_eq, runs_eq))
          | inr (inr (reply, stops, is_refused)) ↦
              let (reply_eq, runs_eq) = serve_stopped request at run_id e reply stops in
              inr (inr (rw (reply_eq) is_refused, runs_eq))
        ]

    -- A submission whose caller has a token and that declares a length within the ceiling, whose body, claim
    -- parses and whose documents are all admissible is handed to the triager, with the verdicts of the
    -- documents, and answered with what the triager answers.
    pub serve_asks :
        (request : Request) (at : Readings F) (run_id : Uuid) (e : Entry F S) (parts : Parts)
        (intake : IntakeRequest)
        → is_submission request ≡ true
        → LetsPass floats limit limits digits worded request at e.submitters
        → request.body ≡ form parts
        → parse parts.claim ≡ decoded intake
        → All (IsAdmissible floats decoders limits) (uploads parts.documents limits)
        → serve floats limit limits digits worded decoders parse runs request at run_id e ≡ (
          relayed_outcome (runs.submit (run_request parts run_id intake) e.runs).0,
          record {
            submitters = (take_for floats limit (caller_of request.client) at e.submitters).1;
            runs = (runs.submit (run_request parts run_id intake) e.runs).1;
          },
        )
    unfolding serve middleware submitted submit_claim admit
    serve_asks request at run_id e parts intake here lets body parsed admissible = ground (
      arith,
      here,
      lets,
      body,
      parsed,
      Option-cases (declared_length digits request.content_length),
      (admitted_iff floats decoders (uploads parts.documents limits) limits).1 admissible,
    )

    -- A submission of a caller without a token, or of a declared length past the ceiling, is answered
    -- the same whatever its body holds.
    pub body_unread :
        (request : Request) (body : Form) (at : Readings F) (run_id : Uuid) (e : Entry F S)
        → is_submission request ≡ true
        → ((take_for floats limit (caller_of request.client) at e.submitters).0.verdict.passed
            ≡ false)
          ⊎ (is_within floats limit limits digits worded
                (declared_length digits request.content_length)
              ≡ false)
        → serve floats limit limits digits worded decoders parse runs
            (record request { body = body })
            at
            run_id
            e
          ≡ serve floats limit limits digits worded decoders parse runs request at run_id e
    unfolding serve middleware
    body_unread request body at run_id e here refused =
        ground (arith, here, refused, Option-cases (declared_length digits request.content_length))

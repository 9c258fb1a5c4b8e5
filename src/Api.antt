-- ===== src/Api.antt =====
-- src/claim_triage/api/surface.py: the entry point, from a request to its answer. Parsing the claim's
-- JSON, the parts of a body, reading digits and the wording of a verdict are parameters; the triager behind it
-- is an interface over a state of its own.
pub mod Middleware
pub mod Submission
pub mod Relay
mod Tests
use Prim.Native.String.{◌++◌ as str_append}
use claim_triage_agent.Common.{
  ℕ, Bool, true, false, String, Option, none, some, List, [], ◌∷◌, ◌&&◌, max, ◌==◌, string_equality,
  if◌then◌else◌,
}
use claim_triage_agent.Boundary.{
  BoundaryCode, BoundaryError, Failure, Response, handled, before_a_route,
}
use claim_triage_agent.Contract.{Uuid}
use claim_triage_agent.Floats.{Floats}
use claim_triage_agent.Guards.Ingress.{
  Upload, IngressLimits, Decoders, Decoded, decoded, unreadable, read_bounded, declared_size,
  screen, first_refusal,
}
use claim_triage_agent.Guards.RateLimit.{RateLimit, Admission, Limiters, Readings, take_for}
use claim_triage_agent.Guards.Verdict.{Check, Detail, Verdict, DocumentVerdicts}
use claim_triage_agent.Triage.Pipeline.{Outcome, returned, raised}
use claim_triage_agent.Triage.Run.{IntakeRequest, RunRequest, RunResult}

abbrev pub claims_path : String
claims_path = "/claims"

abbrev pub caller_unknown : String
caller_unknown = "unknown"

-- A file part of the submission.
pub record UploadFile : Type 0 where
  pub filename : Option String
  pub content_type : Option String
  pub file : List ℕ

-- The parts of a submission.
pub record Parts : Type 0 where
  pub claim : String
  pub documents : List UploadFile

-- What the framework reads a body as, which is not code of this repository: the parts; no multipart
-- body, with the detail of its HTTPException; or parts that the route does not take, with the locations
-- of its RequestValidationError.
pub data Form : Type 0 where
  form : Parts → Form
  unparsable unbound : String → Form

pub record Request : Type 0 where
  pub method : String
  pub path : String
  pub client : Option String
  pub content_length : Option String
  pub body : Form

-- `RunClient.submit`
pub record Runs (S : Type 0) : Type 0 where
  pub submit : RunRequest → S → Outcome RunResult × S

pub record Entry (F S : Type 0) : Type 0 where
  pub submitters : Limiters F
  pub runs : S

-- What a request is answered with: a run with 201, an error with its status and `Retry-After`, the
-- framework's 500, or what a route other than this one answers.
pub data Reply : Type 0 where
  created : RunResult → Reply
  answered : Response → Option ℕ → Reply
  failed elsewhere : Reply

-- `Check.value`
abbrev pub check_value : Check → String
check_value Check.rate_limit = "rate_limit"
check_value Check.size = "size"
check_value Check.media_type = "media_type"
check_value Check.structure = "structure"
check_value Check.encryption = "encryption"
check_value Check.archive = "archive"
check_value Check.page_count = "page_count"

-- REFUSALS
unfoldable pub refusals : Check → ℕ × BoundaryCode
refusals Check.size = (413, BoundaryCode.payload_too_large)
refusals Check.media_type = (415, BoundaryCode.unsupported_media_type)
refusals Check.structure = (422, BoundaryCode.document_refused)
refusals Check.encryption = (422, BoundaryCode.document_refused)
refusals Check.archive = (422, BoundaryCode.document_refused)
refusals Check.page_count = (422, BoundaryCode.document_refused)
refusals Check.rate_limit = (429, BoundaryCode.rate_limited)

-- `_caller`
unfoldable pub caller_of : Option String → String
caller_of none = caller_unknown
caller_of (some host) = host

-- `a or b` of a text that may be absent
abbrev pub text_or : Option String → String → String
text_or none other = other
text_or (some text) other = if text == "" then other else text

-- `_upload`
unfoldable pub upload : {F : Type 0} → UploadFile → IngressLimits F → Upload
upload document limits = record {
  filename = text_or document.filename "unnamed";
  media_type = text_or document.content_type "";
  content = read_bounded document.file limits.max_bytes;
}

unfoldable pub uploads : {F : Type 0} → List UploadFile → IngressLimits F → List Upload
unfolding upload
uploads [] limits = []
uploads (d ∷ ds) limits = upload d limits ∷ uploads ds limits

-- The answer to what `submit` comes to, by the handlers of `boundary.install`.
unfoldable pub relayed_outcome : Outcome RunResult → Reply
relayed_outcome (returned run) = created run
relayed_outcome (raised failure) = elim (handled failure) [
  | none ↦ failed
  | some response ↦ answered response none
]

-- `_refused`
unfoldable pub refused_by : (Detail → String) → Option String → Verdict → Response
unfolding refusals
refused_by worded filename verdict = record {
  status_code = (refusals verdict.check).0;
  error = record {
    code = (refusals verdict.check).1;
    detail =
        str_append (elim filename [ none ↦ "" | some name ↦ str_append name ": " ])
          (str_append (check_value verdict.check) (str_append ": " (worded verdict.detail)));
  };
}

-- How Python reads a text of digits: `isdigit` refuses it; or `int` makes a number of it, or raises, as
-- of a superscript.
pub data Digits : Type 0 where
  no_digits : Digits
  int_of : Option ℕ → Digits

-- `_declared_length`: none where `int` raises, which nothing catches.
unfoldable pub declared_length : (String → Digits) → Option String → Option (Option ℕ)
declared_length digits none = some none
declared_length digits (some declared) = elim (digits declared) [
  | no_digits ↦ some none
  | int_of none ↦ none
  | int_of (some n) ↦ some (some n)
]

abbrev pub rejected_claim : String → Response
rejected_claim why = record {
  status_code = 422;
  error = record { code = BoundaryCode.invalid_payload; detail = why };
}

module _ {F : Type 0} (floats : Floats F) (limit : RateLimit F) (limits : IngressLimits F)
    (digits : String → Digits) (worded : Detail → String) where
  -- The answer of `screen_submissions`; `none` is `call_next`.
  unfoldable pub middleware : Request → Readings F → Limiters F → Option Reply × Limiters F
  unfolding caller_of declared_length refused_by
  middleware request at submitters =
      let (admission, submitters') =
        take_for floats limit (caller_of request.client) at submitters in
      if request.method == "POST" && request.path == claims_path
      then (
        (if admission.verdict.passed
            then elim (declared_length digits request.content_length) [
              | none ↦ some failed
              | some length ↦
                  if (declared_size floats length limits).passed
                  then none
                  else some
                      (answered (refused_by worded none (declared_size floats length limits)) none)
            ]
            else some (
                answered (refused_by worded none admission.verdict)
                  (some (max (floats.ceiling admission.wait_seconds) 1)))),
        submitters',
      )
      else (none, submitters)

  module _ (decoders : Decoders) (parse : String → Decoded IntakeRequest) {S : Type 0}
      (runs : Runs S) where
    -- The route once the claim is parsed.
    unfoldable pub admit : IntakeRequest → Uuid → List DocumentVerdicts → S → Reply × S
    unfolding refused_by relayed_outcome
    admit intake run_id verdicts s = elim (first_refusal verdicts) [
      | some (filename, verdict) ↦ (answered (refused_by worded (some filename) verdict) none, s)
      | none ↦
          let (outcome, s') =
            runs.submit (record { intake = intake; run_id = run_id; guard_verdicts = verdicts })
              s in
          (relayed_outcome outcome, s')
    ]

    -- `submit_claim`
    unfoldable pub submit_claim : Parts → Uuid → S → Reply × S
    unfolding uploads admit
    submit_claim parts run_id s = elim (parse parts.claim) [
      | unreadable why ↦ (answered (rejected_claim why) none, s)
      | decoded intake ↦
          admit intake run_id (screen floats decoders (uploads parts.documents limits) limits) s
    ]

    -- The body of a submission, read by the framework, on to the route or to its handlers.
    unfoldable pub submitted : Form → Uuid → S → Reply × S
    unfolding submit_claim before_a_route
    submitted (form parts) run_id s = submit_claim parts run_id s
    submitted (unparsable why) run_id s = (answered (before_a_route 400 why) none, s)
    submitted (unbound why) run_id s = (answered (rejected_claim why) none, s)

    -- A request through the middleware to the route of submissions.
    unfoldable pub serve : Request → Readings F → Uuid → Entry F S → Reply × Entry F S
    unfolding middleware submitted
    serve request at run_id e =
        let (screened, submitters') = middleware request at e.submitters in
        let e' : Entry F S = record { submitters = submitters'; runs = e.runs } in
        elim screened [
          | some reply ↦ (reply, e')
          | none ↦
              let (reply, runs') = submitted request.body run_id e.runs in
              if request.method == "POST" && request.path == claims_path
              then (reply, record { submitters = submitters'; runs = runs' })
              else (elsewhere, e')
        ]

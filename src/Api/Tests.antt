-- ===== src/Api/Tests.antt =====
-- The entry point at concrete requests.
use claim_triage_agent.Common.{
  total, ℕ, ◌≡◌, ◌⊎◌, refl, ◌+◌, ◌-◌, ◌*◌, ◌/◌, true, false, String, none, some, [], ◌∷◌, ltb, leb,
  nat_eq, All,
}
use claim_triage_agent.Api.{
  Digits, int_of, Parts, form, unparsable, Request, Reply, answered, failed, Runs, Entry, serve,
  uploads, relayed_outcome, caller_of, declared_length,
}
use claim_triage_agent.Api.Middleware.{is_refusal, LetsPass}
use claim_triage_agent.Api.Submission.{BodyEnds, run_request, serve_ends, serve_asks}
use claim_triage_agent.Boundary.{BoundaryCode}
use claim_triage_agent.Contract.{triaged}
use claim_triage_agent.Floats.{Floats}
use claim_triage_agent.Guards.Ingress.{
  Decoders, Decoded, IngressLimits, decoded, unreadable, declared_size,
}
use claim_triage_agent.Guards.Ingress.{
  screen, first_refusal, size_step, read_bounded, media_type_step, pdf_step,
}
use claim_triage_agent.Guards.Ingress.Admission.{IsAdmissible, admitted_iff}
use claim_triage_agent.Guards.RateLimit.{RateLimit, Readings, take_for}
use claim_triage_agent.Guards.Verdict.{Detail}
use claim_triage_agent.Triage.Pipeline.{returned}
use claim_triage_agent.Triage.Run.{IntakeRequest}

abbrev wholes : Floats ℕ
wholes = record {
  of = λ n. n;
  div = λ a b. a / b;
  lt = ltb;
  le = leb;
  same = nat_eq;
  add = λ a b. a + b;
  sub = λ a b. a - b;
  mul = λ a b. a * b;
  quotient = λ a b. a / b;
  sum = total;
  round = λ a places. a;
  ceiling = λ a. a;
  whole = λ a. a;
  hundredths = λ a. a * 100;
}

abbrev one_a_second : RateLimit ℕ
one_a_second = record { burst = 1; refill_per_second = 1 }

abbrev limits : IngressLimits ℕ
limits = record {
  media_types = "application/pdf" ∷ [];
  max_submission_bytes = 100;
  max_bytes = 4;
  max_pages = 2;
  max_expansion_ratio = 100;
}

abbrev digits : String → Digits
digits text = int_of (some 40)

abbrev worded : Detail → String
worded detail = "found"

abbrev decoders : Decoders
decoders = record {
  open_pdf = λ bytes. decoded (record { is_encrypted = false; pages = decoded 2 });
  open_zip = λ bytes. unreadable "";
}

abbrev taken : IntakeRequest
taken = record {
  policy_number = "P-1";
  incident_date = 1;
  claim_amount_eur = 1200;
  experiment = "baseline";
  variant = "replay";
}

abbrev parse : String → Decoded IntakeRequest
parse text = decoded taken

-- A triager that counts the runs that it was asked for.
abbrev counting : Runs ℕ
counting = record {
  submit = λ request asked. (
    returned (record {
      run_id = request.run_id;
      claim_id = 8;
      status = triaged;
      experiment = request.experiment;
      variant = request.variant;
      trace_id = "";
    }),
    asked + 1,
  );
}

abbrev one_pdf_parts : Parts
one_pdf_parts = record {
  claim = "{}";
  documents =
      record {
        filename = some "a.pdf";
        content_type = some "application/pdf";
        file = 37 ∷ 80 ∷ 68 ∷ [];
      }
      ∷ [];
}

abbrev one_pdf : Request
one_pdf = record {
  method = "POST";
  path = "/claims";
  client = some "10.0.0.1";
  content_length = none;
  body = form one_pdf_parts;
}

abbrev at_start : Readings ℕ
at_start = record { made_at = 0; now = 0 }

abbrev fresh : Entry ℕ ℕ
fresh = record { submitters = record { keys = 2; buckets = [] }; runs = 0 }

-- The caller's one token is gone.
abbrev spent : Entry ℕ ℕ
spent = record {
  submitters = record {
    keys = 2;
    buckets = ("10.0.0.1", record { tokens = 0; filled_at = 0 }) ∷ [];
  };
  runs = 0;
}

one_pdf-LetsPass :
    LetsPass wholes one_a_second limits digits worded one_pdf at_start fresh.submitters
unfolding take_for declared_size declared_length
one_pdf-LetsPass = (refl, refl)

no_token :
    (take_for wholes one_a_second
      (caller_of one_pdf.client)
      at_start
      spent.submitters).0.verdict.passed
    ≡ false
unfolding take_for caller_of
no_token = refl

one_pdf-IsAdmissible :
    All (IsAdmissible wholes decoders limits) (uploads one_pdf_parts.documents limits)
unfolding uploads screen first_refusal size_step read_bounded media_type_step pdf_step
one_pdf-IsAdmissible =
    (admitted_iff wholes decoders (uploads one_pdf_parts.documents limits) limits).0 refl

abbrev one_pdf_served : Reply × Entry ℕ ℕ
one_pdf_served =
    serve wholes one_a_second limits digits worded decoders parse counting one_pdf at_start 5 fresh

serve_ends_example :
    LetsPass wholes one_a_second limits digits worded one_pdf at_start fresh.submitters
      × BodyEnds wholes one_a_second limits digits worded decoders parse counting
          (form one_pdf_parts)
          5
          fresh.runs
          (one_pdf_served.0, one_pdf_served.1.runs)
    ⊎ ((declared_length digits none ≡ none)
        × (one_pdf_served.0 ≡ failed)
        × (one_pdf_served.1.runs ≡ fresh.runs))
    ⊎ ((is_refusal one_pdf_served.0 ≡ true) × (one_pdf_served.1.runs ≡ fresh.runs))
serve_ends_example =
    serve_ends wholes one_a_second limits digits worded decoders parse counting one_pdf at_start 5
      fresh refl

-- A body that is no multipart body, and a declared length of a superscript.
not_multipart :
    (serve wholes one_a_second limits digits worded decoders parse counting
      (record one_pdf { body = unparsable "no boundary" })
      at_start
      5
      fresh).0
    ≡ answered
        (record {
          status_code = 400;
          error = record { code = BoundaryCode.invalid_payload; detail = "no boundary" };
        })
        none
unfolding serve take_for declared_size declared_length
not_multipart = refl

superscript :
    (serve wholes one_a_second limits
      (λ _. int_of none)
      worded
      decoders
      parse
      counting
      (record one_pdf { content_length = some "²" })
      at_start
      5
      fresh).0
    ≡ failed
unfolding serve take_for
superscript = refl

serve_asks_example :
    serve wholes one_a_second limits digits worded decoders parse counting one_pdf at_start 5 fresh
    ≡ (
      relayed_outcome
          (counting.submit
            (run_request wholes one_a_second limits digits worded decoders parse counting
              one_pdf_parts 5 taken)
            0).0,
      record {
        submitters =
            (take_for wholes one_a_second (caller_of one_pdf.client) at_start fresh.submitters).1;
        runs = 1;
      },
    )
serve_asks_example =
    serve_asks wholes one_a_second limits digits worded decoders parse counting one_pdf at_start 5
      fresh one_pdf_parts taken refl one_pdf-LetsPass refl refl one_pdf-IsAdmissible

-- ===== src/Wire/Samples.antt =====
-- Documents for the tests: one constructor for each model, so that every value reads back.
use claim_triage_agent.Common.{String, Option, none, some, List}
use claim_triage_agent.Contract.{
  Readiness, Policy, ClaimSubmission, Claim, ClaimStatusUpdate, ClaimDocumentSubmission,
  ClaimDocument, ClaimPartySubmission, ClaimParty,
}
use claim_triage_agent.Contract.Client.{Codecs}
use claim_triage_agent.Triage.Client.{RunCodecs}
use claim_triage_agent.Triage.Run.{RunRequest, RunResult}

pub data Sample : Type 0 where
  error : String × String → Sample
  readiness : Readiness → Sample
  policy : Policy → Sample
  submission : ClaimSubmission → Sample
  claim : Claim → Sample
  status_update : ClaimStatusUpdate → Sample
  attachment : ClaimDocumentSubmission → Sample
  document : ClaimDocument → Sample
  registration : ClaimPartySubmission → Sample
  party : ClaimParty → Sample
  parties : List ClaimParty → Sample
  run_request : RunRequest → Sample
  run_result : RunResult → Sample

abbrev as_error : Sample → Option (String × String)
as_error (error x) = some x
as_error _ = none

abbrev as_readiness : Sample → Option (Readiness)
as_readiness (readiness x) = some x
as_readiness _ = none

abbrev as_policy : Sample → Option (Policy)
as_policy (policy x) = some x
as_policy _ = none

abbrev as_submission : Sample → Option (ClaimSubmission)
as_submission (submission x) = some x
as_submission _ = none

abbrev as_claim : Sample → Option (Claim)
as_claim (claim x) = some x
as_claim _ = none

abbrev as_status_update : Sample → Option (ClaimStatusUpdate)
as_status_update (status_update x) = some x
as_status_update _ = none

abbrev as_attachment : Sample → Option (ClaimDocumentSubmission)
as_attachment (attachment x) = some x
as_attachment _ = none

abbrev as_document : Sample → Option (ClaimDocument)
as_document (document x) = some x
as_document _ = none

abbrev as_registration : Sample → Option (ClaimPartySubmission)
as_registration (registration x) = some x
as_registration _ = none

abbrev as_party : Sample → Option (ClaimParty)
as_party (party x) = some x
as_party _ = none

abbrev as_parties : Sample → Option (List ClaimParty)
as_parties (parties x) = some x
as_parties _ = none

abbrev as_run_request : Sample → Option (RunRequest)
as_run_request (run_request x) = some x
as_run_request _ = none

abbrev as_run_result : Sample → Option (RunResult)
as_run_result (run_result x) = some x
as_run_result _ = none

abbrev pub samples : Codecs Sample
samples = record {
  errors = record { dump = error; validate = as_error };
  readiness = record { dump = readiness; validate = as_readiness };
  policies = record { dump = policy; validate = as_policy };
  submissions = record { dump = submission; validate = as_submission };
  claims = record { dump = claim; validate = as_claim };
  updates = record { dump = status_update; validate = as_status_update };
  attachments = record { dump = attachment; validate = as_attachment };
  documents = record { dump = document; validate = as_document };
  registrations = record { dump = registration; validate = as_registration };
  parties = record { dump = party; validate = as_party };
  party_lists = record { dump = parties; validate = as_parties };
}

abbrev pub run_samples : RunCodecs Sample
run_samples = record {
  errors = record { dump = error; validate = as_error };
  readiness = record { dump = readiness; validate = as_readiness };
  requests = record { dump = run_request; validate = as_run_request };
  results = record { dump = run_result; validate = as_run_result };
}

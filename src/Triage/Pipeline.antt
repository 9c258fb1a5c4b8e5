-- ===== src/Triage/Pipeline.antt =====
-- src/claim_triage/triage/pipeline.py: one run, from the claim that is taken in to the status that
-- is emitted. The surrounding systems are an interface over a state of theirs, `invoke` runs the
-- graph and reads the text of the status it ends with, and `show` writes an identifier.
pub mod Evidence
pub mod Order
pub mod History
use Prim.Native.String.{◌++◌ as str_append}
use claim_triage_agent.Common.{
  ℕ, Bool, true, false, String, Option, none, some, List, [], ◌∷◌, if◌then◌else◌, ◌==◌,
  string_equality,
}
use claim_triage_agent.Boundary.{Failure, unavailable, refused, defect, relayed}
use claim_triage_agent.Contract.{
  Uuid, Instant, Claim, ClaimStatus, ClaimSubmission, ErrorResponse, received, triaged,
}
use claim_triage_agent.Contract.Client.{Called, answered, refusal, unreachable, unexpected}
use claim_triage_agent.Database.{Store, Session, Work, Result, ok, err, Raised, db, own, ◌>>=◌}
use claim_triage_agent.Triage.Audit.{AuditEntry, AuditEntryContent, Recorded, agent, utc}
use claim_triage_agent.Triage.Graph.{TriageState, node_name}
use claim_triage_agent.Triage.Run.{RunRequest, RunResult, TriageRun}
use claim_triage_agent.Triage.Store
use claim_triage_agent.Triage.Store.{Tables, StoreError, record_run, append_entry, transaction}

-- `CoreSimClient`, as the pipeline uses it.
pub record Systems (S : Type 0) : Type 0 where
  pub create_claim : ClaimSubmission → String → S → Called Claim × S
  pub record_claim_status : Uuid → ClaimStatus → String → S → Called Claim × S

-- What one run meets: the session of its transaction, the two readings of the clock and the trace.
pub record Surroundings : Type 0 where
  pub session : Session Tables
  pub started_at : Instant
  pub completed_at : Instant
  pub trace_id : Option String

pub record World (S : Type 0) : Type 0 where
  pub systems : S
  pub store : Store Tables

pub data Outcome (A : Type 0) : Type 0 where
  returned : A → Outcome A
  raised : Failure → Outcome A

abbrev pub is_raised : {A : Type 0} → Outcome A → Bool
is_raised (returned _) = false
is_raised (raised _) = true

-- `submission`
unfoldable pub submission : RunRequest → ClaimSubmission
submission request = record {
  policy_number = request.policy_number;
  incident_date = request.incident_date;
  claim_amount_eur = request.claim_amount_eur;
}

-- `ClaimStatus(value)`: the member of that value, or `ValueError`.
abbrev pub status_of : String → Option ClaimStatus
status_of value =
    if value == "received" then some received else if value == "triaged" then some triaged else none

-- The entry of `_recorded`: the evidence for one run.
unfoldable pub evidence : TriageRun → AuditEntryContent
evidence run = record {
  claim_id = run.claim_id;
  run_id = run.run_id;
  node = node_name;
  actor = agent;
  status = run.status;
  guard_verdicts = run.guard_verdicts;
  experiment = run.experiment;
  variant = run.variant;
  trace_id = run.trace_id;
  recorded_at = utc run.completed_at;
}

abbrev pub or_empty : Option String → String
or_empty none = ""
or_empty (some text) = text

module _ (dumps : Recorded → String) (sha256 : String → String) where
  -- `_recorded`
  unfoldable pub recorded :
      TriageRun → Session Tables → Store Tables → Result StoreError AuditEntry × Store Tables
  unfolding evidence
  recorded run = transaction (record_run run >>= λ _. append_entry dumps sha256 (evidence run))

-- The `TriageRun` of a run, and the `RunResult` that it answers with.
unfoldable pub run_of : RunRequest → Surroundings → Uuid → ClaimStatus → TriageRun
run_of request around claim_id status = record {
  run_id = request.run_id;
  claim_id = claim_id;
  experiment = request.experiment;
  variant = request.variant;
  status = status;
  guard_verdicts = request.guard_verdicts;
  trace_id = or_empty around.trace_id;
  started_at = around.started_at;
  completed_at = around.completed_at;
}

unfoldable pub result_of : TriageRun → Claim → RunResult
result_of run told = record {
  run_id = run.run_id;
  claim_id = run.claim_id;
  status = told.status;
  experiment = run.experiment;
  variant = run.variant;
  trace_id = run.trace_id;
}

abbrev relayed_failure : ℕ → ErrorResponse → Failure
relayed_failure status error = elim (relayed error) [ none ↦ defect | some e ↦ refused status e ]

abbrev systems_unreachable : String → Failure
systems_unreachable why = unavailable (str_append "the surrounding systems are unreachable: " why)

-- Only `TriageStoreUnavailable` is translated.
abbrev pub store_failure : Raised StoreError → Failure
store_failure (own _) = unavailable "the triage store is unreachable"
store_failure (db _) = defect

module _ (invoke : TriageState → Option String) where
  -- `_decided`; `none` is the `ValueError` of a status that the contract does not name.
  unfoldable pub decided : RunRequest → Option ClaimStatus
  unfolding submission
  decided request = status_of (
      or_empty (
        invoke (record {
          claim = submission request;
          run_id = request.run_id;
          experiment = request.experiment;
          variant = request.variant;
          status = none;
        })))

module _ {S : Type 0} (systems : Systems S) (show : Uuid → String) where
  open systems use {create_claim, record_claim_status}

  -- `_taken_in`
  unfoldable pub taken_in : RunRequest → S → Called Claim × S
  unfolding submission
  taken_in request = create_claim (submission request) (str_append (show request.run_id) "/claim")

  -- `_emitted`
  unfoldable pub emitted : RunRequest → Uuid → ClaimStatus → S → Called Claim × S
  emitted request claim_id status =
      record_claim_status claim_id status (str_append (show request.run_id) "/status")

  -- The emission, once the run is recorded.
  unfoldable pub emit : RunRequest → TriageRun → World S → Outcome RunResult × World S
  unfolding emitted result_of
  emit request run w =
      let (call, systems') = emitted request run.claim_id run.status w.systems in
      let w' : World S = record w { systems = systems' } in
      elim call [
        | answered told ↦ (returned (result_of run told), w')
        | refusal status error ↦ (raised (relayed_failure status error), w')
        | unreachable why ↦ (raised (systems_unreachable why), w')
        | unexpected ↦ (raised defect, w')
      ]

module _ {S : Type 0} (dumps : Recorded → String) (sha256 : String → String) (systems : Systems S)
    (show : Uuid → String) where
  -- The record of the decision, and then its emission.
  unfoldable pub conclude :
      RunRequest → Surroundings → Uuid → ClaimStatus → World S → Outcome RunResult × World S
  unfolding run_of
  conclude request around claim_id status w =
      let run = run_of request around claim_id status in
      let (r, store') = recorded dumps sha256 run around.session w.store in
      let w' : World S = record w { store = store' } in
      elim r [ ok _ ↦ emit systems show request run w' | err e ↦ (raised (store_failure e), w') ]

module _ {S : Type 0} (dumps : Recorded → String) (sha256 : String → String) (systems : Systems S)
    (show : Uuid → String) (invoke : TriageState → Option String) where
  -- `TriagePipeline.run`
  unfoldable pub run : RunRequest → Surroundings → World S → Outcome RunResult × World S
  unfolding taken_in decided
  run request around w =
      let (call, systems') = taken_in systems show request w.systems in
      let w' : World S = record w { systems = systems' } in
      elim call [
        | refusal status error ↦ (raised (relayed_failure status error), w')
        | unreachable why ↦ (raised (systems_unreachable why), w')
        | unexpected ↦ (raised defect, w')
        | answered claim ↦ elim (decided invoke request) [
          | none ↦ (raised defect, w')
          | some status ↦ conclude dumps sha256 systems show request around claim.claim_id status w'
        ]
      ]

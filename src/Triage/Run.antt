-- ===== src/Triage/Run.antt =====
-- src/claim_triage/triage/run.py: one run, and what crosses its boundaries.
use claim_triage_agent.Common.{ℕ, String, List}
use claim_triage_agent.Contract.{Uuid, Instant, Date, ClaimStatus}
use claim_triage_agent.Guards.Verdict.{DocumentVerdicts}

abbrev pub default_experiment : String
default_experiment = "baseline"

abbrev pub default_variant : String
default_variant = "replay"

pub record IntakeRequest : Type 0 where
  pub policy_number : String
  pub incident_date : Date
  pub claim_amount_eur : ℕ
  pub experiment : String
  pub variant : String

pub record RunRequest : Type 0 where
  pub intake : IntakeRequest
  pub open intake use *
  pub run_id : Uuid
  pub guard_verdicts : List DocumentVerdicts

pub record RunResult : Type 0 where
  pub run_id : Uuid
  pub claim_id : Uuid
  pub status : ClaimStatus
  pub experiment : String
  pub variant : String
  pub trace_id : String

pub record TriageRun : Type 0 where
  pub run_id : Uuid
  pub claim_id : Uuid
  pub experiment : String
  pub variant : String
  pub status : ClaimStatus
  pub guard_verdicts : List DocumentVerdicts
  pub trace_id : String
  pub started_at : Instant
  pub completed_at : Instant

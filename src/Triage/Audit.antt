-- ===== src/Triage/Audit.antt =====
-- src/claim_triage/triage/audit.py: the audit log's hash chain. `dumps` is `json.dumps` with sorted
-- keys and `sha256` the hex digest of a text's bytes; neither is code of this repository.
pub mod Chain
pub mod Binding
use claim_triage_agent.Common.{
  ℕ, ◌+◌, Bool, true, false, String, Option, none, some, List, [], ◌∷◌, leb, not, ◌==◌,
  string_equality, if◌then◌else◌,
}
use claim_triage_agent.Contract.{Uuid, Instant, ClaimStatus}
use claim_triage_agent.Guards.Verdict.{DocumentVerdicts}

-- "0" * 64
abbrev pub genesis : String
genesis = "0000000000000000000000000000000000000000000000000000000000000000"

pub data Actor : Type 0 where
  agent system human : Actor

-- An aware `datetime`: the moment, and its offset from UTC as `isoformat` shows it.
pub record Timestamp : Type 0 where
  pub instant : Instant
  pub offset : String

-- `datetime.now(UTC)`
abbrev pub utc : Instant → Timestamp
utc instant = record { instant = instant; offset = "+00:00" }

pub record AuditEntryContent : Type 0 where
  pub claim_id : Uuid
  pub run_id : Uuid
  pub node : String
  pub actor : Actor
  pub status : ClaimStatus
  pub guard_verdicts : List DocumentVerdicts
  pub experiment : String
  pub variant : String
  pub trace_id : String
  pub recorded_at : Timestamp

pub record AuditEntry : Type 0 where
  pub content : AuditEntryContent
  pub open content use *
  pub seq : ℕ
  pub prev_hash : String
  pub hash : String

-- The dictionary that `_canonical` serialises: every field but the hash.
pub record Recorded : Type 0 where
  pub claim_id : Uuid
  pub run_id : Uuid
  pub node : String
  pub actor : Actor
  pub status : ClaimStatus
  pub guard_verdicts : List DocumentVerdicts
  pub experiment : String
  pub variant : String
  pub trace_id : String
  pub recorded_at : Timestamp
  pub seq : ℕ
  pub prev_hash : String

unfoldable pub recorded : AuditEntry → Recorded
recorded e = record {
  claim_id = e.claim_id;
  run_id = e.run_id;
  node = e.node;
  actor = e.actor;
  status = e.status;
  guard_verdicts = e.guard_verdicts;
  experiment = e.experiment;
  variant = e.variant;
  trace_id = e.trace_id;
  recorded_at = e.recorded_at;
  seq = e.seq;
  prev_hash = e.prev_hash;
}

-- Why a chain is broken at an entry, with the sequence numbers that the text names.
pub data Problem : Type 0 where
  predecessor_missing : ℕ → Problem
  does_not_follow : ℕ → ℕ → Problem
  missing_or_moved : ℕ → ℕ → Problem
  other_hash : ℕ → Problem

pub record ChainVerification : Type 0 where
  pub ok : Bool
  pub problem : Option Problem

broken : Problem → ChainVerification
broken p = record { ok = false; problem = some p }

abbrev pub continues : Option (ℕ × String) → ℕ × String
continues none = (1, genesis)
continues (some (seq, previous_hash)) = (seq + 1, previous_hash)

module _ (dumps : Recorded → String) (sha256 : String → String) where
  unfoldable pub digest : AuditEntry → String
  unfolding recorded
  digest e = sha256 (dumps (recorded e))

  unfoldable pub append : String → ℕ → AuditEntryContent → AuditEntry
  unfolding digest
  append prev_hash seq content =
      let entry : AuditEntry = record {
        content = content;
        seq = seq;
        prev_hash = prev_hash;
        hash = genesis;
      } in
      record entry { hash = digest entry }

  -- What the loop body answers for one entry, if it answers at all.
  unfoldable pub link_problem : Option AuditEntry → AuditEntry → Option Problem
  link_problem none entry =
      if not (entry.prev_hash == genesis) then some (predecessor_missing entry.seq) else none
  link_problem (some previous) entry =
      if leb entry.seq previous.seq
      then some (does_not_follow entry.seq previous.seq)
      else if not (entry.prev_hash == previous.hash)
      then some (missing_or_moved entry.seq previous.seq)
      else none

  verify_from : Option AuditEntry → List AuditEntry → ChainVerification
  unfolding link_problem digest broken
  verify_from previous [] = record { ok = true; problem = none }
  verify_from previous (entry ∷ entries) =
      let rest = verify_from (some entry) entries in
      elim (link_problem previous entry) [
        | some problem ↦ broken problem
        | none ↦ if not (digest entry == entry.hash) then broken (other_hash entry.seq) else rest
      ]

  unfoldable pub verify : List AuditEntry → ChainVerification
  unfolding verify_from
  verify entries = verify_from none entries

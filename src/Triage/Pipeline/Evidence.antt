-- ===== src/Triage/Pipeline/Evidence.antt =====
-- src/claim_triage/triage/pipeline.py: a decision is recorded with its evidence before it is emitted.
use mathlib.Core.List.{map-append}
use claim_triage_agent.Common.{◌≡◌, String, none, map}
use claim_triage_agent.Database.{Session, Store}
use claim_triage_agent.Database.Atomicity.{AllOrNothing}
use claim_triage_agent.Triage.Audit.{Recorded, append}
use claim_triage_agent.Triage.Audit.Chain.{IsChain, append-IsChain}
use claim_triage_agent.Triage.Run.{TriageRun}
use claim_triage_agent.Triage.Store.{Tables, schema}
use claim_triage_agent.Triage.Store.Order.{newest-latest}
use claim_triage_agent.Triage.Store.Commits.{next_entry, extended, transaction_atomic}
use claim_triage_agent.Triage.Pipeline.{evidence, recorded}

-- The audit log is a chain, and it holds the evidence of every run, in order, and nothing else.
pub record IsEvidenced (dumps : Recorded → String) (sha256 : String → String) (t : Tables)
    : Type 0 where
  pub chained : IsChain dumps sha256 none t.audit_log
  pub evidenced : map (λ e. e.content) t.audit_log ≡ map evidence t.runs

module _ (dumps : Recorded → String) (sha256 : String → String) where
  pub extended-IsEvidenced :
      (t : Tables) (r : TriageRun)
      → IsEvidenced dumps sha256 t
      → IsEvidenced dumps sha256 (extended dumps sha256 t r (evidence r))
  unfolding append
  extended-IsEvidenced t r h = record {
    chained =
        rw (newest-latest dumps sha256 t.audit_log h.chained)
          (append-IsChain dumps sha256 none t.audit_log (evidence r) h.chained);
    evidenced = simp (map-append, h.evidenced);
  }

  -- Whatever the tables hold and the database does, recording a run either raises and leaves both
  -- tables as they were, or adds the run and its entry, linked onto the newest of the log, to both; it
  -- returns only when both are there.
  pub recorded_atomic :
      (r : TriageRun) (w : Session Tables) (s : Store Tables)
      → AllOrNothing w s
          (next_entry dumps sha256 (schema s.tables).audit_log (evidence r))
          (extended dumps sha256 (schema s.tables) r (evidence r))
          (recorded dumps sha256 r w s)
  unfolding recorded
  recorded_atomic r w s = transaction_atomic dumps sha256 r (evidence r) w s

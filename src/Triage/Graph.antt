-- ===== src/Triage/Graph.antt =====
-- src/claim_triage/triage/graph.py: the state that one run carries and the one node. Running the
-- compiled graph is the graph library's, a parameter of the pipeline.
use claim_triage_agent.Common.{String, Option, some}
use claim_triage_agent.Contract.{Uuid, ClaimStatus, ClaimSubmission}

abbrev pub node_name : String
node_name = "noop"

pub record TriageState : Type 0 where
  pub claim : ClaimSubmission
  pub run_id : Uuid
  pub experiment : String
  pub variant : String
  pub status : Option ClaimStatus

unfoldable pub noop : TriageState → TriageState
noop state = record state { status = some ClaimStatus.triaged }

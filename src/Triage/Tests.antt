-- ===== src/Triage/Tests.antt =====
-- Runs of the triager at concrete inputs.
use Prim.Native.String.{◌++◌ as str_append}
use claim_triage_agent.Common.{
  ℕ, ◌+◌, ◌≡◌, refl, ◌⊎◌, ◌↔◌, true, false, String, Option, none, some, List, [], ◌∷◌, map,
}
use claim_triage_agent.Contract.{Uuid, Instant, Claim, ClaimStatus, received, triaged}
use claim_triage_agent.Database.{Session, committed, refused}
use claim_triage_agent.Database.Atomicity.{AllOrNothing}
use claim_triage_agent.Triage.Audit.{
  AuditEntry, AuditEntryContent, Recorded, agent, utc, append, verify, genesis,
}
use claim_triage_agent.Triage.Audit.Binding.{verify_binding, HashFailure}
use claim_triage_agent.Triage.Audit.Chain.{IsChain, verify_iff}
use claim_triage_agent.Triage.Graph.{TriageState}
use claim_triage_agent.Contract.Client.{answered}
use claim_triage_agent.Triage.Pipeline.{
  Systems, Surroundings, World, evidence, recorded, conclude, emit, run,
}
use claim_triage_agent.Triage.Pipeline.Evidence.{recorded_atomic}
use claim_triage_agent.Triage.Pipeline.History.{runs, runs_verify, tables_of}
use claim_triage_agent.Triage.Pipeline.Order.{RunEnds, run_order}
use claim_triage_agent.Triage.Run.{RunRequest, TriageRun}
use claim_triage_agent.Triage.Store.{Tables, schema, log_of, transaction, record_run, append_entry}
use claim_triage_agent.Triage.Store.Commits.{next_entry, extended}

-- Each entry's text is the hash before it with one letter more, and is its own digest.
abbrev dumps : Recorded → String
dumps r = str_append r.prev_hash "x"

abbrev sha256 : String → String
sha256 text = text

abbrev decision : AuditEntryContent
decision = record {
  claim_id = 7;
  run_id = 1;
  node = "noop";
  actor = agent;
  status = triaged;
  guard_verdicts = [];
  experiment = "baseline";
  variant = "replay";
  trace_id = "";
  recorded_at = utc 20;
}

abbrev first_entry : AuditEntry
first_entry = append dumps sha256 genesis 1 decision

abbrev second_entry : AuditEntry
second_entry = append dumps sha256 first_entry.hash 2 decision

abbrev log : List AuditEntry
log = first_entry ∷ second_entry ∷ []

log_verifies : (verify dumps sha256 log).ok ≡ true
unfolding verify append
log_verifies = refl

-- A log that lost its first entry is refused.
gap_found : (verify dumps sha256 (second_entry ∷ [])).ok ≡ false
unfolding verify append
gap_found = refl

verify_iff_example : ((verify dumps sha256 log).ok ≡ true) ↔ IsChain dumps sha256 none log
verify_iff_example = verify_iff dumps sha256 log

verify_binding_example : (log ≡ log) ⊎ HashFailure dumps sha256 log log
verify_binding_example = verify_binding dumps sha256 log log log_verifies log_verifies refl

-- Systems that take every claim in as claim 7, and count their calls.
abbrev claim_seven : ClaimStatus → Claim
claim_seven status = record {
  claim_id = 7;
  policy_number = "SIM-2026-0001";
  incident_date = 20500;
  claim_amount_eur = 184050;
  status = status;
  status_history = record { status = status; recorded_at = 1 } ∷ [];
}

abbrev counting : Systems ℕ
counting = record {
  create_claim = λ submission key calls. (answered (claim_seven received), calls + 1);
  record_claim_status = λ id status key calls. (answered (claim_seven status), calls + 1);
}

abbrev calm : Session Tables
calm = record { connects = true; answers = λ _. true; meanwhile = λ t. t; commit = committed }

abbrev refusing : Session Tables
refusing = record { connects = true; answers = λ _. true; meanwhile = λ t. t; commit = refused }

abbrev around : Session Tables → Surroundings
around session = record { session = session; started_at = 10; completed_at = 20; trace_id = none }

abbrev request : RunRequest
request = record {
  intake = record {
    policy_number = "SIM-2026-0001";
    incident_date = 20500;
    claim_amount_eur = 184050;
    experiment = "baseline";
    variant = "replay";
  };
  run_id = 1;
  guard_verdicts = [];
}

abbrev show : Uuid → String
show id = "run"

abbrev invoke : TriageState → Option String
invoke state = some "triaged"

abbrev empty_world : World ℕ
empty_world = record { systems = 0; store = record { tables = none; schema_applied = false } }

-- Both calls are made, and the run's entry is there.
run_tells :
    ((run dumps sha256 counting show invoke request (around calm) empty_world).1.systems ≡ 2)
    × (map
          (λ e. e.hash)
          (tables_of
            (run dumps sha256 counting show invoke request (around calm) empty_world).1).audit_log
        ≡ first_entry.hash ∷ [])
unfolding run conclude emit recorded transaction record_run append_entry append
run_tells = (refl, refl)

-- The commit is refused: the systems are not told.
run_silent :
    (run dumps sha256 counting show invoke request (around refusing) empty_world).1.systems ≡ 1
unfolding run conclude emit recorded transaction record_run append_entry append
run_silent = refl

run_order_example :
    RunEnds dumps sha256 counting show invoke request
      (around refusing)
      empty_world
      (run dumps sha256 counting show invoke request (around refusing) empty_world)
run_order_example =
    run_order dumps sha256 counting show invoke request (around refusing) empty_world

abbrev requests : List (RunRequest × Surroundings)
requests = (request, around refusing) ∷ (request, around calm) ∷ []

abbrev in_utc : Instant → String
in_utc _ = "+00:00"

abbrev after_requests : Tables
after_requests = tables_of (runs dumps sha256 counting show invoke requests empty_world)

runs_verify_example :
    ((verify dumps sha256 (log_of in_utc after_requests)).ok ≡ true)
    × (map (λ e. e.content) (log_of in_utc after_requests) ≡ map evidence after_requests.runs)
runs_verify_example =
    runs_verify dumps sha256 counting show invoke requests empty_world in_utc refl (λ i. refl)

-- A digest that covers the time: the same log, read back in another time zone, does not verify.
abbrev dated : Recorded → String
dated r = str_append r.prev_hash r.recorded_at.offset

abbrev dated_log : Tables
dated_log = record { runs = []; audit_log = append dated sha256 genesis 1 decision ∷ [] }

elsewhere_fails :
    ((verify dated sha256 (log_of in_utc dated_log)).ok ≡ true)
    × ((verify dated sha256 (log_of (λ _. "+02:00") dated_log)).ok ≡ false)
unfolding verify append log_of
elsewhere_fails = (refl, refl)

abbrev one_run : TriageRun
one_run = record {
  run_id = 1;
  claim_id = 7;
  experiment = "baseline";
  variant = "replay";
  status = triaged;
  guard_verdicts = [];
  trace_id = "";
  started_at = 10;
  completed_at = 20;
}

recorded_atomic_example :
    AllOrNothing calm empty_world.store
      (next_entry dumps sha256 [] (evidence one_run))
      (extended dumps sha256 (schema none) one_run (evidence one_run))
      (recorded dumps sha256 one_run calm empty_world.store)
recorded_atomic_example = recorded_atomic dumps sha256 one_run calm empty_world.store

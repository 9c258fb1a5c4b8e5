-- ===== src/Triage/Pipeline/Order.antt =====
-- src/claim_triage/triage/pipeline.py: the order of a run's effects, whatever fails.
use claim_triage_agent.Common.{
  ◌≡◌, refl, ◌⊎◌, inl, inr, Bool, true, false, String, Option, none, some, arith, Option-cases,
}
use claim_triage_agent.Contract.{Uuid, Claim, ClaimStatus}
use claim_triage_agent.Contract.Client.{Called, answered, refusal, unreachable, unexpected}
use claim_triage_agent.Database.{unacknowledged, Store}
use claim_triage_agent.Triage.Audit.{Recorded}
use claim_triage_agent.Triage.Graph.{TriageState}
use claim_triage_agent.Triage.Run.{TriageRun, RunRequest, RunResult}
use claim_triage_agent.Triage.Store.{Tables, schema}
use claim_triage_agent.Triage.Store.Commits.{extended}
use claim_triage_agent.Triage.Pipeline.Evidence.{recorded_atomic}
use claim_triage_agent.Triage.Pipeline.{
  Systems, Surroundings, World, Outcome, is_raised, evidence, run, conclude, emit, emitted,
  recorded, taken_in, decided, run_of, result_of, returned,
}

-- The tables with one run's row and its entry added.
abbrev pub with_run : (Recorded → String) → (String → String) → Store Tables → TriageRun → Tables
with_run dumps sha256 s r = extended dumps sha256 (schema s.tables) r (evidence r)

abbrev pub is_answer : {A : Type 0} → Called A → Bool
is_answer (answered _) = true
is_answer _ = false

Called-cases :
    {A : Type 0} (call : Called A) → ((a : A) × (call ≡ answered a)) ⊎ (is_answer call ≡ false)
Called-cases (answered a) = inl (a, refl)
Called-cases (refusal _ _) = inr refl
Called-cases (unreachable _) = inr refl
Called-cases unexpected = inr refl

module _ {S : Type 0} (systems : Systems S) (show : Uuid → String) where
  -- The systems were told of a run, and the caller is answered only if they took it.
  abbrev pub Told : RunRequest → TriageRun → S → Outcome RunResult → S → Type 0
  Told request r before o after =
      (after ≡ (emitted systems show request r.claim_id r.status before).1)
      × ((is_answer (emitted systems show request r.claim_id r.status before).0 ≡ false)
            × (is_raised o ≡ true)
          ⊎ (c : Claim) × ((emitted systems show request r.claim_id r.status before).0 ≡ answered c)
            × (o ≡ returned (result_of r c)))

  emit-Told :
      (request : RunRequest) (r : TriageRun) (w : World S)
      → Told request r w.systems
          (emit systems show request r w).0
          (emit systems show request r w).1.systems
        × ((emit systems show request r w).1.store ≡ w.store)
  unfolding emit
  emit-Told request r w = ground arith

module _ {S : Type 0} (dumps : Recorded → String) (sha256 : String → String) (systems : Systems S)
    (show : Uuid → String) where
  -- Where the record of one run and its emission end: nothing was recorded and nothing told, or the
  -- run and its evidence are in the store, and only then may the systems have been told.
  abbrev pub Concluded :
      RunRequest → Surroundings → TriageRun → World S → Outcome RunResult → World S → Type 0
  Concluded request around r w o w' =
      (is_raised o ≡ true) × (w'.systems ≡ w.systems) × (w'.store.tables ≡ w.store.tables)
      ⊎ (w'.store.tables ≡ some (with_run dumps sha256 w.store r))
        × ((is_raised o ≡ true)
              × (w'.systems ≡ w.systems)
              × (around.session.commit ≡ unacknowledged)
            ⊎ Told systems show request r w.systems o w'.systems)

  conclude_order :
      (request : RunRequest) (around : Surroundings) (claim_id : Uuid) (status : ClaimStatus)
      (w : World S)
      → Concluded request around
          (run_of request around claim_id status)
          w
          (conclude dumps sha256 systems show request around claim_id status w).0
          (conclude dumps sha256 systems show request around claim_id status w).1
  unfolding conclude
  conclude_order request around claim_id status w =
      let r = run_of request around claim_id status in
      let w' : World S = record w { store = (recorded dumps sha256 r around.session w.store).1 } in
      ground (
        arith,
        recorded_atomic dumps sha256 r around.session w.store,
        emit-Told systems show request r w',
      )

module _ {S : Type 0} (dumps : Recorded → String) (sha256 : String → String) (systems : Systems S)
    (show : Uuid → String) (invoke : TriageState → Option String) where
  -- How a run ends: before a decision, with nothing recorded, or in `Concluded` at the claim that the
  -- systems took in and the status that the graph decided.
  abbrev pub RunEnds : RunRequest → Surroundings → World S → Outcome RunResult × World S → Type 0
  RunEnds request around w (o, w') =
      (is_raised o ≡ true)
        × (w'.systems ≡ (taken_in systems show request w.systems).1)
        × (w'.store ≡ w.store)
      ⊎ (claim : Claim) × (status : ClaimStatus) × ((taken_in systems show request w.systems).0
          ≡ answered claim)
        × (decided invoke request ≡ some status)
        × Concluded dumps sha256 systems show request around
            (run_of request around claim.claim_id status)
            (record w { systems = (taken_in systems show request w.systems).1 }) o w'

  run_concludes :
      (request : RunRequest) (around : Surroundings) (w : World S) (claim : Claim)
      (status : ClaimStatus)
      → (taken_in systems show request w.systems).0 ≡ answered claim
      → decided invoke request ≡ some status
      → run dumps sha256 systems show invoke request around w
        ≡ conclude dumps sha256 systems show request around claim.claim_id status
            (record w { systems = (taken_in systems show request w.systems).1 })
  unfolding run
  run_concludes request around w claim status took chosen = ground arith

  run_stops :
      (request : RunRequest) (around : Surroundings) (w : World S)
      → (is_answer (taken_in systems show request w.systems).0 ≡ false)
        ⊎ (decided invoke request ≡ none)
      → RunEnds request around w (run dumps sha256 systems show invoke request around w)
  unfolding run
  run_stops request around w stopped = inl (ground arith, ground arith, ground arith)

  -- Whatever the systems, the graph and the database do, a run ends in one of these ways: the claim
  -- was not taken in or not decided, and the store is untouched; the run could not be recorded, and
  -- nothing was emitted; or the run and its evidence are in the store and the systems were told the
  -- status that was recorded, and the caller is answered exactly if they took it.
  pub run_order :
      (request : RunRequest) (around : Surroundings) (w : World S)
      → RunEnds request around w (run dumps sha256 systems show invoke request around w)
  run_order request around w = elim (Called-cases (taken_in systems show request w.systems).0) [
    | inr failed ↦ run_stops request around w (inl failed)
    | inl (claim, took) ↦ elim (Option-cases (decided invoke request)) [
      | inl undecided ↦ run_stops request around w (inr undecided)
      | inr (status, chosen) ↦ rw (run_concludes request around w claim status took chosen) (
          inr (
            claim,
            status,
            took,
            chosen,
            conclude_order dumps sha256 systems show request around claim.claim_id status _,
          ))
    ]
  ]

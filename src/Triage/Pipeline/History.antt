-- ===== src/Triage/Pipeline/History.antt =====
-- src/claim_triage/triage: what the store holds after any runs, failed ones included.
use claim_triage_agent.Common.{
  ◌≡◌, refl, inl, inr, true, String, Option, none, List, [], ◌∷◌, map, arith,
}
use claim_triage_agent.Contract.{Uuid, Instant}
use claim_triage_agent.Triage.Audit.{AuditEntry, Recorded, verify}
use claim_triage_agent.Triage.Audit.Chain.{verify_iff}
use claim_triage_agent.Triage.Graph.{TriageState}
use claim_triage_agent.Triage.Run.{RunRequest, TriageRun}
use claim_triage_agent.Triage.Store.{Tables, schema, row_entry, log_of}
use claim_triage_agent.Triage.Store.Order.{order_by_seq_chain}
use claim_triage_agent.Triage.Pipeline.Evidence.{IsEvidenced, extended-IsEvidenced}
use claim_triage_agent.Triage.Pipeline.Order.{run_order}
use claim_triage_agent.Triage.Pipeline.{Systems, Surroundings, World, evidence, run, run_of}

abbrev pub tables_of : {S : Type 0} → World S → Tables
tables_of w = schema w.store.tables

list_parts : {A : Type 0} (x y : A) (xs ys : List A) → x ∷ xs ≡ y ∷ ys → (x ≡ y) × (xs ≡ ys)
list_parts x y xs ys same = (cc same, cc same)

-- Entries of evidence are stamped in UTC, so that a session in UTC reads them back as they were.
row_entry-utc :
    (offset_at : Instant → String) (e : AuditEntry) (r : TriageRun)
    → ((i : Instant) → offset_at i ≡ "+00:00")
    → e.content ≡ evidence r
    → row_entry offset_at e ≡ e
unfolding row_entry evidence
row_entry-utc offset_at e r in_utc same = ground (arith, same, in_utc r.completed_at)

row_entry-evidence :
    (offset_at : Instant → String)
    → ((i : Instant) → offset_at i ≡ "+00:00")
    → (log : List AuditEntry) (rows : List TriageRun) → map (λ e. e.content) log ≡ map evidence rows
    → map (row_entry offset_at) log ≡ log
row_entry-evidence offset_at in_utc [] rows same = refl
row_entry-evidence offset_at in_utc (e ∷ log) [] same = absurd (ground (arith, same))
row_entry-evidence offset_at in_utc (e ∷ log) (r ∷ rows) same =
    let (head, tail) = list_parts e.content (evidence r) _ _ same in
    rw (row_entry-utc offset_at e r in_utc head, row_entry-evidence offset_at in_utc log rows tail)
      refl

module _ {S : Type 0} (dumps : Recorded → String) (sha256 : String → String) (systems : Systems S)
    (show : Uuid → String) (invoke : TriageState → Option String) where
  -- A run keeps the audit log a chain of evidence, one entry for each run.
  run-IsEvidenced :
      (request : RunRequest) (around : Surroundings) (w : World S)
      → IsEvidenced dumps sha256 (tables_of w)
      → IsEvidenced dumps sha256
          (tables_of (run dumps sha256 systems show invoke request around w).1)
  run-IsEvidenced request around w h =
      elim (run_order dumps sha256 systems show invoke request around w) [
        | inl (_, _, same) ↦ rw same h
        | inr (claim, status, _, _, inl (_, _, same)) ↦ rw same h
        | inr (claim, status, _, _, inr (written, _)) ↦ rw written (
            extended-IsEvidenced dumps sha256 (tables_of w)
              (run_of request around claim.claim_id status) h)
      ]

  -- One run after another, each with what it meets.
  abbrev pub runs : List (RunRequest × Surroundings) → World S → World S
  runs [] w = w
  runs ((request, around) ∷ rest) w =
      runs rest (run dumps sha256 systems show invoke request around w).1

  runs-IsEvidenced :
      (requests : List (RunRequest × Surroundings)) (w : World S)
      → IsEvidenced dumps sha256 (tables_of w)
      → IsEvidenced dumps sha256 (tables_of (runs requests w))
  runs-IsEvidenced [] w h = h
  runs-IsEvidenced ((request, around) ∷ rest) w h =
      runs-IsEvidenced rest _ (run-IsEvidenced request around w h)

  -- After any runs on a database without tables, whatever failed in them, the log as it is read back
  -- in a session whose time zone is UTC verifies, and its entries are the evidence of the recorded
  -- runs, one for each, in order.
  pub runs_verify :
      (requests : List (RunRequest × Surroundings)) (w : World S) (offset_at : Instant → String)
      → w.store.tables ≡ none
      → ((i : Instant) → offset_at i ≡ "+00:00")
      → let t = tables_of (runs requests w) in
        ((verify dumps sha256 (log_of offset_at t)).ok ≡ true)
        × (map (λ e. e.content) (log_of offset_at t) ≡ map evidence t.runs)
  unfolding log_of
  runs_verify requests w offset_at fresh in_utc =
      let h = runs-IsEvidenced requests w (rw fresh (record { chained = tt; evidenced = refl })) in
      let t = tables_of (runs requests w) in
      let same = row_entry-evidence offset_at in_utc t.audit_log t.runs h.evidenced in
      rw (order_by_seq_chain dumps sha256 _ h.chained, same)
        ((verify_iff dumps sha256 _).1 h.chained, h.evidenced)

-- ===== src/Triage/Store/Commits.antt =====
-- src/claim_triage/triage/store.py: what a transaction that appends an entry leaves behind.
use claim_triage_agent.Common.{
  ◌≡◌, refl, ◌⊎◌, inl, inr, true, String, none, some, List, [], ◌∷◌, ◌++◌, arith, Bool-cases,
  Option-cases,
}
use claim_triage_agent.Database.{
  Session, Store, Tx, Work, ok, is_err, own, ◌>>=◌, apply_schema, begin,
}
use claim_triage_agent.Database.Atomicity.{Wrote, AllOrNothing, connected_atomic}
use claim_triage_agent.Triage.Audit.{AuditEntry, AuditEntryContent, Recorded, continues, append}
use claim_triage_agent.Triage.Audit.Chain.{tip}
use claim_triage_agent.Triage.Run.{TriageRun}
use claim_triage_agent.Triage.Store.Order.{has_seq-newest}
use claim_triage_agent.Triage.Store.{
  Tables, StoreError, unavailable, translated, schema, record_run, append_entry, transaction,
  newest,
}

module _ (dumps : Recorded → String) (sha256 : String → String) where
  -- The entry that an append links onto the log.
  abbrev pub next_entry : List AuditEntry → AuditEntryContent → AuditEntry
  next_entry log content =
      append dumps sha256 (continues (tip (newest log))).1 (continues (tip (newest log))).0 content

  -- The tables with one more run and its entry.
  abbrev pub extended : Tables → TriageRun → AuditEntryContent → Tables
  extended t run content = record {
    runs = t.runs ++ run ∷ [];
    audit_log = t.audit_log ++ next_entry t.audit_log content ∷ [];
  }

  abbrev both : TriageRun → AuditEntryContent → Work Tables StoreError AuditEntry
  both run content = record_run run >>= λ _. append_entry dumps sha256 content

  -- The two writes either raise, or have extended both tables.
  both_cases :
      (run : TriageRun) (content : AuditEntryContent) (w : Session Tables) (tx : Tx Tables)
      (t : Tables)
      → tx.seen ≡ some t
      → ((both run content w tx).1.base ≡ tx.base)
        × ((both run content w tx).1.schema_applied ≡ tx.schema_applied)
        × ((is_err (both run content w tx).0 ≡ true)
            ⊎ (((both run content w tx).0 ≡ ok (next_entry t.audit_log content))
                × ((both run content w tx).1.seen ≡ some (extended t run content))))
  unfolding record_run append_entry
  both_cases run content w tx t seen = ground (arith, has_seq-newest t.audit_log)

  -- On a database without the tables the first write raises.
  both_untabled :
      (run : TriageRun) (content : AuditEntryContent) (w : Session Tables) (tx : Tx Tables)
      → tx.seen ≡ none
      → (is_err (both run content w tx).0 ≡ true) × ((both run content w tx).1.base ≡ tx.base)
  unfolding record_run
  both_untabled run content w tx untabled = ground arith

  -- The block of the transaction, the schema applied first and the errors of its body translated.
  abbrev guarded : TriageRun → AuditEntryContent → Work Tables StoreError AuditEntry
  guarded run content =
      apply_schema schema >>= λ _ w tx. let (r, tx') = both run content w tx in (translated r, tx')

  guarded-Wrote :
      (run : TriageRun) (content : AuditEntryContent) (w : Session Tables) (s : Store Tables)
      → Wrote
          (guarded run content)
          w
          s
          (next_entry (schema s.tables).audit_log content)
          (extended (schema s.tables) run content)
  guarded-Wrote run content w s = elim (Option-cases s.tables) [
    | inl untabled ↦ elim (Bool-cases s.schema_applied) [
      | inl applied ↦ ground (arith, both_untabled run content w (begin s) untabled)
      | inr fresh ↦ ground (
        arith,
        both_cases run content w
            (record (begin s) { seen = some (schema none); schema_applied = true; statement = 1 })
            (schema none) refl,
      )
    ]
    | inr (t, tabled) ↦ elim (Bool-cases s.schema_applied) [
      | inl applied ↦ ground (arith, both_cases run content w (begin s) t tabled)
      | inr fresh ↦ ground (
        arith,
        both_cases run content w
            (record (begin s) { seen = some t; schema_applied = true; statement = 1 }) t refl,
      )
    ]
  ]

  pub transaction_atomic :
      (run : TriageRun) (content : AuditEntryContent) (w : Session Tables) (s : Store Tables)
      → AllOrNothing w s
          (next_entry (schema s.tables).audit_log content)
          (extended (schema s.tables) run content)
          (transaction (both run content) w s)
  unfolding transaction
  transaction_atomic run content w s =
      connected_atomic (own unavailable) (guarded run content) w s _ _
        (guarded-Wrote run content w s)

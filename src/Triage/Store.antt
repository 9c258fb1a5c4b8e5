-- ===== src/Triage/Store.antt =====
-- src/claim_triage/triage/store.py: the triager's two tables, and the transaction that writes both.
-- A table is the list of its rows, in the order in which they were inserted.
pub mod Order
pub mod Commits
use claim_triage_agent.Common.{
  ℕ, Bool, true, false, String, Option, none, some, List, [], ◌∷◌, ◌++◌, ltb, leb, not, ◌||◌, ◌==◌,
  nat_equality, map, if◌then◌else◌,
}
use claim_triage_agent.Contract.{Uuid, Instant}
use claim_triage_agent.Database.{
  DbError, operational, unique_violation, undefined_table, Raised, db, own, Result, ok, err,
  Session, Store, Tx, Work, execute, query, update, insert, apply_schema, connected, finish, begin,
  pure, raise, ◌>>=◌, ◌>>◌,
}
use claim_triage_agent.Triage.Audit.{
  AuditEntry, Timestamp, AuditEntryContent, Recorded, continues, append,
}
use claim_triage_agent.Triage.Audit.Chain.{tip}
use claim_triage_agent.Triage.Run.{TriageRun}

pub record Tables : Type 0 where
  pub runs : List TriageRun
  pub audit_log : List AuditEntry

-- `TriageStoreUnavailable`
pub data StoreError : Type 0 where
  unavailable : StoreError

-- The statements of SCHEMA: each creates what is not there yet.
abbrev pub schema : Option Tables → Tables
schema none = record { runs = []; audit_log = [] }
schema (some t) = t

-- SELECT ... FROM triage_runs WHERE run_id = %s
unfoldable pub find_run : Uuid → List TriageRun → Option TriageRun
find_run run_id [] = none
find_run run_id (run ∷ runs) = if run.run_id == run_id then some run else find_run run_id runs

-- ORDER BY seq DESC LIMIT 1
abbrev later : Option AuditEntry → AuditEntry → Option AuditEntry
later none e = some e
later (some f) e = if ltb f.seq e.seq then some e else some f

pub newest_from : Option AuditEntry → List AuditEntry → Option AuditEntry
newest_from found [] = found
newest_from found (e ∷ es) = newest_from (later found e) es

unfoldable pub newest : List AuditEntry → Option AuditEntry
unfolding newest_from
newest es = newest_from none es

-- ORDER BY seq
pub insert_by_seq : AuditEntry → List AuditEntry → List AuditEntry
insert_by_seq e [] = e ∷ []
insert_by_seq e (f ∷ es) = if leb e.seq f.seq then e ∷ f ∷ es else f ∷ insert_by_seq e es

unfoldable pub order_by_seq : List AuditEntry → List AuditEntry
unfolding insert_by_seq
order_by_seq [] = []
order_by_seq (e ∷ es) = insert_by_seq e (order_by_seq es)

pub has_run : Uuid → Tables → Bool
unfolding find_run
has_run run_id t = elim (find_run run_id t.runs) [ none ↦ false | some _ ↦ true ]

pub has_seq : ℕ → List AuditEntry → Bool
has_seq seq [] = false
has_seq seq (e ∷ es) = e.seq == seq || has_seq seq es

unfoldable pub record_run : TriageRun → Work Tables StoreError (Unit {0})
unfolding has_run
record_run run = insert (has_run run.run_id) (λ t. record t { runs = t.runs ++ run ∷ [] })

module _ (dumps : Recorded → String) (sha256 : String → String) where
  -- The advisory lock is a statement that changes no table.
  unfoldable pub append_entry : AuditEntryContent → Work Tables StoreError AuditEntry
  unfolding newest has_seq append
  append_entry content = do
    update (λ t. t)
    previous ← query (λ t. tip (newest t.audit_log))
    let (seq, prev_hash) = continues previous
    let entry = append dumps sha256 prev_hash seq content
    insert (λ t. has_seq entry.seq t.audit_log)
        (λ t. record t { audit_log = t.audit_log ++ entry ∷ [] })
    pure entry

-- `except (OperationalError, InterfaceError)` around the body of the transaction.
abbrev pub translated : {A : Type 0} → Result StoreError A → Result StoreError A
translated (err (db operational)) = err (own unavailable)
translated r = r

unfoldable pub transaction :
    {A : Type 0}
    → Work Tables StoreError A
    → Session Tables
    → Store Tables
    → Result StoreError A × Store Tables
transaction body =
    connected (own unavailable)
      (apply_schema schema >>= λ _ w tx. let (r, tx') = body w tx in (translated r, tx'))

unfoldable pub read_run :
    Uuid → Session Tables → Store Tables → Result StoreError (Option TriageRun) × Store Tables
unfolding find_run
read_run run_id =
    connected (own unavailable) (apply_schema schema >>= λ _. query (λ t. find_run run_id t.runs))

module _ (offset_at : Instant → String) where
  -- `AuditEntry(**row)`: a TIMESTAMPTZ keeps the moment and comes back in the time zone of the
  -- database's session.
  unfoldable pub row_entry : AuditEntry → AuditEntry
  row_entry e =
      let at : Timestamp = record {
        instant = e.recorded_at.instant;
        offset = offset_at e.recorded_at.instant;
      } in
      record e { content = record e.content { recorded_at = at } }

  -- What the rows of the log read as, oldest first.
  unfoldable pub log_of : Tables → List AuditEntry
  unfolding order_by_seq row_entry
  log_of t = map row_entry (order_by_seq t.audit_log)

  unfoldable pub entries :
      Session Tables → Store Tables → Result StoreError (List AuditEntry) × Store Tables
  unfolding log_of
  entries = connected (own unavailable) (apply_schema schema >>= λ _. query log_of)

-- SELECT 1 needs no table.
unfoldable pub select_one : Work Tables StoreError (Unit {0})
select_one w tx = (if w.answers tx.statement then ok tt else err (db operational), tx)

unfoldable pub ready : Session Tables → Store Tables → Bool × Store Tables
unfolding select_one
ready w s =
    let (r, s') = connected (own unavailable) (apply_schema schema >>= λ _. select_one) w s in
    (elim r [ ok _ ↦ true | err _ ↦ false ], s')

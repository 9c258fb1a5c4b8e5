-- ===== src/Triage/Store/Order.antt =====
-- src/claim_triage/triage/store.py: the queries on the audit log.
use claim_triage_agent.Common.{
  ℕ, ◌≤◌, ◌≡◌, refl, false, String, Option, none, some, List, [], ◌∷◌, inl, inr, ltb, Bool-cases,
  arith,
}
use claim_triage_agent.Triage.Audit.{AuditEntry, Recorded, continues}
use claim_triage_agent.Triage.Audit.Chain.{IsChain, latest, tip}
use claim_triage_agent.Triage.Store.{newest, newest_from, order_by_seq, insert_by_seq, has_seq}

newest_from-le :
    (found : Option AuditEntry) (es : List AuditEntry)
    → (continues (tip found)).0 ≤ (continues (tip (newest_from found es))).0
unfolding newest_from
newest_from-le found [] = omega arith
newest_from-le none (e ∷ es) = ground (arith, newest_from-le (some e) es)
newest_from-le (some f) (e ∷ es) =
    ground (arith, newest_from-le (some e) es, newest_from-le (some f) es)

has_seq_above :
    (found : Option AuditEntry) (es : List AuditEntry) (seq : ℕ)
    → (continues (tip (newest_from found es))).0 ≤ seq
    → has_seq seq es ≡ false
unfolding has_seq newest_from
has_seq_above found [] seq le = refl
has_seq_above none (e ∷ es) seq le =
    ground (arith, newest_from-le (some e) es, has_seq_above (some e) es seq le)
has_seq_above (some f) (e ∷ es) seq le = elim (Bool-cases (ltb f.seq e.seq)) [
  | inl more ↦ ground (
    arith,
    more,
    newest_from-le (some e) es,
    has_seq_above (some e) es seq (ground (arith, le, more)),
  )
  | inr less ↦ ground (
    arith,
    less,
    newest_from-le (some f) es,
    has_seq_above (some f) es seq (ground (arith, le, less)),
  )
]

-- Whatever a log holds, the sequence number after its highest is not in it.
pub has_seq-newest : (es : List AuditEntry) → has_seq (continues (tip (newest es))).0 es ≡ false
unfolding newest
has_seq-newest es = has_seq_above none es _ (omega arith)

module _ (dumps : Recorded → String) (sha256 : String → String) where
  newest_from-latest :
      (previous : Option AuditEntry) (es : List AuditEntry)
      → IsChain dumps sha256 previous es
      → newest_from previous es ≡ latest previous es
  unfolding newest_from
  newest_from-latest previous [] h = refl
  newest_from-latest none (e ∷ es) h = newest_from-latest (some e) es h.2
  newest_from-latest (some p) (e ∷ es) h = ground (arith, newest_from-latest (some e) es h.2, h.0)

  -- The row that the store links the next entry onto is the chain's last.
  pub newest-latest :
      (es : List AuditEntry) → IsChain dumps sha256 none es → newest es ≡ latest none es
  unfolding newest
  newest-latest es h = newest_from-latest none es h

  insert_by_seq_first :
      (e : AuditEntry) (es : List AuditEntry)
      → IsChain dumps sha256 (some e) es
      → insert_by_seq e es ≡ e ∷ es
  unfolding insert_by_seq
  insert_by_seq_first e [] h = refl
  insert_by_seq_first e (f ∷ es) h = ground (arith, h.0)

  order_from :
      (previous : Option AuditEntry) (es : List AuditEntry)
      → IsChain dumps sha256 previous es
      → order_by_seq es ≡ es
  unfolding order_by_seq
  order_from previous [] h = refl
  order_from previous (e ∷ es) h = rw (order_from (some e) es h.2) (insert_by_seq_first e es h.2)

  -- A log that is a chain is read back as it was written.
  pub order_by_seq_chain :
      (es : List AuditEntry) → IsChain dumps sha256 none es → order_by_seq es ≡ es
  order_by_seq_chain es h = order_from none es h

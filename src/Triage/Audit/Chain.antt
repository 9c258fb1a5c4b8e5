-- ===== src/Triage/Audit/Chain.antt =====
-- src/claim_triage/triage/audit.py: `verify` decides a linked chain, and an append keeps one.
use claim_triage_agent.Common.{
  ℕ, ◌<◌, ◌≡◌, refl, ◌↔◌, true, String, Option, none, some, List, [], ◌∷◌, ◌++◌, arith, eq_iff,
}
use claim_triage_agent.Triage.Audit.{
  AuditEntry, AuditEntryContent, Recorded, genesis, continues, digest, append, link_problem,
  verify_from, verify,
}

-- An entry stands where it was written: first onto the genesis, else past the one before it.
abbrev pub Follows : Option AuditEntry → AuditEntry → Type 0
Follows none e = e.prev_hash ≡ genesis
Follows (some p) e = (p.seq < e.seq) × (e.prev_hash ≡ p.hash)

-- The entry that the next one is linked onto.
abbrev pub latest : Option AuditEntry → List AuditEntry → Option AuditEntry
latest previous [] = previous
latest previous (e ∷ es) = latest (some e) es

-- What the store reads of it.
abbrev pub tip : Option AuditEntry → Option (ℕ × String)
tip none = none
tip (some e) = some (e.seq, e.hash)

module _ (dumps : Recorded → String) (sha256 : String → String) where
  abbrev pub IsChain : Option AuditEntry → List AuditEntry → Type 0
  IsChain previous [] = Unit
  IsChain previous (e ∷ es) =
      Follows previous e × (digest dumps sha256 e ≡ e.hash) × IsChain (some e) es

  link-Follows :
      (previous : Option AuditEntry) (e : AuditEntry)
      → (link_problem dumps sha256 previous e ≡ none) ↔ Follows previous e
  unfolding link_problem
  link-Follows none e = ground (arith, eq_iff e.prev_hash genesis)
  link-Follows (some p) e = ground (arith, eq_iff e.prev_hash p.hash)

  verify_from_iff :
      (previous : Option AuditEntry) (es : List AuditEntry)
      → ((verify_from dumps sha256 previous es).ok ≡ true) ↔ IsChain previous es
  unfolding verify_from
  verify_from_iff previous [] = (λ _. tt, λ _. refl)
  verify_from_iff previous (e ∷ es) = ground (
    arith,
    link-Follows previous e,
    eq_iff (digest dumps sha256 e) e.hash,
    verify_from_iff (some e) es,
  )

  -- `verify` passes exactly the chains whose entries each stand where they were written, linked onto
  -- the entry before them, and hash to what they say.
  pub verify_iff : (es : List AuditEntry) → ((verify dumps sha256 es).ok ≡ true) ↔ IsChain none es
  unfolding verify
  verify_iff es = verify_from_iff none es

  pub append-IsChain :
      (previous : Option AuditEntry) (es : List AuditEntry) (content : AuditEntryContent)
      → IsChain previous es
      → IsChain previous (
          es
          ++ append dumps sha256
              (continues (tip (latest previous es))).1
              (continues (tip (latest previous es))).0
              content
            ∷ [])
  unfolding append
  append-IsChain none [] content h = (refl, refl, tt)
  append-IsChain (some p) [] content h = ((omega arith, refl), refl, tt)
  append-IsChain previous (e ∷ es) content h = (h.0, h.1, append-IsChain (some e) es content h.2)

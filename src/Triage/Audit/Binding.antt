-- ===== src/Triage/Audit/Binding.antt =====
-- src/claim_triage/triage/audit.py: what the hash of the newest entry says of the whole chain.
use native.Mathlib.Decide.{ℕ_discrete}
use mathlib.Core.List.{reverse, reverse_aux, reverse-reverse}
use claim_triage_agent.Common.{
  ◌≡◌, ◌≢◌, refl, sym, ◌∙◌, ap, ◌⊎◌, inl, inr, true, String, Option, none, some, List, [], ◌∷◌,
  arith, eq_iff, Bool-cases, ◌==◌, string_equality, eq_sound, Has, Has-reverse_aux,
}
use claim_triage_agent.Triage.Audit.{
  AuditEntry, Recorded, genesis, continues, recorded, digest, verify,
}
use claim_triage_agent.Triage.Audit.Chain.{Follows, latest, tip, IsChain, verify_iff}

String-discrete : Discrete String
String-discrete a b = elim (Bool-cases (a == b)) [
  | inl same ↦ yes (eq_sound a b same)
  | inr other ↦ no (λ e. ground (arith, eq_iff a b))
]

Recorded-discrete : Discrete Recorded
Recorded-discrete = hlevel (ℕ_discrete, String-discrete)

-- An entry is what it records, and its hash.
entry_eq : (a b : AuditEntry) → recorded a ≡ recorded b → a.hash ≡ b.hash → a ≡ b
unfolding recorded
entry_eq a b same hash = ground arith

-- The entry before the ones read so far, of a chain newest first.
abbrev newest : List AuditEntry → Option AuditEntry
newest [] = none
newest (e ∷ es) = some e

-- The hash that the next entry is linked onto.
abbrev pub link_hash : Option AuditEntry → String
link_hash previous = (continues (tip previous)).1

Follows-link_hash :
    (previous : Option AuditEntry) (e : AuditEntry)
    → Follows previous e
    → e.prev_hash ≡ link_hash previous
Follows-link_hash none e h = h
Follows-link_hash (some p) e h = h.1

newest-reverse_aux : (es r : List AuditEntry) → newest (reverse_aux es r) ≡ latest (newest r) es
newest-reverse_aux [] r = refl
newest-reverse_aux (e ∷ es) r = newest-reverse_aux es (e ∷ r)

module _ (dumps : Recorded → String) (sha256 : String → String) where
  -- An entry of each chain that record different things and have one digest.
  abbrev pub Collision : List AuditEntry → List AuditEntry → Type 0
  Collision es fs =
      (a : AuditEntry) × (b : AuditEntry) × Has a es
      × Has b fs
      × ((recorded a ≢ recorded b) × (digest dumps sha256 a ≡ digest dumps sha256 b))

  -- An entry of the chain whose digest is the hash that a chain starts from.
  abbrev pub GenesisDigest : List AuditEntry → Type 0
  GenesisDigest es = (a : AuditEntry) × Has a es × (digest dumps sha256 a ≡ genesis)

  -- What the hashes of two chains can hide.
  abbrev pub HashFailure : List AuditEntry → List AuditEntry → Type 0
  HashFailure es fs = Collision es fs ⊎ (GenesisDigest es ⊎ GenesisDigest fs)

  HashFailure-cons :
      (e f : AuditEntry) (r s : List AuditEntry) → HashFailure r s → HashFailure (e ∷ r) (f ∷ s)
  HashFailure-cons e f r s (inl (a, b, ha, hb, c)) = inl (a, b, inr ha, inr hb, c)
  HashFailure-cons e f r s (inr (inl (a, ha, c))) = inr (inl (a, inr ha, c))
  HashFailure-cons e f r s (inr (inr (a, ha, c))) = inr (inr (a, inr ha, c))

  Has-reverse : (a : AuditEntry) (es : List AuditEntry) → Has a (reverse es) → Has a es
  Has-reverse a es h = elim (Has-reverse_aux a es [] h) [
    | inl place ↦ place
    | inr none_left ↦ absurd none_left
  ]

  HashFailure-reverse :
      (es fs : List AuditEntry) → HashFailure (reverse es) (reverse fs) → HashFailure es fs
  HashFailure-reverse es fs (inl (a, b, ha, hb, c)) =
      inl (a, b, Has-reverse a es ha, Has-reverse b fs hb, c)
  HashFailure-reverse es fs (inr (inl (a, ha, c))) = inr (inl (a, Has-reverse a es ha, c))
  HashFailure-reverse es fs (inr (inr (a, ha, c))) = inr (inr (a, Has-reverse a fs ha, c))

  -- A chain newest first, each entry held to the one that stands after it.
  abbrev IsHistory : List AuditEntry → Type 0
  IsHistory [] = Unit
  IsHistory (e ∷ r) = Follows (newest r) e × (digest dumps sha256 e ≡ e.hash) × IsHistory r

  IsHistory-reverse :
      (es r : List AuditEntry)
      → IsChain dumps sha256 (newest r) es
      → IsHistory r
      → IsHistory (reverse_aux es r)
  IsHistory-reverse [] r c h = h
  IsHistory-reverse (e ∷ es) r c h = IsHistory-reverse es (e ∷ r) c.2 (c.0, c.1, h)

  -- One link back: what the two newest entries record is the same, or they collide.
  same_newest :
      (e f : AuditEntry) (r s : List AuditEntry)
      → IsHistory (e ∷ r)
      → IsHistory (f ∷ s)
      → e.hash ≡ f.hash
      → (e ≡ f) × (link_hash (newest r) ≡ link_hash (newest s)) ⊎ Collision (e ∷ r) (f ∷ s)
  same_newest e f r s he hf same = elim (Recorded-discrete (recorded e) (recorded f)) [
    | yes equal ↦
        let entries : e ≡ f = entry_eq e f equal same in
        inl (
          entries,
          sym (Follows-link_hash (newest r) e he.0)
              ∙ ap (λ x. x.prev_hash) entries
              ∙ Follows-link_hash (newest s) f hf.0,
        )
    | no differs ↦ inr (e, f, inl refl, inl refl, (differs, he.1 ∙ same ∙ sym hf.1))
  ]

  history_binding :
      (r s : List AuditEntry)
      → IsHistory r
      → IsHistory s
      → link_hash (newest r) ≡ link_hash (newest s)
      → (r ≡ s) ⊎ HashFailure r s
  history_binding [] [] hr hs same = inl refl
  history_binding [] (f ∷ s) hr hs same = inr (inr (inr (f, inl refl, hs.1 ∙ sym same)))
  history_binding (e ∷ r) [] hr hs same = inr (inr (inl (e, inl refl, hr.1 ∙ same)))
  history_binding (e ∷ r) (f ∷ s) hr hs same = elim (same_newest e f r s hr hs same) [
    | inr collision ↦ inr (inl collision)
    | inl (equal, links) ↦ elim (history_binding r s hr.2 hs.2 links) [
      | inl rest ↦ inl (cc)
      | inr found ↦ inr (HashFailure-cons e f r s found)
    ]
  ]

  -- Two chains that `verify` passes and that end in one hash are one chain, unless two different
  -- records among them share a digest or a record's digest is the genesis hash.
  pub verify_binding :
      (es fs : List AuditEntry)
      → (verify dumps sha256 es).ok ≡ true
      → (verify dumps sha256 fs).ok ≡ true
      → link_hash (latest none es) ≡ link_hash (latest none fs)
      → (es ≡ fs) ⊎ HashFailure es fs
  verify_binding es fs he hf same =
      let chain = λ (gs : List AuditEntry) (h : (verify dumps sha256 gs).ok ≡ true).
        IsHistory-reverse gs [] ((verify_iff dumps sha256 gs).0 h) tt in
      elim (history_binding (reverse es) (reverse fs) (chain es he) (chain fs hf) (
        ap link_hash (newest-reverse_aux es [])
        ∙ same
        ∙ ap link_hash (sym (newest-reverse_aux fs [])))) [
          | inl equal ↦ inl (sym (reverse-reverse es) ∙ ap reverse equal ∙ reverse-reverse fs)
          | inr found ↦ inr (HashFailure-reverse es fs found)
        ]

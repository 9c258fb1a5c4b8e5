-- ===== src/CoreSim/Store/Integrity.antt =====
-- src/claim_triage/core_sim/store.py: what the rows refer to is there, and a claim's history ends in
-- the status that it has.
use claim_triage_agent.Common.{
  ◌≡◌, refl, ◌∙◌, inl, inr, true, String, Option, none, some, List, [], ◌∷◌, ◌++◌, arith, All,
  All-append, Option-cases, Bool-cases, nat_equality, string_equality,
}
use claim_triage_agent.Contract.{
  Uuid, Policy, Claim, ClaimStatus, received, ClaimStatusTransition, ClaimSubmission, ClaimDocument,
  ClaimDocumentSubmission, ClaimParty, ClaimPartySubmission,
}
use claim_triage_agent.CoreSim.Tables.{
  Tables, Remembered, find_claim, find_policy, present, schema, seed, seed_policies, update_claim,
}
use claim_triage_agent.CoreSim.Store.{Drawn, create_row, status_row, document_row, party_row}
use claim_triage_agent.Database.Keeping.{Keeping, Held}

-- The last status of a history.
abbrev pub latest : List ClaimStatusTransition → Option ClaimStatus
latest [] = none
latest (x ∷ []) = some x.status
latest (x ∷ y ∷ rest) = latest (y ∷ rest)

abbrev pub IsSoundClaim : List Policy → Claim → Type 0
IsSoundClaim policies c =
    (present (find_policy c.policy_number policies) ≡ true)
    × (latest c.status_history ≡ some c.status)

-- Every claim has its policy and is in the last status of its history; every document and every
-- party has its claim.
unfoldable pub IsSound : Tables → Type 0
IsSound t =
    All (IsSoundClaim t.policies) t.claims
    × All (λ d. present (find_claim d.claim_id t.claims) ≡ true) t.documents
    × All (λ p. present (find_claim p.claim_id t.claims) ≡ true) t.parties

All-weaken :
    {A : Type 0} (P Q : A → Type 0) (xs : List A) → ((a : A) → P a → Q a) → All P xs → All Q xs
All-weaken P Q [] weaker h = tt
All-weaken P Q (x ∷ xs) weaker h = (weaker x h.0, All-weaken P Q xs weaker h.1)

latest-append :
    (history : List ClaimStatusTransition) (x : ClaimStatusTransition)
    → latest (history ++ x ∷ []) ≡ some x.status
latest-append [] x = refl
latest-append (y ∷ []) x = refl
latest-append (y ∷ z ∷ rest) x = latest-append (z ∷ rest) x

find_claim-append :
    (id : Uuid) (cs more : List Claim)
    → present (find_claim id cs) ≡ true
    → present (find_claim id (cs ++ more)) ≡ true
unfolding find_claim
find_claim-append id [] more h = absurd (ground (arith, h))
find_claim-append id (c ∷ cs) more h = ground (arith, h, find_claim-append id cs more)

find_claim-update_claim :
    (id : Uuid) (u : Claim) (cs : List Claim)
    → present (find_claim id (update_claim u cs)) ≡ present (find_claim id cs)
unfolding find_claim update_claim
find_claim-update_claim id u [] = refl
find_claim-update_claim id u (c ∷ cs) = ground (arith, find_claim-update_claim id u cs)

update_claim_ends :
    (policies : List Policy) (u : Claim) (cs : List Claim)
    → latest u.status_history ≡ some u.status
    → All (IsSoundClaim policies) cs
    → All (IsSoundClaim policies) (update_claim u cs)
unfolding update_claim
update_claim_ends policies u [] ends h = tt
update_claim_ends policies u (c ∷ cs) ends h =
    (ground (arith, ends, h.0), update_claim_ends policies u cs ends h.1)

find_policy-append :
    (number : String) (ps more : List Policy)
    → present (find_policy number ps) ≡ true
    → present (find_policy number (ps ++ more)) ≡ true
unfolding find_policy
find_policy-append number [] more h = absurd (ground (arith, h))
find_policy-append number (p ∷ ps) more h = ground (arith, h, find_policy-append number ps more)

find_policy-seed :
    (number : String) (ps held : List Policy)
    → present (find_policy number held) ≡ true
    → present (find_policy number (seed ps held)) ≡ true
unfolding seed
find_policy-seed number [] held h = h
find_policy-seed number (p ∷ ps) held h =
    elim (Bool-cases (present (find_policy p.policy_number held))) [
      | inl is_held ↦ rw is_held (find_policy-seed number ps held h)
      | inr not_held ↦
          rw not_held (
            find_policy-seed number ps (held ++ p ∷ []) (find_policy-append number held (p ∷ []) h))
    ]

pub IsSound-schema : (held : Option Tables) → Held IsSound held → IsSound (schema held)
unfolding schema IsSound
IsSound-schema none h = (tt, tt, tt)
IsSound-schema (some t) h = (
  All-weaken (IsSoundClaim t.policies) _ t.claims
      (λ c s. (find_policy-seed c.policy_number seed_policies t.policies s.0, s.1)) h.0,
  h.1,
  h.2,
)

-- A claim that was taken in under a policy that is there.
IsSound-claim :
    (t : Tables) (c : Claim)
    → IsSoundClaim t.policies c
    → IsSound t
    → IsSound (record t { claims = t.claims ++ c ∷ [] })
unfolding IsSound
IsSound-claim t c sound h = (
  All-append (IsSoundClaim t.policies) t.claims (c ∷ []) h.0 (sound, tt),
  All-weaken _ _ t.documents (λ d s. find_claim-append d.claim_id t.claims (c ∷ []) s) h.1,
  All-weaken _ _ t.parties (λ p s. find_claim-append p.claim_id t.claims (c ∷ []) s) h.2,
)

IsSound-status :
    (t : Tables) (u : Claim)
    → latest u.status_history ≡ some u.status
    → IsSound t
    → IsSound (record t { claims = update_claim u t.claims })
unfolding IsSound
IsSound-status t u ends h = (
  update_claim_ends t.policies u t.claims ends h.0,
  All-weaken _ _ t.documents (λ d s. find_claim-update_claim d.claim_id u t.claims ∙ s) h.1,
  All-weaken _ _ t.parties (λ p s. find_claim-update_claim p.claim_id u t.claims ∙ s) h.2,
)

IsSound-document :
    (t : Tables) (d : ClaimDocument)
    → present (find_claim d.claim_id t.claims) ≡ true
    → IsSound t
    → IsSound (record t { documents = t.documents ++ d ∷ [] })
unfolding IsSound
IsSound-document t d held h = (h.0, All-append _ t.documents (d ∷ []) h.1 (held, tt), h.2)

IsSound-party :
    (t : Tables) (p : ClaimParty)
    → present (find_claim p.claim_id t.claims) ≡ true
    → IsSound t
    → IsSound (record t { parties = t.parties ++ p ∷ [] })
unfolding IsSound
IsSound-party t p held h = (h.0, h.1, All-append _ t.parties (p ∷ []) h.2 (held, tt))

-- The tables beside the keys.
pub IsSound-keys :
    (t : Tables) (keys : List Remembered) → IsSound t → IsSound (record t { keys = keys })
unfolding IsSound
IsSound-keys t keys h = h

pub Keeping-create_row :
    (drawn : Drawn) (s : ClaimSubmission) → Keeping IsSound (create_row drawn s)
unfolding create_row
Keeping-create_row drawn s = record {
  at = λ w tx kw h.
      let taken_in : Claim = record {
        claim_id = drawn.id;
        policy_number = s.policy_number;
        incident_date = s.incident_date;
        claim_amount_eur = s.claim_amount_eur;
        status = received;
        status_history = record { status = received; recorded_at = drawn.now } ∷ [];
      } in
      elim (Option-cases tx.seen) [
        | inl unseen ↦ ground (arith, h.0, h.1, unseen)
        | inr (t, seen) ↦ ground (arith, h.0, h.1, seen, IsSound-claim t taken_in)
      ];
}

pub Keeping-document_row :
    (drawn : Drawn) (id : Uuid) (s : ClaimDocumentSubmission)
    → Keeping IsSound (document_row drawn id s)
unfolding document_row
Keeping-document_row drawn id s = record {
  at = λ w tx kw h.
      let attached : ClaimDocument = record {
        document_id = drawn.id;
        claim_id = id;
        document_type = s.document_type;
        filename = s.filename;
        attached_at = drawn.now;
      } in
      elim (Option-cases tx.seen) [
        | inl unseen ↦ ground (arith, h.0, h.1, unseen)
        | inr (t, seen) ↦ ground (arith, h.0, h.1, seen, IsSound-document t attached)
      ];
}

pub Keeping-party_row :
    (drawn : Drawn) (id : Uuid) (s : ClaimPartySubmission) → Keeping IsSound (party_row drawn id s)
unfolding party_row
Keeping-party_row drawn id s = record {
  at = λ w tx kw h.
      let recorded : ClaimParty = record {
        party_id = drawn.id;
        claim_id = id;
        role = s.role;
        recorded_at = drawn.now;
      } in
      elim (Option-cases tx.seen) [
        | inl unseen ↦ ground (arith, h.0, h.1, unseen)
        | inr (t, seen) ↦ ground (arith, h.0, h.1, seen, IsSound-party t recorded)
      ];
}

pub Keeping-status_row :
    (drawn : Drawn) (id : Uuid) (s : ClaimStatus) → Keeping IsSound (status_row drawn id s)
unfolding status_row
Keeping-status_row drawn id s = record {
  at = λ w tx kw h. elim (Option-cases tx.seen) [
    | inl unseen ↦ ground (arith, h.0, h.1, unseen)
    | inr (t, seen) ↦ elim (Option-cases (find_claim id t.claims)) [
      | inl unknown ↦ ground (arith, h.0, h.1, seen, unknown)
      | inr (c, held) ↦
          let x : ClaimStatusTransition = record { status = s; recorded_at = drawn.now } in
          let u : Claim = record c { status = s; status_history = c.status_history ++ x ∷ [] } in
          ground
            (arith, h.0, h.1, seen, held, IsSound-status t u (latest-append c.status_history x))
    ]
  ];
}

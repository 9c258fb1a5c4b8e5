-- ===== src/CoreSim/Tables.antt =====
-- src/claim_triage/core_sim/store.py: the five tables, the rows seeded in them and the queries.
-- A table is the list of its rows, in the order in which they were inserted.
use claim_triage_agent.Common.{
  Bool, true, false, String, Option, none, some, List, [], ◌∷◌, ◌++◌, ltb, leb, ◌||◌, ◌&&◌, ◌==◌,
  nat_equality, string_equality, if◌then◌else◌,
}
use claim_triage_agent.Contract.{Uuid, Policy, Claim, ClaimDocument, ClaimParty}

-- What a write records as its response, one constructor for each model that is validated again.
pub data Answer : Type 0 where
  claim : Claim → Answer
  document : ClaimDocument → Answer
  party : ClaimParty → Answer

pub record Remembered : Type 0 where
  pub key : String
  pub fingerprint : String
  pub response : Answer

pub record Tables : Type 0 where
  pub policies : List Policy
  pub claims : List Claim
  pub documents : List ClaimDocument
  pub parties : List ClaimParty
  pub keys : List Remembered

-- seed.py; a date is its number of days since 1970-01-01.
abbrev pub seed_policies : List Policy
seed_policies =
    record { policy_number = "SIM-2026-0001"; product_family = "Auto & pohoda"; valid_from = 20454 }
    ∷ record {
      policy_number = "SIM-2025-0442";
      product_family = "Auto & pohoda";
      valid_from = 20240;
    }
    ∷ record {
      policy_number = "SIM-2026-0107";
      product_family = "Cestovné poistenie";
      valid_from = 20485;
    }
    ∷ []

unfoldable pub find_policy : String → List Policy → Option Policy
find_policy number [] = none
find_policy number (p ∷ ps) = if p.policy_number == number then some p else find_policy number ps

unfoldable pub find_claim : Uuid → List Claim → Option Claim
find_claim claim_id [] = none
find_claim claim_id (c ∷ cs) = if c.claim_id == claim_id then some c else find_claim claim_id cs

unfoldable pub find_document : Uuid → List ClaimDocument → Option ClaimDocument
find_document document_id [] = none
find_document document_id (d ∷ ds) =
    if d.document_id == document_id then some d else find_document document_id ds

unfoldable pub find_party : Uuid → List ClaimParty → Option ClaimParty
find_party party_id [] = none
find_party party_id (p ∷ ps) = if p.party_id == party_id then some p else find_party party_id ps

unfoldable pub find_key : String → List Remembered → Option Remembered
find_key key [] = none
find_key key (r ∷ rs) = if r.key == key then some r else find_key key rs

abbrev pub present : {A : Type 0} → Option A → Bool
present none = false
present (some _) = true

-- INSERT INTO policies ... ON CONFLICT (policy_number) DO NOTHING
unfoldable pub seed : List Policy → List Policy → List Policy
unfolding find_policy
seed [] held = held
seed (p ∷ ps) held =
    seed ps (if present (find_policy p.policy_number held) then held else held ++ p ∷ [])

-- The statements of SCHEMA, and the seeds.
abbrev pub created : Option Tables → Tables
created none = record { policies = []; claims = []; documents = []; parties = []; keys = [] }
created (some t) = t

unfoldable pub schema : Option Tables → Tables
unfolding seed
schema held = record (created held) { policies = seed seed_policies (created held).policies }

-- UPDATE claims SET status, status_history WHERE claim_id
unfoldable pub update_claim : Claim → List Claim → List Claim
update_claim updated [] = []
update_claim updated (c ∷ cs) =
    (if c.claim_id == updated.claim_id
      then record c { status = updated.status; status_history = updated.status_history }
      else c)
    ∷ update_claim updated cs

-- WHERE claim_id = %s
unfoldable pub parties_of : Uuid → List ClaimParty → List ClaimParty
parties_of claim_id [] = []
parties_of claim_id (p ∷ ps) =
    let rest = parties_of claim_id ps in if p.claim_id == claim_id then p ∷ rest else rest

-- ORDER BY recorded_at, party_id
abbrev pub party_le : ClaimParty → ClaimParty → Bool
party_le p q =
    ltb p.recorded_at q.recorded_at || (p.recorded_at == q.recorded_at && leb p.party_id q.party_id)

unfoldable pub insert_party : ClaimParty → List ClaimParty → List ClaimParty
insert_party p [] = p ∷ []
insert_party p (q ∷ qs) = if party_le p q then p ∷ q ∷ qs else q ∷ insert_party p qs

unfoldable pub oldest_first : List ClaimParty → List ClaimParty
unfolding insert_party
oldest_first [] = []
oldest_first (p ∷ ps) = insert_party p (oldest_first ps)

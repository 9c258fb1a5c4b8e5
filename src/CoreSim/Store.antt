-- ===== src/CoreSim/Store.antt =====
-- src/claim_triage/core_sim/store.py: the operations, every write run once for its key. `dumps` is
-- `json.dumps` with sorted keys and `sha256` the hex digest; an identifier and the time of a write
-- are drawn by its caller.
pub mod Keys
pub mod Recall
pub mod Retry
pub mod History
pub mod Integrity
pub mod Soundness
pub mod Schema
use claim_triage_agent.Common.{
  ℕ, Bool, true, false, String, Option, none, some, List, [], ◌∷◌, ◌++◌, not, ◌==◌, string_equality,
  if◌then◌else◌,
}
use claim_triage_agent.Contract.{
  Uuid, Instant, Policy, Claim, ClaimStatus, received, ClaimStatusTransition, ClaimSubmission,
  ClaimDocument, ClaimDocumentSubmission, ClaimParty, ClaimPartySubmission,
}
use claim_triage_agent.CoreSim.Tables.{
  Tables, Answer, claim, document, party, Remembered, find_policy, find_claim, find_document,
  find_party, find_key, present, schema, update_claim, parties_of, oldest_first,
}
use claim_triage_agent.Database.{
  operational, unique_violation, Raised, db, own, Result, ok, err, Session, Store, Tx, Work, query,
  update, insert, others_commit, rollback, apply_schema, connected, pure, raise, ◌>>=◌, ◌>>◌,
}

-- `ClaimNotFound`, `PolicyNotFound`, `IdempotencyKeyReuse` and pydantic's `ValidationError`.
pub data CoreError : Type 0 where
  claim_not_found : Uuid → CoreError
  policy_not_found : String → CoreError
  idempotency_key_reuse : String → CoreError
  invalid_record : CoreError

-- A write as `request_fingerprint` sees it: the operation, and the request that carried it.
pub data Request : Type 0 where
  create_claim : ClaimSubmission → Request
  record_claim_status : Uuid → ClaimStatus → Request
  attach_claim_document : Uuid → ClaimDocumentSubmission → Request
  record_claim_party : Uuid → ClaimPartySubmission → Request

-- `uuid4()` and `datetime.now(UTC)` of one write.
pub record Drawn : Type 0 where
  pub id : Uuid
  pub now : Instant

-- `model`: what a remembered response is validated as.
pub data Model : Type 0 where
  claims documents parties : Model

unfoldable pub validated : Model → Answer → Option Answer
validated Model.claims (claim c) = some (claim c)
validated Model.documents (document d) = some (document d)
validated Model.parties (party p) = some (party p)
validated _ _ = none

abbrev Action : Type 0 → Type 0
Action A = Work Tables CoreError A

-- `_require_claim`
unfoldable pub require_claim : Uuid → Action (Unit {0})
unfolding find_claim
require_claim claim_id = do
  held ← query (λ t. present (find_claim claim_id t.claims))
  if held then pure tt else raise (own (claim_not_found claim_id))

-- `_claim`
unfoldable pub claim_row : Uuid → Option Claim → Action Claim
claim_row claim_id none = raise (own (claim_not_found claim_id))
claim_row claim_id (some c) = pure c

-- `_create`
unfoldable pub create_row : Drawn → ClaimSubmission → Action Answer
unfolding find_policy find_claim
create_row drawn submission = do
  held ← query (λ t. present (find_policy submission.policy_number t.policies))
  let taken_in : Claim = record {
    claim_id = drawn.id;
    policy_number = submission.policy_number;
    incident_date = submission.incident_date;
    claim_amount_eur = submission.claim_amount_eur;
    status = received;
    status_history = record { status = received; recorded_at = drawn.now } ∷ [];
  }
  if held then pure tt else raise (own (policy_not_found submission.policy_number))
  insert (λ t. present (find_claim drawn.id t.claims))
      (λ t. record t { claims = t.claims ++ taken_in ∷ [] })
  pure (claim taken_in)

-- `_record_status`
unfoldable pub status_row : Drawn → Uuid → ClaimStatus → Action Answer
unfolding find_claim update_claim claim_row
status_row drawn claim_id status = do
  row ← query (λ t. find_claim claim_id t.claims)
  held ← claim_row claim_id row
  let updated : Claim = record held {
    status = status;
    status_history =
        held.status_history ++ record { status = status; recorded_at = drawn.now } ∷ [];
  }
  update (λ t. record t { claims = update_claim updated t.claims })
  pure (claim updated)

-- `_attach_document`
unfoldable pub document_row : Drawn → Uuid → ClaimDocumentSubmission → Action Answer
unfolding require_claim find_document
document_row drawn claim_id attachment = do
  require_claim claim_id
  let attached : ClaimDocument = record {
    document_id = drawn.id;
    claim_id = claim_id;
    document_type = attachment.document_type;
    filename = attachment.filename;
    attached_at = drawn.now;
  }
  insert (λ t. present (find_document drawn.id t.documents))
      (λ t. record t { documents = t.documents ++ attached ∷ [] })
  pure (document attached)

-- `_record_party`
unfoldable pub party_row : Drawn → Uuid → ClaimPartySubmission → Action Answer
unfolding require_claim find_party
party_row drawn claim_id registration = do
  require_claim claim_id
  let recorded : ClaimParty = record {
    party_id = drawn.id;
    claim_id = claim_id;
    role = registration.role;
    recorded_at = drawn.now;
  }
  insert (λ t. present (find_party drawn.id t.parties))
      (λ t. record t { parties = t.parties ++ recorded ∷ [] })
  pure (party recorded)

-- `_replayed`
unfoldable pub replayed : String → String → Model → Remembered → Action Answer
unfolding validated
replayed key fingerprint model remembered =
    if not (remembered.fingerprint == fingerprint)
    then raise (own (idempotency_key_reuse key))
    else elim (validated model remembered.response) [
      | none ↦ raise (own invalid_record)
      | some answer ↦ pure answer
    ]

-- `except UniqueViolation` around the insert of the key.
unfoldable pub race_answer : String → String → Model → Option Remembered → Action Answer
race_answer key fingerprint model none = raise (db unique_violation)
race_answer key fingerprint model (some other) = replayed key fingerprint model other

unfoldable pub lost_race : String → String → Model → Action Answer
unfolding find_key
lost_race key fingerprint model = do
  rollback
  concurrent ← query (λ t. find_key key t.keys)
  race_answer key fingerprint model concurrent

abbrev pub on_unique_violation : {A : Type 0} → Action A → Action A → Action A
on_unique_violation m handler w tx =
    let (r, tx') = m w tx in
    elim r [
      | ok a ↦ (ok a, tx')
      | err (own e) ↦ (err (own e), tx')
      | err (db unique_violation) ↦ handler w tx'
      | err (db e) ↦ (err (db e), tx')
    ]

unfoldable pub remember : String → String → Answer → Action (Unit {0})
unfolding find_key
remember key fingerprint written =
    insert (λ t. present (find_key key t.keys))
      (λ t. record t {
        keys = t.keys ++ record { key = key; fingerprint = fingerprint; response = written } ∷ [];
      })

-- `_idempotent`, after the key was looked up.
unfoldable pub recorded_once : String → String → Answer → Action Answer
recorded_once key fingerprint written = remember key fingerprint written >>= λ _. pure written

unfoldable pub answered_once :
    String → String → Model → Action Answer → Option Remembered → Action Answer
unfolding recorded_once
answered_once key fingerprint model perform (some first) = replayed key fingerprint model first
answered_once key fingerprint model perform none = do
  others_commit
  written ← perform
  on_unique_violation (recorded_once key fingerprint written) (lost_race key fingerprint model)

unfoldable pub idempotent : String → String → Model → Action Answer → Action Answer
unfolding find_key
idempotent key fingerprint model perform = do
  remembered ← query (λ t. find_key key t.keys)
  answered_once key fingerprint model perform remembered

-- The model and the write of each request: `create`, `record_status`, `attach_document` and
-- `record_party` differ in nothing else.
unfoldable pub model_of : Request → Model
model_of (create_claim _) = Model.claims
model_of (record_claim_status _ _) = Model.claims
model_of (attach_claim_document _ _) = Model.documents
model_of (record_claim_party _ _) = Model.parties

unfoldable pub perform : Drawn → Request → Action Answer
perform drawn (create_claim submission) = create_row drawn submission
perform drawn (record_claim_status claim_id status) = status_row drawn claim_id status
perform drawn (attach_claim_document claim_id attachment) = document_row drawn claim_id attachment
perform drawn (record_claim_party claim_id registration) = party_row drawn claim_id registration

-- `_connection`: psycopg's own error where the database is unreachable.
abbrev pub connection :
    {A : Type 0} → Action A → Session Tables → Store Tables → Result CoreError A × Store Tables
connection block = connected (db operational) (apply_schema schema >>= λ _. block)

module _ (dumps : Request → String) (sha256 : String → String) where
  unfoldable pub request_fingerprint : Request → String
  request_fingerprint request = sha256 (dumps request)

  unfoldable pub write :
      Request
      → String
      → Drawn
      → Session Tables
      → Store Tables
      → Result CoreError Answer × Store Tables
  unfolding idempotent model_of perform request_fingerprint
  write request key drawn =
      connection
        (idempotent key (request_fingerprint request) (model_of request) (perform drawn request))

-- The row is tested after the block has ended, here and in `read_policy`.
unfoldable pub read : Uuid → Session Tables → Store Tables → Result CoreError Claim × Store Tables
unfolding find_claim
read claim_id w s =
    let (r, s') = connection (query (λ t. find_claim claim_id t.claims)) w s in
    elim r [
      | err e ↦ (err e, s')
      | ok none ↦ (err (own (claim_not_found claim_id)), s')
      | ok (some c) ↦ (ok c, s')
    ]

unfoldable pub read_policy :
    String → Session Tables → Store Tables → Result CoreError Policy × Store Tables
unfolding find_policy
read_policy number w s =
    let (r, s') = connection (query (λ t. find_policy number t.policies)) w s in
    elim r [
      | err e ↦ (err e, s')
      | ok none ↦ (err (own (policy_not_found number)), s')
      | ok (some p) ↦ (ok p, s')
    ]

unfoldable pub read_parties :
    Uuid → Session Tables → Store Tables → Result CoreError (List ClaimParty) × Store Tables
unfolding require_claim parties_of oldest_first
read_parties claim_id =
    connection
      (do require_claim claim_id; query (λ t. oldest_first (parties_of claim_id t.parties)))

-- SELECT 1 needs no table.
unfoldable pub select_one : Action (Unit {0})
select_one w tx = (if w.answers tx.statement then ok tt else err (db operational), tx)

unfoldable pub ready : Session Tables → Store Tables → Bool × Store Tables
unfolding select_one
ready w s = let (r, s') = connection select_one w s in (elim r [ ok _ ↦ true | err _ ↦ false ], s')

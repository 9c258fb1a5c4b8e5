-- ===== src/CoreSim/Store/History.antt =====
-- src/claim_triage/core_sim/store.py: a retry, whatever was asked of the systems in between.
use claim_triage_agent.Common.{◌≡◌, String, some, List, [], ◌∷◌, arith}
use claim_triage_agent.Contract.{Uuid}
use claim_triage_agent.CoreSim.Tables.{
  Tables, Answer, Remembered, find_claim, find_policy, oldest_first, parties_of,
}
use claim_triage_agent.CoreSim.Store.{
  Request, Drawn, perform, model_of, write, request_fingerprint, read, read_policy, read_parties,
  require_claim, connection, ready, select_one,
}
use claim_triage_agent.CoreSim.Store.Keys.{
  known, KeepsKeys, Keeps, Keeps-idempotent, Keeps-perform, Keeps-query, Keeps-bind,
  known-connection,
}
use claim_triage_agent.CoreSim.Store.Recall.{write-Recalls}
use claim_triage_agent.CoreSim.Store.Retry.{IsCalm, rows, replay_answers}
use claim_triage_agent.Database.{Session, Store, ok, query}

-- An operation of the store.
pub data Call : Type 0 where
  writes : Request → String → Drawn → Call
  reads : Uuid → Call
  reads_policy : String → Call
  reads_parties : Uuid → Call
  checks : Call

-- The test on the row comes after the block, and changes nothing.
pub read_store :
    (id : Uuid) (w : Session Tables) (s : Store Tables)
    → (read id w s).1 ≡ (connection (query (λ t. find_claim id t.claims)) w s).1
unfolding read
read_store id w s = ground arith

pub read_policy_store :
    (number : String) (w : Session Tables) (s : Store Tables)
    → (read_policy number w s).1 ≡ (connection (query (λ t. find_policy number t.policies)) w s).1
unfolding read_policy
read_policy_store number w s = ground arith

module _ (dumps : Request → String) (sha256 : String → String) where
  unfoldable pub after : Call → Session Tables → Store Tables → Store Tables
  after (writes r key drawn) w s = (write dumps sha256 r key drawn w s).1
  after (reads id) w s = (read id w s).1
  after (reads_policy number) w s = (read_policy number w s).1
  after (reads_parties id) w s = (read_parties id w s).1
  after checks w s = (ready w s).1

  unfoldable pub after_all : List (Call × Session Tables) → Store Tables → Store Tables
  after_all [] s = s
  after_all ((call, w) ∷ rest) s = after_all rest (after call w s)

  -- Every session of a history keeps the keys that other connections have recorded.
  abbrev pub AllKeepKeys : List (Call × Session Tables) → Type 0
  AllKeepKeys [] = Unit
  AllKeepKeys ((call, w) ∷ rest) = KeepsKeys w × AllKeepKeys rest

  module _ (key : String) (m : Remembered) where
    Keeps-require_claim : (id : Uuid) → Keeps key m (require_claim id)
    unfolding require_claim
    Keeps-require_claim id = record { at = λ w tx kw h. ground arith }

    known-after :
        (call : Call) (w : Session Tables) (s : Store Tables)
        → KeepsKeys w
        → known key s.tables ≡ some m
        → known key (after call w s).tables ≡ some m
    unfolding after write read_parties ready
    known-after (writes r k drawn) w s kw h =
        known-connection key m _ w s
          (Keeps-idempotent key m k (request_fingerprint dumps sha256 r) (model_of r)
            (perform drawn r) (Keeps-perform key m drawn r))
          kw h
    known-after (reads id) w s kw h = rw (read_store id w s) (
        known-connection key m (query (λ t. find_claim id t.claims)) w s (Keeps-query key m _) kw h)
    known-after (reads_policy number) w s kw h = rw (read_policy_store number w s) (
        known-connection key m (query (λ t. find_policy number t.policies)) w s
          (Keeps-query key m _) kw h)
    known-after (reads_parties id) w s kw h =
        known-connection key m _ w s
          (Keeps-bind key m (require_claim id)
            (λ _. query (λ t. oldest_first (parties_of id t.parties))) (Keeps-require_claim id)
            (λ _. Keeps-query key m _))
          kw h
    known-after checks w s kw h =
        known-connection key m select_one w s (record { at = λ w' tx _ h'. h' }) kw h

    known-after_all :
        (calls : List (Call × Session Tables)) (s : Store Tables)
        → AllKeepKeys calls
        → known key s.tables ≡ some m
        → known key (after_all calls s).tables ≡ some m
    unfolding after_all
    known-after_all [] s kw h = h
    known-after_all ((call, w) ∷ rest) s kw h =
        known-after_all rest (after call w s) kw.1 (known-after call w s kw.0 h)

  -- A write that returned is repeated under its key, after any operations in between and whatever
  -- failed in them: the repeat gets the first answer and adds no row.
  pub retry_answers :
      (r : Request) (key : String) (drawn drawn' : Drawn) (w w' : Session Tables) (s : Store Tables)
      (a : Answer) (between : List (Call × Session Tables))
      → (write dumps sha256 r key drawn w s).0 ≡ ok a
      → AllKeepKeys between
      → IsCalm w'
      → ((write dumps sha256 r key drawn' w'
            (after_all between (write dumps sha256 r key drawn w s).1)).0
          ≡ ok a)
        × (rows
              (write dumps sha256 r key drawn' w'
                (after_all between (write dumps sha256 r key drawn w s).1)).1.tables
            ≡ rows (after_all between (write dumps sha256 r key drawn w s).1).tables)
  retry_answers r key drawn drawn' w w' s a between returned kw calm =
      let (m, held, same, valid) = write-Recalls dumps sha256 r key drawn w s a returned in
      let s' = (write dumps sha256 r key drawn w s).1 in
      replay_answers dumps sha256 r key drawn' w' (after_all between s') a calm
        (m, known-after_all key m between s' kw held, same, valid)

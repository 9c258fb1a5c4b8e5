-- ===== src/CoreSim/Store/Retry.antt =====
-- src/claim_triage/core_sim/store.py: what a key that was recorded answers later.
use claim_triage_agent.Common.{ℕ, ◌≡◌, ◌≢◌, ◌∙◌, true, String, Option, some, List, arith, eq_iff}
use claim_triage_agent.Contract.{Claim, ClaimDocument, ClaimParty}
use claim_triage_agent.CoreSim.Tables.{Tables, Answer, Remembered, schema, created}
use claim_triage_agent.CoreSim.Store.{
  Request, CoreError, idempotency_key_reuse, Drawn, Model, perform, replayed, answered_once,
  idempotent, model_of, connection, write, request_fingerprint,
}
use claim_triage_agent.CoreSim.Store.Keys.{known}
use claim_triage_agent.CoreSim.Store.Recall.{Recalls}
use claim_triage_agent.Database.{
  Session, Store, Tx, Work, ok, err, own, committed, begin, apply_schema,
}

-- A session in which nothing fails.
pub record IsCalm (w : Session Tables) : Type 0 where
  pub connects : w.connects ≡ true
  pub answers : (n : ℕ) → w.answers n ≡ true
  pub commits : w.commit ≡ committed

-- What the systems hold, but for the policies that the schema seeds.
abbrev pub rows :
    Option Tables → List Claim × List ClaimDocument × List ClaimParty × List Remembered
rows tables = let t = created tables in (t.claims, t.documents, t.parties, t.keys)

module _ (key fp : String) (model : Model) (m : Remembered) where
  -- A key that is recorded answers from its row, and writes nothing.
  idempotent-known :
      (p : Work Tables CoreError Answer) (w : Session Tables) (tx : Tx Tables)
      → IsCalm w
      → known key tx.seen ≡ some m
      → ((idempotent key fp model p w tx).0 ≡ (replayed key fp model m w tx).0)
        × ((idempotent key fp model p w tx).1.seen ≡ tx.seen)
        × ((idempotent key fp model p w tx).1.base ≡ tx.base)
  unfolding idempotent answered_once replayed
  idempotent-known p w tx calm held = ground (arith, calm.answers tx.statement)

-- The transaction that a block starts from, the schema applied.
abbrev opened : Session Tables → Store Tables → Tx Tables
opened w s = (apply_schema {E = CoreError} schema w (begin s)).1

known-opened :
    (key : String) (m : Remembered) (w : Session Tables) (s : Store Tables)
    → known key s.tables ≡ some m
    → known key (opened w s).seen ≡ some m
unfolding schema
known-opened key m w s held = ground arith

rows-opened :
    (w : Session Tables) (s : Store Tables)
    → (rows (opened w s).seen ≡ rows s.tables) × ((opened w s).base ≡ s.tables)
unfolding schema
rows-opened w s = ground arith

-- In a calm session a block that writes nothing decides the answer, and the rows stay.
connection-calm :
    {A : Type 0} (block : Work Tables CoreError A) (w : Session Tables) (s : Store Tables)
    → IsCalm w
    → (block w (opened w s)).1.seen ≡ (opened w s).seen
    → (block w (opened w s)).1.base ≡ (opened w s).base
    → ((connection block w s).0 ≡ (block w (opened w s)).0)
      × (rows (connection block w s).1.tables ≡ rows s.tables)
connection-calm block w s calm seen base = ground (arith, calm.answers 0, rows-opened w s)

module _ (dumps : Request → String) (sha256 : String → String) where
  -- A write under a recorded key comes to what the key's row says, and the rows stay.
  write-known :
      (r : Request) (key : String) (m : Remembered) (drawn : Drawn) (w : Session Tables)
      (s : Store Tables)
      → IsCalm w
      → known key s.tables ≡ some m
      → ((write dumps sha256 r key drawn w s).0
          ≡ (replayed key (request_fingerprint dumps sha256 r) (model_of r) m w (opened w s)).0)
        × (rows (write dumps sha256 r key drawn w s).1.tables ≡ rows s.tables)
  unfolding write
  write-known r key m drawn w s calm held =
      let p = perform drawn r in
      let once =
        idempotent-known key (request_fingerprint dumps sha256 r) (model_of r) m p w (opened w s)
          calm (known-opened key m w s held) in
      let ends =
        connection-calm (idempotent key (request_fingerprint dumps sha256 r) (model_of r) p) w s
          calm once.1 once.2 in
      (ends.0 ∙ once.0, ends.1)

  -- A key that answered one request refuses another, and nothing is written.
  pub reuse_refused :
      (r : Request) (key : String) (m : Remembered) (drawn : Drawn) (w : Session Tables)
      (s : Store Tables)
      → IsCalm w
      → known key s.tables ≡ some m
      → m.fingerprint ≢ request_fingerprint dumps sha256 r
      → ((write dumps sha256 r key drawn w s).0 ≡ err (own (idempotency_key_reuse key)))
        × (rows (write dumps sha256 r key drawn w s).1.tables ≡ rows s.tables)
  unfolding replayed
  reuse_refused r key m drawn w s calm held other =
      let ends = write-known r key m drawn w s calm held in
      (ends.0 ∙ ground (arith, eq_iff m.fingerprint (request_fingerprint dumps sha256 r)), ends.1)

  pub replay_answers :
      (r : Request) (key : String) (drawn : Drawn) (w : Session Tables) (s : Store Tables)
      (a : Answer)
      → IsCalm w
      → Recalls s.tables key (request_fingerprint dumps sha256 r) (model_of r) a
      → ((write dumps sha256 r key drawn w s).0 ≡ ok a)
        × (rows (write dumps sha256 r key drawn w s).1.tables ≡ rows s.tables)
  unfolding replayed
  replay_answers r key drawn w s a calm (m, held, same, valid) =
      let ends = write-known r key m drawn w s calm held in
      (ends.0 ∙ ground (arith, eq_iff m.fingerprint (request_fingerprint dumps sha256 r)), ends.1)

-- ===== src/CoreSim/Store/Schema.antt =====
-- src/claim_triage/core_sim/store.py: the schema is applied in the transaction of the first
-- operation, and the store remembers that it was even where that transaction rolls back.
use claim_triage_agent.Common.{◌≡◌, true, false, String, none, List, [], ◌∷◌, arith}
use claim_triage_agent.Contract.{Uuid}
use claim_triage_agent.CoreSim.Tables.{Tables, schema, find_claim}
use claim_triage_agent.CoreSim.Store.{Request, Drawn, claim_not_found, read_parties, write, ready}
use claim_triage_agent.CoreSim.Store.History.{
  Call, writes, reads, reads_policy, reads_parties, checks, read_store, read_policy_store, after,
  after_all,
}
use claim_triage_agent.CoreSim.Store.Retry.{IsCalm}
use claim_triage_agent.Database.{Session, Store, err, own, db, undefined_table}

-- The store says that the tables are there, and they are not.
pub record IsLost (s : Store Tables) : Type 0 where
  pub untabled : s.tables ≡ none
  pub remembered : s.schema_applied ≡ true

-- The first operation on a fresh database asks for the parties of a claim: the refusal rolls the
-- schema back.
read_parties-IsLost :
    (id : Uuid) (w : Session Tables) (s : Store Tables)
    → IsCalm w
    → s.tables ≡ none
    → s.schema_applied ≡ false
    → ((read_parties id w s).0 ≡ err (own (claim_not_found id))) × IsLost (read_parties id w s).1
unfolding read_parties schema find_claim
read_parties-IsLost id w s calm untabled fresh = (
  ground (arith, calm.answers 0, calm.answers 1),
  record {
    untabled = ground (arith, calm.answers 0, calm.answers 1);
    remembered = ground (arith, calm.answers 0, calm.answers 1);
  },
)

parties-IsLost :
    (id : Uuid) (w : Session Tables) (s : Store Tables)
    → IsCalm w
    → IsLost s
    → IsLost (read_parties id w s).1
unfolding read_parties
parties-IsLost id w s calm lost = record {
  untabled = ground (arith, calm.answers 0);
  remembered = ground (arith, calm.answers 0);
}

checked-IsLost :
    (w : Session Tables) (s : Store Tables) → IsCalm w → IsLost s → IsLost (ready w s).1
unfolding ready
checked-IsLost w s calm lost = record {
  untabled = ground (arith, calm.answers 0);
  remembered = ground (arith, calm.answers 0);
}

module _ (dumps : Request → String) (sha256 : String → String) where
  -- From then on every write fails on the tables that are not there, while readiness says yes, and
  -- the store stays so.
  write-IsLost :
      (r : Request) (key : String) (drawn : Drawn) (w : Session Tables) (s : Store Tables)
      → IsCalm w
      → IsLost s
      → ((write dumps sha256 r key drawn w s).0 ≡ err (db undefined_table))
        × IsLost (write dumps sha256 r key drawn w s).1
  unfolding write
  write-IsLost r key drawn w s calm lost = (
    ground (arith, calm.answers 0),
    record {
      untabled = ground (arith, calm.answers 0);
      remembered = ground (arith, calm.answers 0);
    },
  )

  ready-IsLost :
      (w : Session Tables) (s : Store Tables) → IsCalm w → IsLost s → (ready w s).0 ≡ true
  unfolding ready
  ready-IsLost w s calm lost = ground (arith, calm.answers 0)

  -- No operation brings the tables back.
  after-IsLost :
      (call : Call) (w : Session Tables) (s : Store Tables)
      → IsCalm w
      → IsLost s
      → IsLost (after dumps sha256 call w s)
  unfolding after
  after-IsLost (writes r key drawn) w s calm lost = (write-IsLost r key drawn w s calm lost).1
  after-IsLost (reads id) w s calm lost =
      let same = read_store id w s in
      record {
        untabled = ground (arith, calm.answers 0, same);
        remembered = ground (arith, calm.answers 0, same);
      }
  after-IsLost (reads_policy number) w s calm lost =
      let same = read_policy_store number w s in
      record {
        untabled = ground (arith, calm.answers 0, same);
        remembered = ground (arith, calm.answers 0, same);
      }
  after-IsLost (reads_parties id) w s calm lost = parties-IsLost id w s calm lost
  after-IsLost checks w s calm lost = checked-IsLost w s calm lost

  -- Nothing else goes wrong in any session of a history.
  abbrev pub AllCalm : List (Call × Session Tables) → Type 0
  AllCalm [] = Unit
  AllCalm ((call, w) ∷ rest) = IsCalm w × AllCalm rest

  after_all-IsLost :
      (calls : List (Call × Session Tables)) (s : Store Tables)
      → AllCalm calls
      → IsLost s
      → IsLost (after_all dumps sha256 calls s)
  unfolding after_all
  after_all-IsLost [] s calm lost = lost
  after_all-IsLost ((call, w) ∷ rest) s calm lost =
      after_all-IsLost rest (after dumps sha256 call w s) calm.1 (after-IsLost call w s calm.0 lost)

  -- On a database that has no tables yet, a first operation that asks for the parties of a claim is
  -- refused and leaves no tables, and the store marked as if they were there. After it, and after any
  -- operations that follow it, every write fails on a missing table and readiness answers yes, where
  -- in none of these sessions anything else goes wrong.
  pub schema_lost :
      (id : Uuid) (w : Session Tables) (s : Store Tables) (calls : List (Call × Session Tables))
      (r : Request) (key : String) (drawn : Drawn) (w' : Session Tables)
      → IsCalm w
      → AllCalm calls
      → IsCalm w'
      → s.tables ≡ none
      → s.schema_applied ≡ false
      → let lost = (read_parties id w s).1 in
        let later = after_all dumps sha256 calls lost in
        ((read_parties id w s).0 ≡ err (own (claim_not_found id)))
        × IsLost lost
        × ((write dumps sha256 r key drawn w' later).0 ≡ err (db undefined_table))
        × ((ready w' later).0 ≡ true)
  schema_lost id w s calls r key drawn w' calm all_calm calm' untabled fresh =
      let (refused, lost) = read_parties-IsLost id w s calm untabled fresh in
      let still = after_all-IsLost calls _ all_calm lost in
      (refused, lost, (write-IsLost r key drawn w' _ calm' still).0, ready-IsLost w' _ calm' still)

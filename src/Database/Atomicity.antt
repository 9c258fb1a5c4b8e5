-- ===== src/Database/Atomicity.antt =====
-- What one connection's block leaves in the database: all that it wrote, or nothing.
use claim_triage_agent.Common.{◌≡◌, ◌⊎◌, true, some, arith}
use claim_triage_agent.Database.{
  Session, Store, Work, Raised, Result, ok, is_err, unacknowledged, begin, connected,
}

-- The call raised and the tables are as they were, or the tables are the ones written, and the call
-- returned or lost the acknowledgement of its commit.
abbrev pub AllOrNothing :
    {T E A : Type 0} → Session T → Store T → A → T → Result E A × Store T → Type 0
AllOrNothing w s a t (r, s') =
    (is_err r ≡ true) × (s'.tables ≡ s.tables)
    ⊎ (s'.tables ≡ some t) × ((r ≡ ok a) ⊎ (is_err r ≡ true) × (w.commit ≡ unacknowledged))

-- What a block did to its transaction.
abbrev pub Wrote : {T E A : Type 0} → Work T E A → Session T → Store T → A → T → Type 0
Wrote block w s a t =
    ((block w (begin s)).1.base ≡ s.tables)
    × ((is_err (block w (begin s)).0 ≡ true)
        ⊎ ((block w (begin s)).0 ≡ ok a) × ((block w (begin s)).1.seen ≡ some t))

pub connected_atomic :
    {T E A : Type 0} (unreachable : Raised E) (block : Work T E A) (w : Session T) (s : Store T)
    (a : A) (t : T)
    → Wrote block w s a t
    → AllOrNothing w s a t (connected unreachable block w s)
connected_atomic unreachable block w s a t h = ground arith

-- ===== src/Database.antt =====
-- A service's own tables as its store sees them: one connection for each operation, whose block
-- commits when it ends and rolls back when an exception leaves it. What the database and the network
-- choose is the `Session` of a call: whether a connection is made, whether each statement gets
-- through, what other connections commit in between, and how the commit ends.
pub mod Atomicity
pub mod Sequence
pub mod Keeping
use claim_triage_agent.Common.{
  ℕ, suc, Bool, true, false, Option, none, some, not, if◌then◌else◌, ◌≡◌, refl, ◌⊎◌, inl, inr,
}

-- The driver's exceptions that the stores can meet.
pub data DbError : Type 0 where
  operational unique_violation undefined_table : DbError

-- An exception: the driver's, or one that the store raises itself.
pub data Raised (E : Type 0) : Type 0 where
  db : DbError → Raised E
  own : E → Raised E

pub data Result (E A : Type 0) : Type 0 where
  ok : A → Result E A
  err : Raised E → Result E A

abbrev pub is_err : {E A : Type 0} → Result E A → Bool
is_err (ok a) = false
is_err (err e) = true

pub Result-cases :
    {E A : Type 0} (r : Result E A) → ((a : A) × (r ≡ ok a)) ⊎ ((e : Raised E) × (r ≡ err e))
Result-cases (ok a) = inl (a, refl)
Result-cases (err e) = inr (e, refl)

-- How the commit at the end of a block ends. A lost acknowledgement raises, though it committed.
pub data Commit : Type 0 where
  committed refused unacknowledged : Commit

pub record Session (T : Type 0) : Type 0 where
  pub connects : Bool
  pub answers : ℕ → Bool
  pub meanwhile : T → T
  pub commit : Commit

-- The database, where the tables may not exist yet, and the store's own flag.
pub record Store (T : Type 0) : Type 0 where
  pub tables : Option T
  pub schema_applied : Bool

-- A transaction: what has been committed, what this connection sees, and the statements so far.
pub record Tx (T : Type 0) : Type 0 where
  pub base : Option T
  pub seen : Option T
  pub schema_applied : Bool
  pub statement : ℕ

abbrev pub Work : Type 0 → Type 0 → Type 0 → Type 0
Work T E A = Session T → Tx T → Result E A × Tx T

abbrev pub begin : {T : Type 0} → Store T → Tx T
begin s = record {
  base = s.tables;
  seen = s.tables;
  schema_applied = s.schema_applied;
  statement = 0;
}

module _ {T E : Type 0} where
  abbrev pub pure : {A : Type 0} → A → Work T E A
  pure a w tx = (ok a, tx)

  abbrev pub raise : {A : Type 0} → Raised E → Work T E A
  raise e w tx = (err e, tx)

  infixl 5 ◌>>=◌ ◌>>◌
  abbrev pub ◌>>=◌ : {A B : Type 0} → Work T E A → (A → Work T E B) → Work T E B
  ◌>>=◌ m f w tx = let (r, tx') = m w tx in elim r [ ok a ↦ f a w tx' | err e ↦ (err e, tx') ]

  abbrev pub ◌>>◌ : {B : Type 0} → Work T E (Unit {0}) → Work T E B → Work T E B
  m >> k = m >>= λ _. k

  -- One statement over the tables that this connection sees.
  abbrev pub execute : {A : Type 0} → (T → Result E A × T) → Work T E A
  execute f w tx =
      let tx' : Tx T = record tx { statement = suc tx.statement } in
      if not (w.answers tx.statement) then (err (db operational), tx') else elim tx.seen [
        | none ↦ (err (db undefined_table), tx')
        | some t ↦ let (r, t') = f t in (r, record tx' { seen = some t' })
      ]

  abbrev pub query : {A : Type 0} → (T → A) → Work T E A
  query f = execute (λ t. (ok (f t), t))

  abbrev pub update : (T → T) → Work T E (Unit {0})
  update f = execute (λ t. (ok tt, f t))

  -- An insert that a primary key may refuse.
  abbrev pub insert : (T → Bool) → (T → T) → Work T E (Unit {0})
  insert present f =
      execute (λ t. if present t then (err (db unique_violation), t) else (ok tt, f t))

  -- Other connections commit between two statements of this one, before it has written a row.
  abbrev pub others_commit : Work T E (Unit {0})
  others_commit w tx = elim tx.base [
    | none ↦ (ok tt, tx)
    | some b ↦ (
      ok tt,
      record tx {
        base = some (w.meanwhile b);
        seen = elim tx.seen [ none ↦ none | some t ↦ some (w.meanwhile t) ];
      },
    )
  ]

  abbrev pub rollback : Work T E (Unit {0})
  rollback w tx = (ok tt, record tx { seen = tx.base })

  -- `_apply_schema`: the flag is the store's, and survives a rollback of the tables.
  abbrev pub apply_schema : (Option T → T) → Work T E (Unit {0})
  apply_schema schema w tx =
      if tx.schema_applied
      then (ok tt, tx)
      else if not (w.answers tx.statement)
      then (err (db operational), record tx { statement = suc tx.statement })
      else (
        ok tt,
        record tx {
          seen = some (schema tx.seen);
          schema_applied = true;
          statement = suc tx.statement;
        },
      )

  -- The end of the block: commit, or roll back what an exception left.
  abbrev pub finish : {A : Type 0} → Commit → Result E A → Tx T → Result E A × Store T
  finish committed (ok a) tx =
      (ok a, record { tables = tx.seen; schema_applied = tx.schema_applied })
  finish refused (ok a) tx =
      (err (db operational), record { tables = tx.base; schema_applied = tx.schema_applied })
  finish unacknowledged (ok a) tx =
      (err (db operational), record { tables = tx.seen; schema_applied = tx.schema_applied })
  finish _ (err e) tx = (err e, record { tables = tx.base; schema_applied = tx.schema_applied })

  abbrev pub connected :
      {A : Type 0} → Raised E → Work T E A → Session T → Store T → Result E A × Store T
  connected unreachable block w s =
      let (r, tx) = block w (begin s) in
      if w.connects then finish w.commit r tx else (err unreachable, s)

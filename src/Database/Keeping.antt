-- ===== src/Database/Keeping.antt =====
-- An invariant of the tables, through the blocks of a store: what is committed and what a connection
-- sees both have it.
use claim_triage_agent.Common.{inl, inr, Option, none, some, arith, Option-cases}
use claim_triage_agent.Database.{
  Session, Store, Tx, Work, Raised, Result-cases, ◌>>=◌, query, others_commit, pure, raise,
  rollback, apply_schema, begin, connected,
}

module _ {T : Type 0} (Good : T → Type 0) where
  abbrev pub Held : Option T → Type 0
  Held none = Unit
  Held (some t) = Good t

  abbrev pub TxHeld : Tx T → Type 0
  TxHeld tx = Held tx.base × Held tx.seen

  -- What other connections commit has the invariant too.
  abbrev pub OthersKeep : Session T → Type 0
  OthersKeep w = (t : T) → Good t → Good (w.meanwhile t)

module _ {T E : Type 0} (Good : T → Type 0) where
  pub record Keeping {A : Type 0} (block : Work T E A) : Type 0 where
    pub at :
        (w : Session T) (tx : Tx T)
        → OthersKeep Good w
        → TxHeld Good tx
        → TxHeld Good (block w tx).1

  pub Keeping-bind :
      {A B : Type 0} (block : Work T E A) (rest : A → Work T E B)
      → Keeping block
      → ((a : A) → Keeping (rest a))
      → Keeping (block >>= rest)
  Keeping-bind block rest kb kr = record {
    at = λ w tx kw h.
        let after = kb.at w tx kw h in
        elim (Result-cases (block w tx).0) [
          | inl (a, returned) ↦ let later = (kr a).at w (block w tx).1 kw after in ground arith
          | inr (e, raised) ↦ ground arith
        ];
  }

  pub Keeping-pure : {A : Type 0} (a : A) → Keeping (pure a)
  Keeping-pure a = record { at = λ w tx kw h. h }

  pub Keeping-raise : {A : Type 0} (e : Raised E) → Keeping (raise {A = A} e)
  Keeping-raise e = record { at = λ w tx kw h. h }

  pub Keeping-query : {A : Type 0} (f : T → A) → Keeping (query f)
  Keeping-query f = record { at = λ w tx kw h. ground arith }

  pub Keeping-rollback : Keeping rollback
  Keeping-rollback = record { at = λ w tx kw h. (h.0, h.0) }

  pub Keeping-others_commit : Keeping others_commit
  Keeping-others_commit = record {
    at = λ w tx kw h. elim (Option-cases tx.base) [
      | inl untabled ↦ ground arith
      | inr (b, tabled) ↦ elim (Option-cases tx.seen) [
        | inl unseen ↦ ground (arith, kw b)
        | inr (t, seen) ↦ ground (arith, kw b, kw t)
      ]
    ];
  }

  pub Keeping-apply_schema :
      (schema : Option T → T)
      → ((held : Option T) → Held Good held → Good (schema held))
      → Keeping (apply_schema schema)
  Keeping-apply_schema schema made = record { at = λ w tx kw h. ground (arith, made tx.seen) }

  -- Whatever a connection's block comes to.
  pub Held-connected :
      {A : Type 0} (unreachable : Raised E) (block : Work T E A) (w : Session T) (s : Store T)
      → Keeping block
      → OthersKeep Good w
      → Held Good s.tables
      → Held Good (connected unreachable block w s).1.tables
  Held-connected unreachable block w s kb kw h =
      let after = kb.at w (begin s) kw (h, h) in ground arith

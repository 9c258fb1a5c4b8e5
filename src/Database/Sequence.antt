-- ===== src/Database/Sequence.antt =====
-- How a block that returned went: each of its parts returned.
use claim_triage_agent.Common.{◌≡◌, inl, inr, arith}
use claim_triage_agent.Database.{Session, Tx, Work, ok, Result-cases, ◌>>=◌}

module _ {T E A B : Type 0} (m : Work T E A) (f : A → Work T E B) (w : Session T) (tx : Tx T) where
  pub bind-ok : (a : A) → (m w tx).0 ≡ ok a → (m >>= f) w tx ≡ f a w (m w tx).1
  bind-ok a e = ground arith

  pub bind-returned :
      (b : B)
      → ((m >>= f) w tx).0 ≡ ok b
      → (a : A) × ((m w tx).0 ≡ ok a) × ((m >>= f) w tx ≡ f a w (m w tx).1)
  bind-returned b h = elim (Result-cases (m w tx).0) [
    | inl (a, e) ↦ (a, e, bind-ok a e)
    | inr (e, raised) ↦ absurd (ground arith)
  ]

-- ===== src/CoreSim/Store/Keys.antt =====
-- src/claim_triage/core_sim/store.py: a key that was recorded stays recorded, with its response.
use claim_triage_agent.Common.{
  ◌≡◌, inl, inr, String, Option, none, some, List, [], ◌∷◌, ◌++◌, arith, eq_iff, Option-cases,
}
use claim_triage_agent.Contract.{
  Uuid, ClaimStatus, ClaimSubmission, ClaimDocumentSubmission, ClaimPartySubmission,
}
use claim_triage_agent.CoreSim.Tables.{Tables, Answer, Remembered, find_key, schema}
use claim_triage_agent.CoreSim.Store.{
  Request, create_claim, record_claim_status, attach_claim_document, record_claim_party, CoreError,
  Drawn, Model, create_row, status_row, document_row, party_row, perform, replayed, lost_race,
  race_answer, answered_once, on_unique_violation, remember, idempotent, connection,
}
use claim_triage_agent.Database.{
  Session, Store, Tx, Work, Raised, ◌>>=◌, query, others_commit, pure, raise, rollback,
  Result-cases, apply_schema, begin,
}

-- The row that the tables hold for a key, if they exist.
abbrev pub known : String → Option Tables → Option Remembered
known key none = none
known key (some t) = find_key key t.keys

-- Other connections do not take a recorded key back.
abbrev pub KeepsKeys : Session Tables → Type 0
KeepsKeys w =
    (key : String) (m : Remembered) (t : Tables)
    → find_key key t.keys ≡ some m
    → find_key key (w.meanwhile t).keys ≡ some m

pub find_key-append :
    (key : String) (m : Remembered) (ks more : List Remembered)
    → find_key key ks ≡ some m
    → find_key key (ks ++ more) ≡ some m
unfolding find_key
find_key-append key m [] more h = ground arith
find_key-append key m (r ∷ ks) more h = ground (arith, find_key-append key m ks more)

pub find_key_last :
    (key : String) (m : Remembered) (ks : List Remembered)
    → find_key key ks ≡ none
    → m.key ≡ key
    → find_key key (ks ++ m ∷ []) ≡ some m
unfolding find_key
find_key_last key m [] h e = ground (arith, eq_iff m.key key)
find_key_last key m (r ∷ ks) h e = ground (arith, find_key_last key m ks)

module _ (key : String) (m : Remembered) where
  -- Both what is committed and what the connection sees hold the row.
  abbrev pub TxKnows : Tx Tables → Type 0
  TxKnows tx = (known key tx.base ≡ some m) × (known key tx.seen ≡ some m)

  pub record Keeps {A : Type 0} (block : Work Tables CoreError A) : Type 0 where
    pub at :
        (w : Session Tables) (tx : Tx Tables) → KeepsKeys w → TxKnows tx → TxKnows (block w tx).1

  pub Keeps-bind :
      {A B : Type 0} (block : Work Tables CoreError A) (rest : A → Work Tables CoreError B)
      → Keeps block
      → ((a : A) → Keeps (rest a))
      → Keeps (block >>= rest)
  Keeps-bind block rest kb kr = record {
    at = λ w tx kw h.
        let after = kb.at w tx kw h in
        elim (Result-cases (block w tx).0) [
          | inl (a, returned) ↦ let later = (kr a).at w (block w tx).1 kw after in ground arith
          | inr (e, raised) ↦ ground arith
        ];
  }

  pub Keeps-pure : {A : Type 0} (a : A) → Keeps (pure a)
  Keeps-pure a = record { at = λ w tx kw h. h }

  pub Keeps-raise : {A : Type 0} (e : Raised CoreError) → Keeps (raise {A = A} e)
  Keeps-raise e = record { at = λ w tx kw h. h }

  pub Keeps-query : {A : Type 0} (f : Tables → A) → Keeps (query f)
  Keeps-query f = record { at = λ w tx kw h. ground arith }

  Keeps-rollback : Keeps rollback
  Keeps-rollback = record { at = λ w tx kw h. (h.0, h.0) }

  Keeps-others_commit : Keeps others_commit
  Keeps-others_commit = record {
    at = λ w tx kw h. elim (Option-cases tx.base) [
      | inl untabled ↦ ground arith
      | inr (b, tabled) ↦ elim (Option-cases tx.seen) [
        | inl unseen ↦ ground arith
        | inr (t, seen) ↦ ground (arith, kw key m b, kw key m t)
      ]
    ];
  }

  Keeps-create_row : (drawn : Drawn) (s : ClaimSubmission) → Keeps (create_row drawn s)
  unfolding create_row
  Keeps-create_row drawn s = record { at = λ w tx kw h. ground arith }

  Keeps-status_row : (drawn : Drawn) (id : Uuid) (s : ClaimStatus) → Keeps (status_row drawn id s)
  unfolding status_row
  Keeps-status_row drawn id s = record { at = λ w tx kw h. ground arith }

  Keeps-document_row :
      (drawn : Drawn) (id : Uuid) (s : ClaimDocumentSubmission) → Keeps (document_row drawn id s)
  unfolding document_row
  Keeps-document_row drawn id s = record { at = λ w tx kw h. ground arith }

  Keeps-party_row :
      (drawn : Drawn) (id : Uuid) (s : ClaimPartySubmission) → Keeps (party_row drawn id s)
  unfolding party_row
  Keeps-party_row drawn id s = record { at = λ w tx kw h. ground arith }

  pub Keeps-perform : (drawn : Drawn) (r : Request) → Keeps (perform drawn r)
  unfolding perform
  Keeps-perform drawn (create_claim s) = Keeps-create_row drawn s
  Keeps-perform drawn (record_claim_status id s) = Keeps-status_row drawn id s
  Keeps-perform drawn (attach_claim_document id s) = Keeps-document_row drawn id s
  Keeps-perform drawn (record_claim_party id s) = Keeps-party_row drawn id s

  Keeps-replayed :
      (k fp : String) (model : Model) (other : Remembered) → Keeps (replayed k fp model other)
  unfolding replayed
  Keeps-replayed k fp model other = record { at = λ w tx kw h. ground arith }

  Keeps-race_answer :
      (k fp : String) (model : Model) (found : Option Remembered)
      → Keeps (race_answer k fp model found)
  unfolding race_answer
  Keeps-race_answer k fp model none = Keeps-raise _
  Keeps-race_answer k fp model (some other) = Keeps-replayed k fp model other

  Keeps-lost_race : (k fp : String) (model : Model) → Keeps (lost_race k fp model)
  unfolding lost_race
  Keeps-lost_race k fp model = Keeps-bind _ _ Keeps-rollback λ _.
      Keeps-bind _ _ (Keeps-query (λ t. find_key k t.keys))
        λ found. Keeps-race_answer k fp model found

  Keeps-remember : (k fp : String) (a : Answer) → Keeps (remember k fp a)
  unfolding remember
  Keeps-remember k fp a = record {
    at = λ w tx kw h. elim (Option-cases tx.seen) [
      | inl unseen ↦ ground arith
      | inr (t, seen) ↦ ground (
        arith,
        find_key-append key m t.keys (record { key = k; fingerprint = fp; response = a } ∷ []),
      )
    ];
  }

  Keeps-on_unique_violation :
      {A : Type 0} (block handler : Work Tables CoreError A)
      → Keeps block
      → Keeps handler
      → Keeps (on_unique_violation block handler)
  Keeps-on_unique_violation block handler kb kh = record {
    at = λ w tx kw h.
        let after = kb.at w tx kw h in
        let handled = kh.at w (block w tx).1 kw after in ground arith;
  }

  Keeps-answered_once :
      (k fp : String) (model : Model) (p : Work Tables CoreError Answer) (found : Option Remembered)
      → Keeps p
      → Keeps (answered_once k fp model p found)
  unfolding answered_once
  Keeps-answered_once k fp model p (some first) kp = Keeps-replayed k fp model first
  Keeps-answered_once k fp model p none kp = Keeps-bind _ _ Keeps-others_commit λ _.
      Keeps-bind _ _ kp λ written.
        Keeps-on_unique_violation _ _
          (Keeps-bind _ _ (Keeps-remember k fp written) λ _. Keeps-pure written)
          (Keeps-lost_race k fp model)

  pub Keeps-idempotent :
      (k fp : String) (model : Model) (p : Work Tables CoreError Answer)
      → Keeps p
      → Keeps (idempotent k fp model p)
  unfolding idempotent
  Keeps-idempotent k fp model p kp =
      Keeps-bind _ _ (Keeps-query (λ t. find_key k t.keys))
        λ found. Keeps-answered_once k fp model p found kp

  Keeps-apply_schema : Keeps (apply_schema schema)
  unfolding schema
  Keeps-apply_schema = record {
    at = λ w tx kw h. elim (Option-cases tx.seen) [
      | inl unseen ↦ ground arith
      | inr (t, seen) ↦ ground arith
    ];
  }

  -- Whatever a connection's block comes to, the store still holds the row.
  pub known-connection :
      {A : Type 0} (block : Work Tables CoreError A) (w : Session Tables) (s : Store Tables)
      → Keeps block
      → KeepsKeys w
      → known key s.tables ≡ some m
      → known key (connection block w s).1.tables ≡ some m
  known-connection block w s kb kw h =
      let after =
        (Keeps-bind (apply_schema schema) (λ _. block) Keeps-apply_schema (λ _. kb)).at w (begin s)
          kw (h, h) in
      ground arith

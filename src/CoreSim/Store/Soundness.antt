-- ===== src/CoreSim/Store/Soundness.antt =====
-- src/claim_triage/core_sim/store.py: whatever is asked of the systems, the rows stay sound.
use claim_triage_agent.Common.{
  inl, inr, String, Option, none, some, List, [], ◌∷◌, ◌++◌, arith, Option-cases,
}
use claim_triage_agent.Contract.{Uuid}
use claim_triage_agent.CoreSim.Tables.{
  Tables, Answer, Remembered, find_claim, find_policy, find_key, oldest_first, parties_of, schema,
}
use claim_triage_agent.CoreSim.Store.{
  Request, create_claim, record_claim_status, attach_claim_document, record_claim_party, CoreError,
  Drawn, Model, perform, replayed, lost_race, race_answer, answered_once, on_unique_violation,
  remember, idempotent, connection, write, request_fingerprint, model_of, read_parties,
  require_claim, ready, select_one,
}
use claim_triage_agent.CoreSim.Store.History.{
  Call, writes, reads, reads_policy, reads_parties, checks, read_store, read_policy_store, after,
  after_all,
}
use claim_triage_agent.CoreSim.Store.Integrity.{
  IsSound, IsSound-keys, IsSound-schema, Keeping-create_row, Keeping-status_row,
  Keeping-document_row, Keeping-party_row,
}
use claim_triage_agent.Database.{Session, Store, Work, ◌>>=◌, query, apply_schema, db, operational}
use claim_triage_agent.Database.Keeping.{
  Held, OthersKeep, Keeping, Keeping-bind, Keeping-pure, Keeping-raise, Keeping-query,
  Keeping-rollback, Keeping-others_commit, Keeping-apply_schema, Held-connected,
}

Keeping-perform : (drawn : Drawn) (r : Request) → Keeping IsSound (perform drawn r)
unfolding perform
Keeping-perform drawn (create_claim s) = Keeping-create_row drawn s
Keeping-perform drawn (record_claim_status id s) = Keeping-status_row drawn id s
Keeping-perform drawn (attach_claim_document id s) = Keeping-document_row drawn id s
Keeping-perform drawn (record_claim_party id s) = Keeping-party_row drawn id s

Keeping-replayed :
    (k fp : String) (model : Model) (other : Remembered)
    → Keeping IsSound (replayed k fp model other)
unfolding replayed
Keeping-replayed k fp model other = record { at = λ w tx kw h. ground (arith, h.0, h.1) }

Keeping-race_answer :
    (k fp : String) (model : Model) (found : Option Remembered)
    → Keeping IsSound (race_answer k fp model found)
unfolding race_answer
Keeping-race_answer k fp model none = Keeping-raise IsSound _
Keeping-race_answer k fp model (some other) = Keeping-replayed k fp model other

Keeping-lost_race : (k fp : String) (model : Model) → Keeping IsSound (lost_race k fp model)
unfolding lost_race
Keeping-lost_race k fp model = Keeping-bind IsSound _ _ (Keeping-rollback IsSound) λ _.
    Keeping-bind IsSound _ _ (Keeping-query IsSound (λ t. find_key k t.keys))
      λ found. Keeping-race_answer k fp model found

Keeping-remember : (k fp : String) (a : Answer) → Keeping IsSound (remember k fp a)
unfolding remember
Keeping-remember k fp a = record {
  at = λ w tx kw h. elim (Option-cases tx.seen) [
    | inl unseen ↦ ground (arith, h.0, h.1, unseen)
    | inr (t, seen) ↦ ground (
      arith,
      h.0,
      h.1,
      seen,
      IsSound-keys t (t.keys ++ record { key = k; fingerprint = fp; response = a } ∷ []),
    )
  ];
}

Keeping-on_unique_violation :
    {A : Type 0} (block handler : Work Tables CoreError A)
    → Keeping IsSound block
    → Keeping IsSound handler
    → Keeping IsSound (on_unique_violation block handler)
Keeping-on_unique_violation block handler kb kh = record {
  at = λ w tx kw h.
      let after_block = kb.at w tx kw h in
      let handled = kh.at w (block w tx).1 kw after_block in ground arith;
}

Keeping-answered_once :
    (k fp : String) (model : Model) (p : Work Tables CoreError Answer) (found : Option Remembered)
    → Keeping IsSound p
    → Keeping IsSound (answered_once k fp model p found)
unfolding answered_once
Keeping-answered_once k fp model p (some first) kp = Keeping-replayed k fp model first
Keeping-answered_once k fp model p none kp =
    Keeping-bind IsSound _ _ (Keeping-others_commit IsSound) λ _.
      Keeping-bind IsSound _ _ kp λ written.
        Keeping-on_unique_violation _ _
          (Keeping-bind IsSound _ _ (Keeping-remember k fp written)
            λ _. Keeping-pure IsSound written)
          (Keeping-lost_race k fp model)

Keeping-idempotent :
    (k fp : String) (model : Model) (p : Work Tables CoreError Answer)
    → Keeping IsSound p
    → Keeping IsSound (idempotent k fp model p)
unfolding idempotent
Keeping-idempotent k fp model p kp =
    Keeping-bind IsSound _ _ (Keeping-query IsSound (λ t. find_key k t.keys))
      λ found. Keeping-answered_once k fp model p found kp

Held-connection :
    {A : Type 0} (block : Work Tables CoreError A) (w : Session Tables) (s : Store Tables)
    → Keeping IsSound block
    → OthersKeep IsSound w
    → Held IsSound s.tables
    → Held IsSound (connection block w s).1.tables
Held-connection block w s kb =
    Held-connected IsSound (db operational) (apply_schema schema >>= λ _. block) w s (
      Keeping-bind IsSound (apply_schema schema) (λ _. block)
        (Keeping-apply_schema IsSound schema IsSound-schema) (λ _. kb))

Keeping-require_claim : (id : Uuid) → Keeping IsSound (require_claim id)
unfolding require_claim
Keeping-require_claim id = record { at = λ w tx kw h. ground (arith, h.0, h.1) }

module _ (dumps : Request → String) (sha256 : String → String) where
  IsSound-after :
      (call : Call) (w : Session Tables) (s : Store Tables)
      → OthersKeep IsSound w
      → Held IsSound s.tables
      → Held IsSound (after dumps sha256 call w s).tables
  unfolding after write read_parties ready
  IsSound-after (writes r k drawn) w s kw h =
      Held-connection _ w s
        (Keeping-idempotent k (request_fingerprint dumps sha256 r) (model_of r) (perform drawn r)
          (Keeping-perform drawn r))
        kw h
  IsSound-after (reads id) w s kw h =
      rw (read_store id w s)
        (Held-connection (query (λ t. find_claim id t.claims)) w s (Keeping-query IsSound _) kw h)
  IsSound-after (reads_policy number) w s kw h = rw (read_policy_store number w s) (
      Held-connection (query (λ t. find_policy number t.policies)) w s (Keeping-query IsSound _) kw
        h)
  IsSound-after (reads_parties id) w s kw h =
      Held-connection _ w s
        (Keeping-bind IsSound (require_claim id)
          (λ _. query (λ t. oldest_first (parties_of id t.parties))) (Keeping-require_claim id)
          (λ _. Keeping-query IsSound _))
        kw h
  IsSound-after checks w s kw h =
      Held-connection select_one w s (record { at = λ w' tx _ h'. h' }) kw h

  -- Every session of a history keeps what other connections commit sound.
  abbrev pub AllKeepSound : List (Call × Session Tables) → Type 0
  AllKeepSound [] = Unit
  AllKeepSound ((call, w) ∷ rest) = OthersKeep IsSound w × AllKeepSound rest

  -- Whatever is asked of the systems, and whatever fails in it, every claim has its policy and is in
  -- the last status of its history, and every document and every party has its claim, if that was so
  -- before or if there was no table yet, and as long as what other connections commit keeps it so.
  pub after_all-IsSound :
      (calls : List (Call × Session Tables)) (s : Store Tables)
      → AllKeepSound calls
      → Held IsSound s.tables
      → Held IsSound (after_all dumps sha256 calls s).tables
  unfolding after_all
  after_all-IsSound [] s kw h = h
  after_all-IsSound ((call, w) ∷ rest) s kw h =
      after_all-IsSound rest (after dumps sha256 call w s) kw.1 (IsSound-after call w s kw.0 h)

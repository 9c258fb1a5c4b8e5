-- ===== src/CoreSim/Store/Recall.antt =====
-- src/claim_triage/core_sim/store.py: what a write that returned has recorded under its key.
use claim_triage_agent.Common.{
  ◌≡◌, refl, sym, ap, ◌∙◌, ◌⊎◌, inl, inr, String, Option, none, some, arith, eq_iff, Option-cases,
}
use claim_triage_agent.CoreSim.Tables.{Tables, Answer, Remembered, find_key, schema}
use claim_triage_agent.CoreSim.Store.{
  Request, create_claim, record_claim_status, attach_claim_document, record_claim_party, CoreError,
  Drawn, Model, validated, perform, create_row, status_row, document_row, party_row, replayed,
  race_answer, lost_race, remember, recorded_once, answered_once, idempotent, on_unique_violation,
  model_of, connection, write, request_fingerprint,
}
use claim_triage_agent.CoreSim.Store.Keys.{known, find_key_last}
use claim_triage_agent.Database.Sequence.{bind-returned}
use claim_triage_agent.Database.{
  Session, Store, Tx, Work, ok, ◌>>=◌, query, others_commit, begin, apply_schema,
}

-- The tables hold a row for the key that answers a request of this fingerprint and model.
abbrev pub Recalls : Option Tables → String → String → Model → Answer → Type 0
Recalls tables key fp model a =
    (m : Remembered) × (known key tables ≡ some m)
    × (m.fingerprint ≡ fp)
    × (validated model m.response ≡ some a)

-- Every write answers with a value of its request's model.
perform-validated :
    (drawn : Drawn) (r : Request) (w : Session Tables) (tx : Tx Tables) (a : Answer)
    → (perform drawn r w tx).0 ≡ ok a
    → validated (model_of r) a ≡ some a
unfolding perform create_row status_row document_row party_row validated model_of
perform-validated drawn (create_claim s) w tx a h = ground arith
perform-validated drawn (record_claim_status id s) w tx a h = ground arith
perform-validated drawn (attach_claim_document id s) w tx a h = ground arith
perform-validated drawn (record_claim_party id s) w tx a h = ground arith

on_unique_violation_cases :
    (m handler : Work Tables CoreError Answer) (w : Session Tables) (tx : Tx Tables) (a : Answer)
    → (on_unique_violation m handler w tx).0 ≡ ok a
    → ((m w tx).0 ≡ ok a) × (on_unique_violation m handler w tx ≡ m w tx)
      ⊎ (on_unique_violation m handler w tx ≡ handler w (m w tx).1)
on_unique_violation_cases m handler w tx a h = ground arith

module _ (key fp : String) (model : Model) where
  replayed-Recalls :
      (m : Remembered) (w : Session Tables) (tx : Tx Tables) (a : Answer)
      → known key tx.seen ≡ some m
      → (replayed key fp model m w tx).0 ≡ ok a
      → Recalls (replayed key fp model m w tx).1.seen key fp model a
  unfolding replayed
  replayed-Recalls m w tx a held h =
      (m, ground arith, ground (arith, eq_iff m.fingerprint fp), ground arith)

  query_key :
      (w : Session Tables) (tx : Tx Tables) (found : Option Remembered)
      → (query {E = CoreError} (λ t. find_key key t.keys) w tx).0 ≡ ok found
      → known key (query {E = CoreError} (λ t. find_key key t.keys) w tx).1.seen ≡ found
  query_key w tx found h = ground arith

  recorded_once-Recalls :
      (written a : Answer) (w : Session Tables) (tx : Tx Tables)
      → validated model written ≡ some written
      → (recorded_once key fp written w tx).0 ≡ ok a
      → Recalls (recorded_once key fp written w tx).1.seen key fp model a
  unfolding recorded_once remember
  recorded_once-Recalls written a w tx valid h = elim (Option-cases tx.seen) [
    | inl unseen ↦ absurd (ground arith)
    | inr (t, seen) ↦ elim (Option-cases (find_key key t.keys)) [
      | inr (m, held) ↦ absurd (ground arith)
      | inl absent ↦
          let m : Remembered = record { key = key; fingerprint = fp; response = written } in
          (m, ground (arith, find_key_last key m t.keys absent refl), refl, ground arith)
    ]
  ]

  race_answer-Recalls :
      (found : Option Remembered) (w : Session Tables) (tx : Tx Tables) (a : Answer)
      → known key tx.seen ≡ found
      → (race_answer key fp model found w tx).0 ≡ ok a
      → Recalls (race_answer key fp model found w tx).1.seen key fp model a
  unfolding race_answer
  race_answer-Recalls none w tx a held h = absurd (ground arith)
  race_answer-Recalls (some m) w tx a held h = replayed-Recalls m w tx a held h

  -- A block that looks the key up and goes on.
  looked_up-Recalls :
      (rest : Option Remembered → Work Tables CoreError Answer)
      → ((found : Option Remembered) (w : Session Tables) (tx : Tx Tables) (a : Answer)
          → known key tx.seen ≡ found
          → (rest found w tx).0 ≡ ok a
          → Recalls (rest found w tx).1.seen key fp model a)
      → (w : Session Tables) (tx : Tx Tables) (a : Answer)
      → ((query (λ t. find_key key t.keys) >>= rest) w tx).0 ≡ ok a
      → Recalls ((query (λ t. find_key key t.keys) >>= rest) w tx).1.seen key fp model a
  looked_up-Recalls rest recalls w tx a h =
      let (found, read, step) = bind-returned (query (λ t. find_key key t.keys)) rest w tx a h in
      rw (ap (λ x. x.1.seen) step)
        (recalls found w _ a (query_key w tx found read) (sym (ap (λ x. x.0) step) ∙ h))

  lost_race-Recalls :
      (w : Session Tables) (tx : Tx Tables) (a : Answer)
      → (lost_race key fp model w tx).0 ≡ ok a
      → Recalls (lost_race key fp model w tx).1.seen key fp model a
  unfolding lost_race
  lost_race-Recalls w tx a h =
      looked_up-Recalls (race_answer key fp model) race_answer-Recalls w
        (record tx { seen = tx.base }) a h

  on_unique_violation-Recalls :
      (written a : Answer) (w : Session Tables) (tx : Tx Tables)
      → validated model written ≡ some written
      → (on_unique_violation (recorded_once key fp written) (lost_race key fp model) w tx).0 ≡ ok a
      → Recalls
          (on_unique_violation (recorded_once key fp written) (lost_race key fp model) w tx).1.seen
          key
          fp
          model
          a
  on_unique_violation-Recalls written a w tx valid h =
      elim (on_unique_violation_cases (recorded_once key fp written) (lost_race key fp model) w tx a
        h) [
          | inl (returned, same) ↦
              rw (ap (λ x. x.1.seen) same) (recorded_once-Recalls written a w tx valid returned)
          | inr handled ↦
              rw (ap (λ x. x.1.seen) handled)
                (lost_race-Recalls w _ a (sym (ap (λ x. x.0) handled) ∙ h))
        ]

  answered_once-Recalls :
      (p : Work Tables CoreError Answer)
      → ((w : Session Tables) (tx : Tx Tables) (a : Answer)
          → (p w tx).0 ≡ ok a
          → validated model a ≡ some a)
      → (found : Option Remembered) (w : Session Tables) (tx : Tx Tables) (a : Answer)
      → known key tx.seen ≡ found
      → (answered_once key fp model p found w tx).0 ≡ ok a
      → Recalls (answered_once key fp model p found w tx).1.seen key fp model a
  unfolding answered_once
  answered_once-Recalls p valid (some m) w tx a held h = replayed-Recalls m w tx a held h
  answered_once-Recalls p valid none w tx a held h =
      let keyed = λ (written : Answer).
        on_unique_violation (recorded_once key fp written) (lost_race key fp model) in
      let (_, others, step) = bind-returned others_commit (λ _. p >>= keyed) w tx a h in
      let tx' = (others_commit {E = CoreError} w tx).1 in
      let h' = sym (ap (λ x. x.0) step) ∙ h in
      let (written, returned, step') = bind-returned p keyed w tx' a h' in
      rw (ap (λ x. x.1.seen) (step ∙ step')) (
        on_unique_violation-Recalls written a w (p w tx').1 (valid w tx' written returned)
          (sym (ap (λ x. x.0) step') ∙ h'))

  idempotent-Recalls :
      (p : Work Tables CoreError Answer)
      → ((w : Session Tables) (tx : Tx Tables) (a : Answer)
          → (p w tx).0 ≡ ok a
          → validated model a ≡ some a)
      → (w : Session Tables) (tx : Tx Tables) (a : Answer)
      → (idempotent key fp model p w tx).0 ≡ ok a
      → Recalls (idempotent key fp model p w tx).1.seen key fp model a
  unfolding idempotent
  idempotent-Recalls p valid w tx a h =
      looked_up-Recalls (answered_once key fp model p) (answered_once-Recalls p valid) w tx a h

connected_returned :
    {A : Type 0} (block : Work Tables CoreError A) (w : Session Tables) (s : Store Tables) (a : A)
    → (connection block w s).0 ≡ ok a
    → ((block w (apply_schema {E = CoreError} schema w (begin s)).1).0 ≡ ok a)
      × ((connection block w s).1.tables
          ≡ (block w (apply_schema {E = CoreError} schema w (begin s)).1).1.seen)
connected_returned block w s a h = ground arith

-- Once a write has returned, the store holds the answer under the write's key.
pub write-Recalls :
    (dumps : Request → String) (sha256 : String → String) (r : Request) (key : String)
    (drawn : Drawn) (w : Session Tables) (s : Store Tables) (a : Answer)
    → (write dumps sha256 r key drawn w s).0 ≡ ok a
    → Recalls
        (write dumps sha256 r key drawn w s).1.tables
        key
        (request_fingerprint dumps sha256 r)
        (model_of r)
        a
unfolding write
write-Recalls dumps sha256 r key drawn w s a h =
    let fp = request_fingerprint dumps sha256 r in
    let block = idempotent key fp (model_of r) (perform drawn r) in
    let (returned, left) = connected_returned block w s a h in
    rw left (
      idempotent-Recalls key fp (model_of r) (perform drawn r) (perform-validated drawn r) w _ a
        returned)

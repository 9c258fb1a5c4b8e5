-- ===== src/Model/Reproduced.antt =====
-- The answers of a fixture set are those that its files record.
use mathlib.Core.Option.{some_inj}
use claim_triage_agent.Common.{
  ◌≡◌, sym, ap, ◌∙◌, ◌↔◌, ◌⊎◌, inl, inr, String, Option, none, some, List, [], ◌∷◌, arith, eq_iff,
  Option-cases, string_equality,
}
use claim_triage_agent.Dict.{Dict, get, put}
use claim_triage_agent.Dict.Laws.{get-put}
use claim_triage_agent.Model.{ModelCall, Shapes, Hashing, answer, fingerprint_of}
use claim_triage_agent.Model.Replay.{
  ReplayFixture, RecordedCall, fixtures, fixture_fingerprint, read_fixture, read_files,
  read_fixtures, replay,
}

same_recorded :
    {J : Type 0} (a b : RecordedCall J) → a.fixture ≡ b.fixture → a.path ≡ b.path → a ≡ b
same_recorded a b e p = λ i. record { fixture = e i; path = p i }

module _ {J : Type 0} (hashing : Hashing) (parse : String → Option (ReplayFixture J)) where
  abbrev key_of : ReplayFixture J → String
  key_of f = fixture_fingerprint hashing parse f

  -- A file holds the recorded fixture, and a file of a directory does.
  abbrev pub Holds : String × Option String → RecordedCall J → Type 0
  Holds file r = (read_fixture hashing parse file.1 ≡ some r.fixture) × (file.0 ≡ r.path)

  abbrev pub Records : List (String × Option String) → String → RecordedCall J → Type 0
  Records [] key r = ⊥
  Records (file ∷ files) key r = (Holds file r × (key_of r.fixture ≡ key)) ⊎ Records files key r

  new_iff :
      (file : String × Option String) (f : ReplayFixture J) (r : RecordedCall J)
      → read_fixture hashing parse file.1 ≡ some f
      → Holds file r ↔ (record { fixture = f; path = file.0 } ≡ r)
  new_iff file f r parsed = (
    (λ h.
        same_recorded record { fixture = f; path = file.0 } r (some_inj.0 (sym parsed ∙ h.0)) h.1),
    (λ e. (
      parsed ∙ ap (λ (x : RecordedCall J). some x.fixture) e,
      ap (λ (x : RecordedCall J). x.path) e,
    )),
  )

  -- What one more file adds.
  put_iff :
      (file : String × Option String) (f : ReplayFixture J) (recorded : Dict (RecordedCall J))
      (key : String) (r : RecordedCall J)
      → read_fixture hashing parse file.1 ≡ some f
      → get (key_of f) recorded ≡ none
      → (get key (put (key_of f) record { fixture = f; path = file.0 } recorded) ≡ some r)
        ↔ ((get key recorded ≡ some r) ⊎ (Holds file r × (key_of r.fixture ≡ key)))
  put_iff file f recorded key r parsed free =
      let new : RecordedCall J = record { fixture = f; path = file.0 } in
      ground (
        arith,
        get-put key (key_of f) new recorded,
        eq_iff (key_of f) key,
        new_iff file f r parsed,
        (λ (e : new ≡ r). ap (λ (x : RecordedCall J). key_of x.fixture) e),
        free,
      )

  -- What is read holds what was recorded, and what the files record.
  read_files-keeps :
      (files : List (String × Option String)) (recorded whole : Dict (RecordedCall J))
      (key : String) (r : RecordedCall J)
      → read_files hashing parse files recorded ≡ fixtures whole
      → (get key whole ≡ some r) ↔ ((get key recorded ≡ some r) ⊎ Records files key r)
  unfolding read_files
  read_files-keeps [] recorded whole key r h = ground (arith, h)
  read_files-keeps (file ∷ files) recorded whole key r h =
      elim (Option-cases (read_fixture hashing parse file.1)) [
        | inl none_parsed ↦ absurd (ground (arith, h, none_parsed, Option-cases file.1))
        | inr (f, parsed) ↦
            elim (Option-cases (get (fixture_fingerprint hashing parse f) recorded)) [
              | inr (other, there) ↦ absurd (ground (arith, h, parsed, there))
              | inl free ↦ ground (
                arith,
                put_iff file f recorded key r parsed free,
                read_files-keeps files
                    (put (key_of f) record { fixture = f; path = file.0 } recorded) whole key r
                    (ground (arith, h, parsed, free)),
              )
            ]
      ]

  recorded_iff :
      (files : List (String × Option String)) (recorded : Dict (RecordedCall J)) (key : String)
      (r : RecordedCall J)
      → read_fixtures hashing parse (some files) ≡ fixtures recorded
      → (get key recorded ≡ some r) ↔ Records files key r
  unfolding read_fixtures get
  recorded_iff files recorded key r h = ground (arith, read_files-keeps files [] recorded key r h)

-- A fixture set that is read answers a call with `a` exactly if a file of the directory records a
-- call of the same fingerprint, whose answer validates as `a` in the shape that the call asks for;
-- where the file is, and what it is called, has no part in it.
pub replay_iff :
    {J A : Type 0} (hashing : Hashing) (shapes : Shapes J A)
    (parse : String → Option (ReplayFixture J)) (files : List (String × Option String))
    (recorded : Dict (RecordedCall J)) (call : ModelCall) (a : A)
    → read_fixtures hashing parse (some files) ≡ fixtures recorded
    → (replay hashing shapes recorded call ≡ answer a) ↔ (
        (r : RecordedCall J) × Records hashing parse files (fingerprint_of hashing call) r
        × (shapes.model_validate call.answer_as r.fixture.answer ≡ some a))
unfolding read_fixtures replay
replay_iff hashing shapes parse files recorded call a h = (
  (λ e. elim (Option-cases (get (fingerprint_of hashing call) recorded)) [
    | inl nothing ↦ absurd (ground (arith, e, nothing))
    | inr (r, there) ↦ (
      r,
      (recorded_iff hashing parse files recorded (fingerprint_of hashing call) r h).0 there,
      ground
          (arith, e, there, Option-cases (shapes.model_validate call.answer_as r.fixture.answer)),
    )
  ]),
  λ found.
      let there =
        (recorded_iff hashing parse files recorded (fingerprint_of hashing call) found.0 h).1
          found.1 in
      ground (arith, there, found.2),
)

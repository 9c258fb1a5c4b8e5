-- ===== src/Model/Replay.antt =====
-- src/claim_triage/model/replay.py: the adapter that answers from recorded calls. A directory is the
-- files that its glob finds, sorted, each with its text, if it can be read and decoded.
use claim_triage_agent.Common.{String, Option, none, some, List, [], ◌∷◌}
use claim_triage_agent.Dict.{Dict, get, put}
use claim_triage_agent.Model.{
  ModelCall, Shapes, Hashing, Answered, answer, no_fixture, unusable_fixture, call_fingerprint,
  fingerprint_of,
}

pub record ReplayFixture (J : Type 0) : Type 0 where
  pub task : String
  pub content : String
  pub answer_as : String
  pub answer : J

-- `_Recorded`
pub record RecordedCall (J : Type 0) : Type 0 where
  pub fixture : ReplayFixture J
  pub path : String

-- How a fixture set is read: LookupError, UnusableFixture for a file that is no fixture and for two
-- that record the same call, or the exception of a file whose text cannot be read, which nothing
-- catches.
pub data FixtureSet (J : Type 0) : Type 0 where
  fixtures : Dict (RecordedCall J) → FixtureSet J
  no_directory : FixtureSet J
  malformed undecoded : String → FixtureSet J
  same_call : String → String → FixtureSet J

module _ {J : Type 0} (hashing : Hashing) (parse : String → Option (ReplayFixture J)) where
  unfoldable pub fixture_fingerprint : ReplayFixture J → String
  unfolding call_fingerprint
  fixture_fingerprint f = call_fingerprint hashing f.task f.content f.answer_as

  -- `_fixture`, of the text of a file if it can be read: what it holds, if it is a fixture.
  unfoldable pub read_fixture : Option String → Option (ReplayFixture J)
  read_fixture none = none
  read_fixture (some text) = parse text

  -- What a file that is no fixture raises.
  abbrev no_fixture_in : String × Option String → FixtureSet J
  no_fixture_in (path, none) = undecoded path
  no_fixture_in (path, some _) = malformed path

  -- The loop of `_read`, from what has been recorded.
  unfoldable pub read_files : List (String × Option String) → Dict (RecordedCall J) → FixtureSet J
  unfolding fixture_fingerprint read_fixture
  read_files [] recorded = fixtures recorded
  read_files (file ∷ files) recorded = elim (read_fixture file.1) [
    | none ↦ no_fixture_in file
    | some f ↦ elim (get (fixture_fingerprint f) recorded) [
      | some other ↦ same_call file.0 other.path
      | none ↦
          read_files files
            (put (fixture_fingerprint f) record { fixture = f; path = file.0 } recorded)
    ]
  ]

  -- `_read`
  unfoldable pub read_fixtures : Option (List (String × Option String)) → FixtureSet J
  unfolding read_files
  read_fixtures none = no_directory
  read_fixtures (some files) = read_files files []

module _ {J A : Type 0} (hashing : Hashing) (shapes : Shapes J A) where
  -- `ReplayModel.answer`
  unfoldable pub replay : Dict (RecordedCall J) → ModelCall → Answered A
  unfolding fingerprint_of
  replay recorded call = elim (get (fingerprint_of hashing call) recorded) [
    | none ↦ no_fixture call.task
    | some r ↦ elim (shapes.model_validate call.answer_as r.fixture.answer) [
      | none ↦ unusable_fixture r.path
      | some a ↦ answer a
    ]
  ]

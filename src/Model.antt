-- ===== src/Model.antt =====
-- src/claim_triage/model/port.py: a call into a model and what it ends with. Hashing is `json.dumps`
-- with sorted keys and SHA-256; `Shapes` is pydantic's validation and `json.loads`.
pub mod Replay
pub mod Provider
pub mod Select
pub mod Reproduced
mod Tests
use claim_triage_agent.Common.{ℕ, String, Option, List, [], ◌∷◌}
use claim_triage_agent.Dict.{Dict}

pub record ModelCall : Type 0 where
  pub task : String
  pub answer_as : String
  pub content : String

-- A shape that a call asks for: an instance of the class that `answer_as` names, from a document.
pub record Shapes (J A : Type 0) : Type 0 where
  pub model_validate : String → J → Option A
  pub loads : String → Option J

pub record Hashing : Type 0 where
  pub dumps : Dict String → String
  pub sha256 : String → String

-- How a call ends: an answer, or ModelUnavailable, NoFixture, ModelRefused and UnusableAnswer, with
-- UnusableFixture named by the file it came from.
pub data Answered (A : Type 0) : Type 0 where
  answer : A → Answered A
  unavailable : Answered A
  no_fixture : String → Answered A
  refused : ℕ → String → Answered A
  unusable : Answered A
  unusable_fixture : String → Answered A

module _ (hashing : Hashing) where
  unfoldable pub call_fingerprint : String → String → String → String
  call_fingerprint task content schema =
      hashing.sha256
        (hashing.dumps (("content", content) ∷ ("schema", schema) ∷ ("task", task) ∷ []))

  -- `ModelCall.fingerprint`
  unfoldable pub fingerprint_of : ModelCall → String
  unfolding call_fingerprint
  fingerprint_of call = call_fingerprint call.task call.content call.answer_as

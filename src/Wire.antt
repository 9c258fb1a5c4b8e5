-- ===== src/Wire.antt =====
-- What crosses HTTP between two of the processes. JSON documents are a type of the libraries', `J`;
-- a path is its segments, each as it was before it was quoted.
pub mod Samples
use claim_triage_agent.Common.{ℕ, String, Option, some, List, ◌≡◌}

-- The JSON of a model: `model_dump(mode="json")`, and `model_validate`, which may refuse.
pub record Codec (J A : Type 0) : Type 0 where
  pub dump : A → J
  pub validate : J → Option A

-- What was dumped validates as the value that it was.
abbrev pub ReadsBack : {J A : Type 0} → Codec J A → A → Type 0
ReadsBack codec a = codec.validate (codec.dump a) ≡ some a

pub record Message (J : Type 0) : Type 0 where
  pub method : String
  pub path : List String
  pub idempotency_key : Option String
  pub body : Option J

-- A body that is JSON, or one that is not.
pub data Body (J : Type 0) : Type 0 where
  json : J → Body J
  other : Body J

pub record Response (J : Type 0) : Type 0 where
  pub status_code : ℕ
  pub body : Body J

-- What sending a message comes to: a response, or the transport's error.
pub data Exchange (J : Type 0) : Type 0 where
  responded : Response J → Exchange J
  lost : String → Exchange J

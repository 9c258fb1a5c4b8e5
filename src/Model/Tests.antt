-- ===== src/Model/Tests.antt =====
-- A fixture set of one file, and the witnesses.
use claim_triage_agent.Common.{
  String, Option, none, some, List, [], ◌∷◌, ◌≡◌, refl, ◌↔◌, ◌==◌, if◌then◌else◌, string_equality,
}
use claim_triage_agent.Dict.{Dict, get, put}
use claim_triage_agent.Codegen.{joined}
use claim_triage_agent.Model.{ModelCall, Shapes, Hashing, answer, fingerprint_of, call_fingerprint}
use claim_triage_agent.Model.Replay.{ReplayFixture, RecordedCall, fixtures, read_fixtures, replay}
use claim_triage_agent.Model.Reproduced.{Records, replay_iff}
use claim_triage_agent.Model.Select.{
  ModelSettings, provider_adapter, replay_adapter, Directories, IsSelected, raised, configured,
  configured_builds, model_from, lookup_error, provider_named, built, drop_empty, can_answer,
}

abbrev texts_of : Dict String → List String
texts_of [] = []
texts_of (kv ∷ d) = kv.1 ∷ texts_of d

abbrev hashing : Hashing
hashing = record { dumps = λ d. joined "," (texts_of d); sha256 = λ s. s }

abbrev shapes : Shapes String String
shapes = record { model_validate = λ schema j. some j; loads = λ s. some s }

abbrev fixture : ReplayFixture String
fixture = record {
  task = "extract the amount";
  content = "paid: 12";
  answer_as = "Amount";
  answer = "12";
}

abbrev parse : String → Option (ReplayFixture String)
parse text = if text == "amount" then some fixture else none

abbrev files : List (String × Option String)
files = ("amount.json", some "amount") ∷ []

abbrev recorded : Dict (RecordedCall String)
recorded =
    (
      call_fingerprint hashing "extract the amount" "paid: 12" "Amount",
      record { fixture = fixture; path = "amount.json" },
    )
    ∷ []

abbrev call : ModelCall
call = record { task = "extract the amount"; answer_as = "Amount"; content = "paid: 12" }

read_once : read_fixtures hashing parse (some files) ≡ fixtures recorded
unfolding read_fixtures get put
read_once = refl

replay_iff_example : (replay hashing shapes recorded call ≡ answer "12") ↔ (
    (r : RecordedCall String) × Records hashing parse files (fingerprint_of hashing call) r
    × (shapes.model_validate call.answer_as r.fixture.answer ≡ some "12"))
replay_iff_example = replay_iff hashing shapes parse files recorded call "12" read_once

abbrev environment : Dict String
environment =
    ("provider", "provider")
    ∷ ("base_url", "http://localhost:11434/v1")
    ∷ ("name", "small")
    ∷ ("fixtures", "")
    ∷ []

abbrev settings : ModelSettings
settings = record {
  provider = provider_adapter;
  base_url = "http://localhost:11434/v1";
  name = "small";
  fixtures = "fixtures";
}

accepted_settings : configured "fixtures" environment ≡ some settings
unfolding configured drop_empty get provider_named built can_answer
accepted_settings = refl

abbrev directories : Directories
directories name = if name == "fixtures" then some files else none

configured_builds_example : IsSelected hashing parse directories settings
configured_builds_example =
    configured_builds hashing parse directories "fixtures" environment settings accepted_settings

-- An accepted setting whose directory is missing, and one whose files cannot be decoded.
missing_directory :
    model_from hashing parse directories
      (record settings { provider = replay_adapter; fixtures = "elsewhere" })
    ≡ lookup_error
unfolding model_from
missing_directory = refl

not_decoded :
    model_from hashing parse
      (λ _. some (("amount.json", none) ∷ []))
      (record settings { provider = replay_adapter })
    ≡ raised
unfolding model_from
not_decoded = refl

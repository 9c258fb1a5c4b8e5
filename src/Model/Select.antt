-- ===== src/Model/Select.antt =====
-- src/claim_triage/model/select.py, and the settings that it is built from in config.py.
use claim_triage_agent.Common.{
  ◌≡◌, ◌≢◌, refl, inl, inr, arith, Bool-cases, Option-cases, String, Bool, true, Option, none, some,
  List, [], ◌∷◌, eq_iff, ◌↔◌, not, ◌||◌, ◌==◌, if◌then◌else◌, string_equality,
}
use claim_triage_agent.Dict.{Dict, get, put}
use claim_triage_agent.Model.{Hashing}
use claim_triage_agent.Model.Replay.{
  ReplayFixture, RecordedCall, FixtureSet, fixtures, no_directory, malformed, undecoded, same_call,
  fixture_fingerprint, read_fixture, read_files, read_fixtures,
}

pub data ModelProvider : Type 0 where
  replay_adapter provider_adapter : ModelProvider

pub record ModelSettings : Type 0 where
  pub provider : ModelProvider
  pub base_url : String
  pub name : String
  pub fixtures : String

-- What is built: an adapter, the LookupError or UnusableFixture of one that cannot be, or an exception
-- that is neither.
pub data Model (J : Type 0) : Type 0 where
  replaying : Dict (RecordedCall J) → Model J
  asking : String → String → Model J
  lookup_error unusable raised : Model J

-- `ProviderModel.__init__`, as far as it can fail.
unfoldable pub provider_model : {J : Type 0} → String → String → Model J
provider_model base_url name =
    if base_url == "" || name == "" then lookup_error else asking base_url name

-- `ReplayModel.__init__`, of what `_read` comes to.
unfoldable pub replay_model : {J : Type 0} → FixtureSet J → Model J
replay_model (fixtures recorded) = replaying recorded
replay_model no_directory = lookup_error
replay_model (malformed _) = unusable
replay_model (same_call _ _) = unusable
replay_model (undecoded _) = raised

-- The files of a directory, if it is one.
abbrev pub Directories : Type 0
Directories = String → Option (List (String × Option String))

module _ {J : Type 0} (hashing : Hashing) (parse : String → Option (ReplayFixture J))
    (directories : Directories) where
  unfoldable pub model_from : ModelSettings → Model J
  unfolding provider_model replay_model read_fixtures
  model_from settings = elim settings.provider [
    | replay_adapter ↦ replay_model (read_fixtures hashing parse (directories settings.fixtures))
    | provider_adapter ↦ provider_model settings.base_url settings.name
  ]

-- `_an_empty_variable_is_unset`
unfoldable pub drop_empty : Dict String → Dict String
drop_empty [] = []
drop_empty (kv ∷ values) = let rest = drop_empty values in if kv.1 == "" then rest else kv ∷ rest

-- `_the_provider_adapter_needs_a_destination`
unfoldable pub can_answer : ModelSettings → Bool
can_answer settings = elim settings.provider [
  | replay_adapter ↦ true
  | provider_adapter ↦ not (settings.base_url == "" || settings.name == "")
]

-- The text of a field, where the environment has it or else its default.
abbrev pub or_default : String → Option String → String
or_default text none = text
or_default text (some value) = value

-- `ModelProvider(name)`
unfoldable pub provider_named : String → Option ModelProvider
provider_named name =
    if name == "replay"
    then some replay_adapter
    else if name == "provider"
    then some provider_adapter
    else none

-- The fields, from the variables that are set.
unfoldable pub built : String → ModelProvider → Dict String → ModelSettings
built default_fixtures provider set = record {
  provider = provider;
  base_url = or_default "" (get "base_url" set);
  name = or_default "" (get "name" set);
  fixtures = or_default default_fixtures (get "fixtures" set);
}

-- `ModelSettings()` of an environment, where `default_fixtures` is the directory of the repository: none
-- where the settings are refused.
unfoldable pub configured : String → Dict String → Option ModelSettings
configured default_fixtures environment =
    let set = drop_empty environment in
    elim (provider_named (or_default "replay" (get "provider" set))) [
      | none ↦ none
      | some provider ↦
          let settings = built default_fixtures provider set in
          if can_answer settings then some settings else none
    ]

accepted :
    (default_fixtures : String) (environment : Dict String) (settings : ModelSettings)
    → configured default_fixtures environment ≡ some settings
    → can_answer settings ≡ true
unfolding configured
accepted default_fixtures environment settings h =
    let set = drop_empty environment in
    elim (Option-cases (provider_named (or_default "replay" (get "provider" set)))) [
      | inl nameless ↦ absurd (ground (arith, h, nameless))
      | inr (provider, named) ↦
          elim (Bool-cases (can_answer (built default_fixtures provider set))) [
            | inl able ↦ ground (arith, h, named, able)
            | inr unable ↦ absurd (ground (arith, h, named, unable))
          ]
    ]

module _ {J : Type 0} (hashing : Hashing) (parse : String → Option (ReplayFixture J)) where
  -- A directory that is there is not missing, whatever its files hold.
  read_files-there :
      (files : List (String × Option String)) (recorded : Dict (RecordedCall J))
      → read_files hashing parse files recorded ≢ no_directory
  unfolding read_files
  read_files-there [] recorded h = ground (arith, h)
  read_files-there (file ∷ files) recorded h =
      elim (Option-cases (read_fixture hashing parse file.1)) [
        | inl nothing ↦ ground (arith, h, nothing, Option-cases file.1)
        | inr (f, held) ↦ elim (Option-cases (get (fixture_fingerprint hashing parse f) recorded)) [
          | inr (other, there) ↦ ground (arith, h, held, there)
          | inl free ↦
              read_files-there files
                (put (fixture_fingerprint hashing parse f) record { fixture = f; path = file.0 }
                  recorded)
                (ground (arith, h, held, free))
        ]
      ]

  replay_model-missing :
      (set : FixtureSet J) → (replay_model set ≡ lookup_error) ↔ (set ≡ no_directory)
  unfolding replay_model
  replay_model-missing (fixtures recorded) = ground arith
  replay_model-missing no_directory = ground arith
  replay_model-missing (malformed path) = ground arith
  replay_model-missing (same_call path other) = ground arith
  replay_model-missing (undecoded path) = ground arith

  missing_iff :
      (files : Option (List (String × Option String)))
      → (replay_model (read_fixtures hashing parse files) ≡ lookup_error) ↔ (files ≡ none)
  unfolding read_fixtures
  missing_iff none = ground (arith, replay_model-missing no_directory)
  missing_iff (some files) =
      ground
        (arith, replay_model-missing (read_files hashing parse files []), read_files-there files [])

  module _ (directories : Directories) where
    -- What accepted settings build.
    abbrev pub IsSelected : ModelSettings → Type 0
    IsSelected settings =
        ((settings.provider ≡ provider_adapter)
          → (model_from hashing parse directories settings ≡ asking settings.base_url settings.name)
            × (settings.base_url ≢ "")
            × (settings.name ≢ ""))
        × ((model_from hashing parse directories settings ≡ lookup_error)
            ↔ ((settings.provider ≡ replay_adapter) × (directories settings.fixtures ≡ none)))

    able-IsSelected :
        (settings : ModelSettings) (provider : ModelProvider)
        → settings.provider ≡ provider
        → can_answer settings ≡ true
        → IsSelected settings
    unfolding can_answer model_from provider_model
    able-IsSelected settings replay_adapter e h = (
      (λ other. absurd (ground (arith, e, other))),
      ground (arith, e, missing_iff (directories settings.fixtures)),
    )
    able-IsSelected settings provider_adapter e h =
        let endpoint = Bool-cases (settings.base_url == "") in
        let model = Bool-cases (settings.name == "") in
        (
          (λ _. (
            ground (arith, e, h, endpoint, model),
            (λ bare. ground (arith, e, h, bare, eq_iff settings.base_url "")),
            (λ bare. ground (arith, e, h, bare, eq_iff settings.name "")),
          )),
          ground (arith, e, h, endpoint, model),
        )

    -- Settings that are accepted build the provider that they select, which then has an endpoint and
    -- a model name; building them is a LookupError exactly if they select replay and the directory of
    -- the fixtures is missing.
    pub configured_builds :
        (default_fixtures : String) (environment : Dict String) (settings : ModelSettings)
        → configured default_fixtures environment ≡ some settings
        → IsSelected settings
    configured_builds default_fixtures environment settings h =
        able-IsSelected settings settings.provider refl
          (accepted default_fixtures environment settings h)

-- ===== src/Evaluation/Baselines.antt =====
-- src/claim_triage/evaluation/baselines.py: what a release tag recorded. A baseline that was read
-- has a record of every set, so its sets are a function of the capability.
use Prim.Native.String.{len, slice, ◌++◌ as str_append}
use claim_triage_agent.Common.{ℕ, Bool, String, [], ◌==◌, nat_equality, string_equality}
use claim_triage_agent.Dict.{Dict, only}
use claim_triage_agent.Evaluation.Measurements.{Capability, value_of}

pub record Settings : Type 0 where
  pub top_k : ℕ

pub record SetRecord : Type 0 where
  pub version : ℕ
  pub cases : ℕ

pub record Baseline (F : Type 0) : Type 0 where
  pub tag : String
  pub settings : Settings
  pub sets : Capability → SetRecord
  pub metrics : Dict F

-- `name.startswith(prefix)`
abbrev pub starts_with : String → String → Bool
starts_with prefix name = slice name 0 (len prefix) == prefix

-- `metrics_of`
unfoldable pub metrics_of : {F : Type 0} → Baseline F → Capability → Dict F
unfolding only
metrics_of baseline capability =
    only (starts_with (str_append (value_of capability) ".")) baseline.metrics

-- `unrecorded`, of sets of these versions and sizes
unfoldable pub unrecorded : {F : Type 0} → String → (Capability → SetRecord) → Settings → Baseline F
unrecorded tag sets settings = record { tag = tag; settings = settings; sets = sets; metrics = [] }

-- ===== src/Evaluation/Measurements.antt =====
-- src/claim_triage/evaluation/material.py and scoring.py: what a run hands to the gate.
use claim_triage_agent.Common.{ℕ, String}
use claim_triage_agent.Dict.{Dict}

pub data Capability : Type 0 where
  extraction retrieval classification : Capability

abbrev pub value_of : Capability → String
value_of Capability.extraction = "extraction"
value_of Capability.retrieval = "retrieval"
value_of Capability.classification = "classification"

pub data Reading : Type 0 where
  scored no_cases not_answered : Reading

pub record Measurement (F : Type 0) : Type 0 where
  pub capability : Capability
  pub version : ℕ
  pub reading : Reading
  pub cases : ℕ
  pub answered : ℕ
  pub metrics : Dict F

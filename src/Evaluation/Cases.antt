-- ===== src/Evaluation/Cases.antt =====
-- src/claim_triage/evaluation/sets.py and answers.py: what is scored, and what answered it.
use claim_triage_agent.Common.{ℕ, Bool, String, Option, List, nat_equality, string_equality}
use claim_triage_agent.Dict.{Dict}
use claim_triage_agent.Evaluation.Metrics.{Scalar}
use claim_triage_agent.Evaluation.Ranks.{ClauseRef}

pub record ExtractionCase : Type 0 where
  pub case_id : String
  pub fields : Dict Scalar

pub record RetrievalCase : Type 0 where
  pub case_id : String
  pub expected : List ClauseRef

pub record ClassificationCase : Type 0 where
  pub case_id : String
  pub fraud_positive : Bool
  pub fraud_risk : String
  pub severity : String
  pub queue : String

-- A set as it is scored; the description and the file that it was read from are not.
pub record GoldenSet (C : Type 0) : Type 0 where
  pub version : ℕ
  pub cases : List C

pub record Sets : Type 0 where
  pub extraction : GoldenSet ExtractionCase
  pub retrieval : GoldenSet RetrievalCase
  pub classification : GoldenSet ClassificationCase

pub record RetrievalAnswer : Type 0 where
  pub retrieved : List ClauseRef
  pub cited : List ClauseRef

pub record ClassificationAnswer (F : Type 0) : Type 0 where
  pub fraud_score : F
  pub fraud_risk : String
  pub severity : String
  pub queue : String

-- An extraction's answer is its fields.
pub record Answers (F : Type 0) : Type 0 where
  pub extraction : Option (Dict (Dict Scalar))
  pub retrieval : Option (Dict RetrievalAnswer)
  pub classification : Option (Dict (ClassificationAnswer F))

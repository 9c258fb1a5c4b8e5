-- ===== src/Evaluation.antt =====
-- src/claim_triage/evaluation: the measurements of a run, the baselines, and the release gate.
pub mod Measurements
pub mod Baselines
pub mod Gate
pub mod Ranks
pub mod Metrics
pub mod Cases
pub mod Readings
pub mod Extraction
pub mod Retrieval
pub mod Classification
pub mod Scoring
pub mod Material
pub mod Answers
pub mod Sets
pub mod Recording
pub mod Runner
mod Tests

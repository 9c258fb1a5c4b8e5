-- ===== src/Triage.antt =====
-- src/claim_triage/triage: the audit chain, the store's transaction and the pipeline.
pub mod Audit
pub mod Graph
pub mod Run
pub mod Store
pub mod Pipeline
pub mod Client
pub mod Surface
pub mod Systems
mod Tests

-- ===== src/Guards.antt =====
-- src/claim_triage/guards: the verdict vocabulary, the ingress checks and the rate limit.
pub mod Verdict
pub mod Ingress
pub mod RateLimit
mod Tests

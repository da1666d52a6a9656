-- ===== src/Service.antt =====
-- Resolution of one case (apps/api/src/service.py), around a graph that is given: the guardrails
-- before and after it, cost accounting, persistence and metrics.
pub mod Effects
pub mod Resolve
pub mod Outcome
pub mod Audit
pub mod Cases
pub mod Branches
pub mod Consistency
pub mod Whole
pub mod Concurrent
pub mod Trail

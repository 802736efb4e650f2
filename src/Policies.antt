-- ===== src/Policies.antt =====
-- apps/server/src/run-policies.ts: the policy evaluators.
pub mod Visited
pub mod Chain
pub mod Access
pub mod Budget
pub mod Cost
pub mod Risk

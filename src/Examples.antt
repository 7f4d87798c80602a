-- ===== src/Examples.antt =====
-- The theorems at concrete inputs.
pub mod Slack
pub mod Runtime
pub mod Routing
pub mod Plan
pub mod Approval
pub mod Chain
pub mod Worker
pub mod Runbook
pub mod Contract

-- ===== src/Approval.antt =====
-- The approval pipeline, approval-pipeline/ and slack_bot/services/approval_store.py.
pub mod Types
pub mod Safety
pub mod Store
pub mod Tier2
pub mod Tier3
pub mod Decide

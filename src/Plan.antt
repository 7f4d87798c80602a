-- ===== src/Plan.antt =====
-- orchestrator/plan.py: the plan that is shown before it runs, and its corrections.
pub mod Model
pub mod Waves
pub mod Verification
pub mod Patches
pub mod Correction
pub mod View
pub mod Service

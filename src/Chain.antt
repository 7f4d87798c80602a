-- ===== src/Chain.antt =====
-- The execution of a plan, `Orchestrator._execute_chain` and what it calls in
-- orchestrator/__init__.py.
pub mod Graph
pub mod Prompt
pub mod Machine
pub mod Conclusion

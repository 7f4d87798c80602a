-- ===== src/Runtime.antt =====
-- What keeps the orchestrator running: orchestrator/concurrency.py, liveness.py,
-- file_queue.py, and of __init__.py what becomes of held tasks.
pub mod Limiter
pub mod Liveness
pub mod Queue
pub mod Holds

-- ===== src/Runs.antt =====
-- The life of a run: src/hoursx/agents.py, orchestration.py, recovery.py and quotas.py.
pub mod Loop
pub mod Executor
pub mod Intake
pub mod Store
mod Tests

-- ===== src/Workflow.antt =====
-- The workflow engine: schemas/workflow.py, services/workflow_compiler.py, services/workflow_engine.py
-- and services/workflow_service.py under backend/lokilinux.
pub mod Types
pub mod Runs
pub mod Sync
pub mod Ready
pub mod Advance
pub mod Gates
pub mod Life
pub mod Compiler
pub mod Cycles
pub mod Validate
pub mod Versions
pub mod Start
pub mod Shell
mod Tests

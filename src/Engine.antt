-- ===== src/Engine.antt =====
-- Parts of the engine (internal/installer/engine/engine.go).
pub mod Taint
pub mod Tainted
pub mod Dependents
pub mod Checks
pub mod Handle
pub mod Pruned
pub mod Removed
pub mod Phase
pub mod Needed
pub mod TaintPhase
pub mod TaintKeys
pub mod NilTool
pub mod NoPanic
pub mod Node
pub mod NodeRuns
pub mod Executed
pub mod Plan
pub mod Planned
pub mod Installed

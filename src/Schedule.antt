-- ===== src/Schedule.antt =====
-- Nodes that run concurrently (executeNodesParallel and executeToolNodesWithDelegationSerialization of
-- internal/installer/engine/engine.go).
pub mod Defs
pub mod Apart
pub mod Locals
pub mod Invariant
pub mod Delegation
pub mod Start
pub mod Names
pub mod Distinct
pub mod Layer
pub mod Progress
pub mod Solo
pub mod Ends
pub mod Launch
pub mod Permits
pub mod Finishes
pub mod Launched
pub mod Loops

-- ===== src/Execute.antt =====
-- The execution of actions on a cached state (internal/installer/executor, and the removals of
-- internal/installer/engine/engine.go).
pub mod Cache
pub mod Run
pub mod Keeps
pub mod Removals
pub mod Frame

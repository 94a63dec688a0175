-- ===== src/State.antt =====
-- The state files and their differences (internal/state).
pub mod User
pub mod Diff
pub mod Changes
pub mod Entry
pub mod Keys

-- ===== src/Reconcile.antt =====
-- Reconciliation of desired resources with recorded state: internal/installer/reconciler.
pub mod Core
pub mod Comparators
pub mod Actions
pub mod Single

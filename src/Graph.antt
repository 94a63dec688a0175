-- ===== src/Graph.antt =====
-- Dependency resolution: internal/graph/dag.go and internal/graph/resolver.go.
pub mod Dag
pub mod Dfs
pub mod Walk
pub mod Cycle
pub mod Detect
pub mod WellFormed
pub mod Sort
pub mod Kahn
pub mod Release
pub mod Rounds
pub mod Layers
pub mod Topological
pub mod Resolver
pub mod Invariant
pub mod Edges
pub mod Build

-- ===== src/Lib.antt =====
-- tomei is a command that installs tools and language runtimes from declarative manifests. This library
-- models the part of it that decides what to do and keeps the record of what was done, and the installers
-- of tools and runtimes that do it.
--
-- The manifests are decoded to resources. The resolver turns them into a dependency graph and sorts
-- it into layers; the engine walks the layers, lets a reconciler compare each resource with the
-- recorded state, and hands the resulting actions to an executor, which calls an installer and updates
-- a cached state. At the end it removes what has a state but no resource.
--
-- Files and the code they model:
--   Base        lists as multisets, maps, the order of a `range` loop, Go's signed counters, and in Path
--               what is used of `path/filepath`
--   Resource    internal/resource: data of resources and states, dependencies, versions, taints,
--               Expand (ExpandSets), Parse (ParseRef), Package, Validate
--   Graph       internal/graph/dag.go, resolver.go: Dag (nodes and edges), Dfs (detectCycle), Sort
--               and Kahn (topologicalSort), Resolver (AddResource); the other children are proofs
--   Reconcile   internal/installer/reconciler: Core (Reconcile), Comparators
--   Io          actions on a world that may fail; Rules has what they keep and what they return
--   Extract     internal/installer/extract/extractor.go: the tar, zip and raw extractors
--   Install     World, RuntimeWorld: what the installers call of the world
--               internal/installer/place/placer.go: Place
--               internal/installer/tool/installer.go: Tool (Install, Remove), Download, FromRegistry,
--               Delegated, Fields, Names, and in Record the states that an installation records
--               internal/installer/runtime/installer.go: Runtime (Install, Remove), RuntimeDownload,
--               Links, Expand
--               internal/checksum/checksum.go, internal/installer/extract/extractor.go: Names
--               the other children are proofs
--   State       internal/state/state.go, diff.go: User (UserState), Diff (DiffUserStates)
--   Execute     internal/installer/executor: Cache (StateCache and the stores on it), Run (Execute),
--               and executeRemovals of internal/installer/engine/engine.go
--   Engine      internal/installer/engine/engine.go: Taint, Checks, Handle (handleRemovals), Node
--               (executeNode), TaintPhase (handleTaintedTools), Plan (PlanAll); the others are proofs
--   Schedule    internal/installer/engine/engine.go: Defs (the goroutines under one semaphore, as a
--               step relation), Launch (the loops that launch them, with the permits of the
--               semaphore) and Delegation (partitionToolsByDelegation); the others are proofs
--   Samples     concrete runs
--
-- A Go map is an association list. Go leaves the order of a `range` loop open, so a loop whose result
-- may depend on it takes a `RangeOrder`, whose laws say that each entry is met once; `in_order` is one.
-- A nil map is the empty map, a nil pointer is `none`; spec pointers and nodes are never nil, since the
-- code makes them where it makes the value. Strings and version kinds stay strings, because the state
-- file may hold any. A time is a number. Errors are texts, or the data that their text is made of.
-- The executor and the engine take installers as arguments, which act on a world of any type;
-- `GetBinPath`, `SetToolBinPaths` and `filepath.Dir` are fields of the same interfaces. The tool and the
-- runtime installer are such installers over any operating system, downloader, commands and archive
-- formats: an action takes the world and gives it back with a value or an error. A file is closed
-- without an effect, and a nil resource or state is the error of its dereference.
--
-- The recursion of detectCycle takes fuel, the number of nodes: each call colours a node that was
-- white, so it is enough. The walk up the `parent` map takes the same fuel, since it never leaves the
-- stack. The rounds of topologicalSort take the number of nodes, since each round finishes a node. The
-- theorems on these functions show that the fuel does not run out.
--
-- Sorting by the standard library (slices.SortFunc, sort.Strings) is an insertion sort with the same
-- comparison. The mutex of the state cache makes each of its operations one step. The goroutines of a
-- layer's tools take a step at each point where another may come between: the semaphore, `Load`, the
-- installer, `Save`. A dereferenced nil pointer and a failed type assertion are the value `panicked` of
-- `Run`.
--
-- Not modelled: events and logging, what a download, an archive, a file or a command does, the registry,
-- the manifest loader, the command line, and of the engine the walk over the layers (`Apply`) and the
-- phases of one layer (`executeLayer`).
pub mod Base
pub mod Resource
pub mod Graph
pub mod Reconcile
pub mod Install
pub mod State
pub mod Execute
pub mod Io
pub mod Extract
pub mod Engine
pub mod Schedule
pub mod Samples

-- ===== src/Lib.antt =====
-- ovecc indexes a repository into an architecture graph and answers questions about it: which
-- modules a change affects, which modules form cycles, which exports and files nothing uses. This
-- library models the parts of its crates that compute those answers and proves them correct.
--
-- Prelude holds shared lists, comparisons, sorted sets and maps, sorting, results that may be
-- errors, and groups of values. Text holds the methods of `str`; a string is the list of its
-- Unicode scalar values.
-- Core follows crates/ovecc-core/src: Legacy is legacy.rs, Language is lang.rs, Exit is error.rs,
-- Query is query.rs (the syntax of targets), Facts and Findings are facts.rs, Ids is `stable_id` of
-- util.rs, Coverage is coverage.rs (the LCOV reader), and Architecture is architecture.rs, with
-- `validate` in Validate and the assignment of files to components and slices in Assign.
-- Graph follows crates/ovecc-graph/src: Traversal is the breadth-first search that `impact`
-- (lib.rs, module Impact) and `blast_radius` (blast.rs, modules Blast and below) write out, and
-- Cycles is the enumeration of module cycles (cycles.rs). Resolution is resolution.rs: the
-- unresolved imports that bear on a target.
-- Rules follows crates/ovecc-rules/src: Specifier is `specifier_matches` (lib.rs), and Contract is
-- contract.rs, which judges the dependencies of a repository by the contract of Core.Architecture:
-- Classify holds the verdicts on one dependency, Requirements and Measures the others, and Baseline
-- what a freeze accepts, and the modes in which the check leaves that out. DeadCode is deadcode.rs:
-- which exports and files nothing uses, with the string literals that name a file in Literals, the
-- flags in Flags and `analyze` in Analysis.
-- Worklist is the loop of deadcode.rs that grows a set until it is closed.
--
-- A `while` loop over a queue runs on fuel. The fuel of the searches is one more than the number
-- of ends of edges, and the searches are proved to end within it, since a node enters the queue
-- once. The work lists of deadcode.rs have as fuel their own length and the number of targets of
-- edges. The fuel of the search for cycles is what its depth bound allows, and enough is proved
-- as well. Maps and sets in the order of their keys are sorted lists. The compiler of globs and
-- its matcher are external, and so are the floating-point operations, the digest behind an id
-- and the platform's test for rooted paths: they are parameters, of which nothing is assumed.
-- Numbers of fixed width that only count are unbounded, and a cast keeps its wrap-around.
-- Serialization, the database, Git, the parsers and the command line are not modelled; nor are
-- the blast radius's floating-point measures, the findings that the groups of the contract check are
-- rendered as, or the files that a contract and its baseline are kept in.
pub mod Prelude
pub mod Text
pub mod Worklist
pub mod Core
pub mod Graph
pub mod Rules

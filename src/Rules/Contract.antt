-- ===== src/Rules/Contract.antt =====
-- crates/ovecc-rules/src/contract.rs: the observed dependencies against the architecture contract.
-- What the violations are reported as is not modelled.
pub mod Classify
pub mod Requirements
pub mod Measures
pub mod Baseline
pub mod Freeze
pub mod Prune
pub mod Crossing
pub mod Prohibitions
pub mod Filling
pub mod Verdicts
pub mod Permitted
pub mod Edges
pub mod Collected
pub mod Required
pub mod Coupling
pub mod Bans
pub mod Banned
pub mod Leaves
pub mod Budgets
pub mod Sums
pub mod Floors
mod Tests
use ovecc.Prelude.{ℕ, List, [], Groups}
use ovecc.Text.{Text}
use ovecc.Core.Legacy.{DependencyRecord}
use ovecc.Core.Facts.{CapabilityFact, FunctionMetricsRow, CoChangedPair}
use ovecc.Core.Coverage.{FileCoverage, CoverageTotals}
use ovecc.Core.Architecture.{ArchitectureContract}

-- crates/ovecc-rules/src/lib.rs. Maps are association lists, sets are lists.
pub record ContractInput (F : Type 0) : Type 0 where
  pub contract : ArchitectureContract F
  pub component_of : List (Text × Text)
  pub files : List Text
  pub baseline : List Text
  pub slice_of : List (Text × Text)
  pub capability_uses : List (Text × CapabilityFact)
  pub functions : List FunctionMetricsRow
  pub co_changes : List (CoChangedPair F)
  pub coverage : List FileCoverage

pub record CapabilityUse : Type 0 where
  pub file : Text
  pub line : ℕ
  pub api : Text
  pub count : ℕ

abbrev pub Pair : Type 0
Pair = Text × Text

abbrev pub PairMap : Type 0
PairMap = Groups Pair DependencyRecord

pub record EdgeGroups (F : Type 0) : Type 0 where
  pub divergences : PairMap
  pub restricted : PairMap
  pub forbidden : PairMap
  pub required : Groups Pair Text
  pub bypasses : PairMap
  pub deprecated : PairMap
  pub banned : PairMap
  pub slices : PairMap
  pub capabilities : Groups Pair CapabilityUse
  pub budgets : Groups Pair (FunctionMetricsRow × ℕ)
  pub coupling : Groups Pair (CoChangedPair F)
  pub coverage : List (Text × (CoverageTotals × F))
  pub observed : List Pair

abbrev pub no_groups : {F : Type 0} → EdgeGroups F
no_groups = record {
  divergences = [];
  restricted = [];
  forbidden = [];
  required = [];
  bypasses = [];
  deprecated = [];
  banned = [];
  slices = [];
  capabilities = [];
  budgets = [];
  coupling = [];
  coverage = [];
  observed = [];
}

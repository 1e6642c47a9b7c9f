-- ===== src/Rules/Contract/Measures.antt =====
-- crates/ovecc-rules/src/contract.rs: the verdicts that need more than one dependency, and
-- `classify_edges`.
use ovecc.Prelude.{
  ℕ, Bool, false, ◌&&◌, ◌||◌, Option, none, some, List, [], ◌∷◌, ◌++◌, map, if◌then◌else◌, list_eqb,
  nat_eq, list_eq, pair_eq, nat_ord, list_ord, pair_ord, contains, lookup, keep_if, push_group,
  map_insert, map_entry, list_cmp, length, ltb, leb,
}
use Prim.Native.Nat.{Ordering}
use ovecc.Text.{Text, codes, is_some}
use ovecc.Core.Legacy.{DependencyRecord}
use ovecc.Core.Facts.{CapabilityFact, FunctionMetricsRow, CoChangedPair, as_str, capability_eq}
use ovecc.Core.Coverage.{Floats, FileCoverage, CoverageTotals, no_coverage, add, line_rate}
use ovecc.Core.Architecture.{target_of, ComponentSpec, component, severity}
use ovecc.Core.Architecture.Validate.{allows}
use ovecc.Rules.Contract.{ContractInput, Pair, EdgeGroups, no_groups}
use ovecc.Rules.Contract.Requirements.{classify_required}
use ovecc.Rules.Contract.Classify.{declared_interfaces, classify_dependencies}

abbrev pub min_coupled_file_pairs : ℕ
min_coupled_file_pairs = 2

module _ {F : Type 0} (architecture : ContractInput F) where
  -- The component that owns a file.
  abbrev pub owner_of : Text → Option (Text × ComponentSpec F)
  owner_of file = elim (lookup file architecture.component_of) [
    | none ↦ none
    | some name ↦ elim (component architecture.contract name) [
      | none ↦ none
      | some spec ↦ some (name, spec)
    ]
  ]

  unfoldable pub classify_capability_facts :
      List (Text × CapabilityFact) → EdgeGroups F → EdgeGroups F
  classify_capability_facts [] groups = groups
  classify_capability_facts ((file, fact) ∷ uses) groups =
      classify_capability_facts uses (elim (owner_of file) [
        | none ↦ groups
        | some (name, spec) ↦
            if contains fact.capability spec.deny_capabilities
            then record groups {
              capabilities =
                  push_group (name, as_str fact.capability)
                    (record { file = file; line = fact.line; api = fact.api; count = fact.count })
                    groups.capabilities;
            }
            else groups
      ])

  -- One metric of one function against its budget.
  unfoldable pub over_budget :
      Text
      → Text
      → FunctionMetricsRow
      → ℕ
      → Option ℕ
      → List (Pair × List (FunctionMetricsRow × ℕ))
      → List (Pair × List (FunctionMetricsRow × ℕ))
  over_budget name metric row value none budgets = budgets
  over_budget name metric row value (some budget) budgets =
      if ltb budget value then push_group (name, metric) (row, budget) budgets else budgets

  unfoldable pub classify_budgets : List FunctionMetricsRow → EdgeGroups F → EdgeGroups F
  unfolding over_budget
  classify_budgets [] groups = groups
  classify_budgets (row ∷ rows) groups = classify_budgets rows (elim (owner_of row.file_path) [
    | none ↦ groups
    | some (name, spec) ↦ record groups {
      budgets = over_budget name (codes "cognitive") row row.cognitive spec.max_cognitive (
          over_budget name (codes "cyclomatic") row row.cyclomatic spec.max_cyclomatic
            groups.budgets);
    }
  ])

  abbrev pub floors_from : List (Text × F) → List (ComponentSpec F) → List (Text × F)
  floors_from floors [] = floors
  floors_from floors (c ∷ cs) =
      floors_from
        (elim c.min_coverage [ none ↦ floors | some floor ↦ map_insert c.name floor floors ]) cs

  abbrev pub measured_from :
      List (Text × F)
      → List (Text × CoverageTotals)
      → List FileCoverage
      → List (Text × CoverageTotals)
  measured_from floors measured [] = measured
  measured_from floors measured (file ∷ files) =
      measured_from floors
        (elim (lookup file.path architecture.component_of) [
          | none ↦ measured
          | some name ↦
              if is_some (lookup name floors)
              then map_entry name no_coverage (λ totals. add totals file) measured
              else measured
        ])
        files

  -- The loop over the measured components. Each of them has a floor.
  abbrev pub under_floor :
      Floats F
      → List (Text × F)
      → List (Text × CoverageTotals)
      → List (Text × (CoverageTotals × F))
      → List (Text × (CoverageTotals × F))
  under_floor n floors [] coverage = coverage
  under_floor n floors ((name, totals) ∷ measured) coverage =
      under_floor n floors measured (elim (lookup name floors) [
        | none ↦ coverage
        | some floor ↦
            if ltb 0 totals.lines_found && n.lt_f (line_rate n totals) floor
            then map_insert name (totals, floor) coverage
            else coverage
      ])

  unfoldable pub classify_coverage : Floats F → EdgeGroups F → EdgeGroups F
  unfolding add line_rate
  classify_coverage n groups =
      let floors = floors_from [] architecture.contract.components in
      record groups {
        coverage =
            under_floor n floors (measured_from floors [] architecture.coverage) groups.coverage;
      }

  abbrev pub spec_allows : Text → Text → Bool
  spec_allows left right = elim (component architecture.contract left) [
    | none ↦ false
    | some spec ↦ allows spec right
  ]

  abbrev pub explained : List Pair → Text → Text → Bool
  explained connected left right =
      contains (left, right) connected
      || contains (right, left) connected
      || spec_allows left right
      || spec_allows right left

  -- The ordered pair of components that a change is counted for, if any, by those of its files.
  abbrev pub coupled_key : List Pair → Option Text → Option Text → Option Pair
  coupled_key connected none right = none
  coupled_key connected (some left) none = none
  coupled_key connected (some left) (some right) =
      if list_eqb left right || explained connected left right
      then none
      else some (elim (list_cmp left right) [ Ordering.lt ↦ (left, right) | _ ↦ (right, left) ])

  abbrev pub key_of : List Pair → CoChangedPair F → Option Pair
  key_of connected pair =
      coupled_key connected (lookup pair.left architecture.component_of)
        (lookup pair.right architecture.component_of)

  abbrev pub push_coupled :
      Option Pair
      → CoChangedPair F
      → List (Pair × List (CoChangedPair F))
      → List (Pair × List (CoChangedPair F))
  push_coupled none pair coupling = coupling
  push_coupled (some key) pair coupling = push_group key pair coupling

  abbrev pub couple :
      List Pair
      → List (CoChangedPair F)
      → List (Pair × List (CoChangedPair F))
      → List (Pair × List (CoChangedPair F))
  couple connected [] coupling = coupling
  couple connected (pair ∷ pairs) coupling =
      couple connected pairs (push_coupled (key_of connected pair) pair coupling)

  -- The pairs of components that some import connects.
  abbrev pub connected_by : EdgeGroups F → List Pair
  connected_by groups =
      groups.observed ++ map (λ g. g.0) groups.divergences ++ map (λ g. g.0) groups.bypasses

  unfoldable pub classify_coupling : EdgeGroups F → EdgeGroups F
  unfolding component severity target_of
  classify_coupling groups =
      let coupled = couple (connected_by groups) architecture.co_changes groups.coupling in
      if is_some (severity architecture.contract.coupling)
      then record groups {
        coupling = keep_if (λ g. leb min_coupled_file_pairs (length g.1)) coupled;
      }
      else groups

  unfoldable pub classify_edges : Floats F → List DependencyRecord → EdgeGroups F
  unfolding classify_dependencies classify_required classify_capability_facts classify_budgets
      classify_coverage classify_coupling declared_interfaces
  classify_edges n dependencies =
      let interfaces = declared_interfaces architecture.contract in
      let edges = classify_dependencies architecture interfaces dependencies no_groups in
      let required = classify_required architecture dependencies edges in
      let capabilities = classify_capability_facts architecture.capability_uses required in
      let budgets = classify_budgets architecture.functions capabilities in
      classify_coupling (classify_coverage n budgets)

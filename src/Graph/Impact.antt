-- ===== src/Graph/Impact.antt =====
-- `impact`, `neighbors`, `impact_risk` and `local_dependency_edges` of
-- crates/ovecc-graph/src/lib.rs: the module-level impact report. Its search is that of Traversal.
pub mod Touches
pub mod Reach
mod Tests
use ovecc.Prelude.{
  ℕ, ◌+◌, Bool, true, false, ◌&&◌, ◌||◌, not, Option, none, some, List, [], ◌∷◌, ◌++◌, map,
  if◌then◌else◌, leb, length, take, list_eqb, list_eq, nat_eq, list_ord, nat_ord, pair_ord,
  set_insert, find, keep_if,
}
use ovecc.Text.{Text, lower, eq_ignore_case, contains_text}
use ovecc.Core.Legacy.{
  DependencyRecord, ImpactDirection, ImpactReport, RiskLevel, low, medium, high, critical,
  looks_down, looks_up,
}
use ovecc.Graph.Traversal.{Search, search_from}
use ovecc.Graph.Blast.Radius.{Outcome, answer, out_of_fuel}

-- Neither external nor within one module.
abbrev pub is_local : DependencyRecord → Bool
is_local d = not d.is_external && not (list_eqb d.source_module d.target_module)

-- The body of the loop of `neighbors`.
unfoldable pub add_neighbors : Text → ImpactDirection → List Text → DependencyRecord → List Text
add_neighbors current direction found d =
    let with_source : List Text =
      if looks_down direction && list_eqb d.target_module current
      then set_insert d.source_module found
      else found in
    let with_target : List Text =
      if looks_up direction && list_eqb d.source_module current
      then set_insert d.target_module with_source
      else with_source in
    if is_local d then with_target else found

unfoldable pub neighbors_from :
    Text → ImpactDirection → List Text → List DependencyRecord → List Text
neighbors_from current direction found [] = found
neighbors_from current direction found (d ∷ ds) =
    neighbors_from current direction (add_neighbors current direction found d) ds

unfoldable pub neighbors : Text → ImpactDirection → List DependencyRecord → List Text
neighbors current direction dependencies = neighbors_from current direction [] dependencies

unfoldable pub impact_risk : ℕ → ℕ → RiskLevel
impact_risk affected_modules paths =
    if leb 20 affected_modules
    then critical
    else if leb 10 affected_modules
    then high
    else if leb 4 affected_modules || leb 6 paths
    then medium
    else low

unfoldable pub match_module : Text → List Text → Option Text
match_module target modules = elim (find (λ m. eq_ignore_case m target) modules) [
  | some m ↦ some m
  | none ↦ find (λ m. contains_text (lower target) (lower m)) modules
]

-- The modules of all records: they bound the rounds of the search.
abbrev pub record_ends : List DependencyRecord → List Text
record_ends [] = []
record_ends (d ∷ ds) = d.source_module ∷ d.target_module ∷ record_ends ds

unfoldable pub impact_search :
    Text → ImpactDirection → ℕ → List DependencyRecord → Option (Search Text)
impact_search start direction max_depth dependencies =
    search_from start (λ m. neighbors m direction dependencies) max_depth (record_ends dependencies)

-- The report of the early return, and the report at the end.
abbrev pub no_impact : Text → ImpactDirection → ImpactReport
no_impact target direction = record {
  target = target;
  matched_module = none;
  direction = direction;
  affected_modules = [];
  dependency_paths = [];
  risk_score = low;
}

abbrev pub impact_report : Text → ImpactDirection → Text → Search Text → ImpactReport
impact_report target direction start found = record {
  target = target;
  matched_module = some start;
  direction = direction;
  affected_modules = found.visited;
  dependency_paths = take 20 found.paths;
  risk_score = impact_risk (length found.visited) (length found.paths);
}

unfoldable pub impact :
    Text → ImpactDirection → ℕ → List Text → List DependencyRecord → Outcome ImpactReport
impact target direction max_depth modules dependencies = elim (match_module target modules) [
  | none ↦ answer (no_impact target direction)
  | some start ↦ elim (impact_search start direction max_depth dependencies) [
    | none ↦ out_of_fuel
    | some found ↦ answer (impact_report target direction start found)
  ]
]

-- `filter`, `map` and `collect` into a `BTreeSet`.
unfoldable pub edges_from : List (Text × Text) → List DependencyRecord → List (Text × Text)
edges_from found [] = found
edges_from found (d ∷ ds) =
    edges_from (if is_local d then set_insert (d.source_module, d.target_module) found else found)
      ds

unfoldable pub local_dependency_edges : List DependencyRecord → List (Text × Text)
unfolding edges_from
local_dependency_edges dependencies = edges_from [] dependencies

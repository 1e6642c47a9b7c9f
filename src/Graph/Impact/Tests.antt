-- ===== src/Graph/Impact/Tests.antt =====
-- A run of the module impact report, and its theorem there.
use ovecc.Prelude.{◌≡◌, refl, Bool, true, false, none, some, List, [], ◌∷◌}
use ovecc.Text.{Text, codes}
use ovecc.Core.Legacy.{DependencyRecord, ImpactReport, downstream, low}
use ovecc.Graph.Traversal.{search_from}
use ovecc.Graph.Blast.Radius.{answer}
use ovecc.Graph.Impact.{
  impact, impact_search, neighbors, neighbors_from, add_neighbors, match_module, impact_risk,
  local_dependency_edges,
}
use ovecc.Graph.Impact.Reach.{IsImpactOf, impact-affected}

abbrev dependency : Text → Text → Bool → DependencyRecord
dependency source target external = record {
  id = [];
  repository_id = [];
  source_file_id = [];
  target_file_id = none;
  source_file_path = [];
  target_file_path = none;
  source_module_id = [];
  target_module_id = [];
  source_module = source;
  target_module = target;
  specifier = [];
  dependency_kind = codes "static_import";
  is_external = external;
  evidence_line = 1;
}

abbrev modules : List Text
modules = codes "api" ∷ codes "core" ∷ codes "web" ∷ []

abbrev dependencies : List DependencyRecord
dependencies =
    dependency (codes "api") (codes "core") false
    ∷ dependency (codes "web") (codes "api") false
    ∷ dependency (codes "web") (codes "external:x") true
    ∷ []

abbrev report : ImpactReport
report = record {
  target = codes "COR";
  matched_module = some (codes "core");
  direction = downstream;
  affected_modules = codes "api" ∷ codes "web" ∷ [];
  dependency_paths =
      (codes "core" ∷ codes "api" ∷ []) ∷ (codes "core" ∷ codes "api" ∷ codes "web" ∷ []) ∷ [];
  risk_score = low;
}

impact-run : impact (codes "COR") downstream 3 modules dependencies ≡ answer report
unfolding impact impact_search search_from neighbors neighbors_from add_neighbors match_module
    impact_risk
impact-run = refl

local_dependency_edges-run :
    local_dependency_edges dependencies
    ≡ (codes "api", codes "core") ∷ (codes "web", codes "api") ∷ []
unfolding local_dependency_edges
local_dependency_edges-run = refl

impact-affected_example :
    (r : ImpactReport) × (impact (codes "COR") downstream 3 modules dependencies ≡ answer r)
    × IsImpactOf (codes "COR") downstream 3 modules dependencies r
impact-affected_example = impact-affected (codes "COR") downstream 3 modules dependencies

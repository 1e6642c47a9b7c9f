-- ===== src/Core/Findings.antt =====
-- crates/ovecc-core/src/facts.rs and graph.rs: findings, and what they refer to. The time of their
-- creation is the clock's, and is left out.
use ovecc.Prelude.{ℕ, Option, List}
use ovecc.Text.{Text}
use ovecc.Core.Facts.{Severity}

pub data NodeKind : Type 0 where
  repository file module_ namespace symbol function class trait interface type api route rpc_method
        event table view column migration owner commit snapshot :
      NodeKind

pub record EntityRef : Type 0 where
  pub kind : NodeKind
  pub id : Text

pub record Evidence : Type 0 where
  pub file_path : Text
  pub line : Option ℕ
  pub symbol : Option Text
  pub detail : Option Text

pub data FindingKind : Type 0 where
  cross_domain_dependency layer_violation forbidden_import direct_database_access
        circular_dependency ownership_boundary_violation convention_deviation hotspot drift_warning
        hardcoded_secret insecure_pattern weak_crypto permissive_cors vulnerable_dependency
        tainted_flow unused_export unused_file unused_dependency unlisted_dependency
        unresolved_import high_complexity long_function long_parameter_list feature_envy large_class
        data_clumps stale_suppression architecture_violation behavioral_coupling :
      FindingKind

pub record FindingRecord : Type 0 where
  pub id : Text
  pub repository_id : Text
  pub snapshot_id : Option Text
  pub kind : FindingKind
  pub severity : Severity
  pub rule_name : Option Text
  pub target : Option EntityRef
  pub title : Text
  pub description : Text
  pub evidence : List Evidence

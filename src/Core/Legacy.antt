-- ===== src/Core/Legacy.antt =====
-- crates/ovecc-core/src/legacy.rs: dependency records, import kinds, risk levels.
pub mod Laws
use ovecc.Prelude.{
  ℕ, Bool, true, false, ◌&&◌, ◌||◌, not, Option, none, some, List, [], ◌∷◌, ◌++◌, if◌then◌else◌,
  list_eqb, nat_eq, nat_eqb, ltb, length,
}
use ovecc.Text.{Text, codes, starts_with, split}

pub data ImportKind : Type 0 where
  static_import export_from require dynamic_import type_import : ImportKind

pub record ImportFact : Type 0 where
  pub specifier : Text
  pub line : ℕ
  pub import_kind : ImportKind

unfoldable pub as_str : ImportKind → Text
as_str static_import = codes "static_import"
as_str export_from = codes "re_export"
as_str require = codes "require"
as_str dynamic_import = codes "dynamic_import"
as_str type_import = codes "type_import"

unfoldable pub from_kind_str : Text → Option ImportKind
from_kind_str value =
    if list_eqb value (codes "static_import")
    then some static_import
    else if list_eqb value (codes "re_export")
    then some export_from
    else if list_eqb value (codes "require")
    then some require
    else if list_eqb value (codes "dynamic_import")
    then some dynamic_import
    else if list_eqb value (codes "type_import")
    then some type_import
    else none

pub record DependencyRecord : Type 0 where
  pub id : Text
  pub repository_id : Text
  pub source_file_id : Text
  pub target_file_id : Option Text
  pub source_file_path : Text
  pub target_file_path : Option Text
  pub source_module_id : Text
  pub target_module_id : Text
  pub source_module : Text
  pub target_module : Text
  pub specifier : Text
  pub dependency_kind : Text
  pub is_external : Bool
  pub evidence_line : ℕ

abbrev pub external_module_prefix : Text
external_module_prefix = codes "external:"

abbrev pub unresolved_module_prefix : Text
unresolved_module_prefix = codes "unresolved:"

abbrev pub unindexed_module_prefix : Text
unindexed_module_prefix = codes "unindexed:"

unfoldable pub is_path_specifier : Text → Bool
is_path_specifier specifier = starts_with (codes ".") specifier || starts_with (codes "/") specifier

-- `parts[0]/parts[1]` for a scoped package, else the first part.
package_name : Text → List Text → Text
package_name specifier [] = specifier
package_name specifier (first ∷ []) = first
package_name specifier (first ∷ second ∷ rest) =
    if starts_with (codes "@") specifier then first ++ codes "/" ++ second else first

unfoldable pub external_module_name : Text → Text
unfolding package_name
external_module_name specifier =
    external_module_prefix ++ package_name specifier (split (λ c. nat_eqb c b'/') specifier)

unfoldable pub unresolved_module_name : Text → Text
unresolved_module_name specifier = unresolved_module_prefix ++ specifier

unfoldable pub unindexed_module_name : Text → Text
unindexed_module_name specifier = unindexed_module_prefix ++ specifier

unfoldable pub is_unresolved : DependencyRecord → Bool
is_unresolved d = starts_with unresolved_module_prefix d.target_module

unfoldable pub is_unindexed : DependencyRecord → Bool
is_unindexed d = starts_with unindexed_module_prefix d.target_module

unfoldable pub is_external_package : DependencyRecord → Bool
unfolding is_unresolved is_unindexed
is_external_package d = d.is_external && not (is_unresolved d) && not (is_unindexed d)

pub data RiskLevel : Type 0 where
  low medium high critical : RiskLevel

unfoldable pub risk_name : RiskLevel → Text
risk_name low = codes "Low"
risk_name medium = codes "Medium"
risk_name high = codes "High"
risk_name critical = codes "Critical"

-- The order of the levels, from `low` to `critical`.
abbrev pub rank : RiskLevel → ℕ
rank low = 0
rank medium = 1
rank high = 2
rank critical = 3

pub data ImpactDirection : Type 0 where
  downstream upstream both : ImpactDirection

-- `matches!(direction, Downstream | Both)` and its counterpart.
abbrev pub looks_down : ImpactDirection → Bool
looks_down upstream = false
looks_down _ = true

abbrev pub looks_up : ImpactDirection → Bool
looks_up downstream = false
looks_up _ = true

pub record ImpactReport : Type 0 where
  pub target : Text
  pub matched_module : Option Text
  pub direction : ImpactDirection
  pub affected_modules : List Text
  pub dependency_paths : List (List Text)
  pub risk_score : RiskLevel

pub data DriftTrend : Type 0 where
  improving stable worsening unknown : DriftTrend

unfoldable pub trend_name : DriftTrend → Text
trend_name improving = codes "improving"
trend_name stable = codes "stable"
trend_name worsening = codes "worsening"
trend_name unknown = codes "unknown"

-- ===== src/Core/Architecture.antt =====
-- crates/ovecc-core/src/architecture.rs: the architecture contract. Reading it as TOML and
-- compiling globs are external: the compiler of globs is an argument.
pub mod Validate
pub mod Validity
pub mod Assign
pub mod Samples
mod Tests
use ovecc.Prelude.{
  ℕ, Bool, true, false, Option, none, some, List, [], ◌∷◌, ◌++◌, if◌then◌else◌, list_eqb, nat_eq,
  find,
}
use ovecc.Text.{Text, codes, replace_byte}
use ovecc.Core.Facts.{Severity, CapabilityKind}

abbrev pub contract_schema : ℕ
contract_schema = 1

pub data EnforcementMode : Type 0 where
  off warn new_violations strict : EnforcementMode

pub data UnassignedPolicy : Type 0 where
  ignore warn forbid : UnassignedPolicy

pub data CouplingPolicy : Type 0 where
  off low medium high : CouplingPolicy

-- What to report at, or `none` when the family is off.
unfoldable pub severity : CouplingPolicy → Option Severity
severity CouplingPolicy.off = none
severity CouplingPolicy.low = some Severity.low
severity CouplingPolicy.medium = some Severity.medium
severity CouplingPolicy.high = some Severity.high

pub data DependsOn : Type 0 where
  name : Text → DependsOn
  detailed : Text → Bool → DependsOn

unfoldable pub target_of : DependsOn → Text
target_of (name target) = target
target_of (detailed target deprecated) = target

unfoldable pub is_deprecated : DependsOn → Bool
is_deprecated (name target) = false
is_deprecated (detailed target deprecated) = deprecated

pub record ComponentSpec (F : Type 0) : Type 0 where
  pub name : Text
  pub role : Option Text
  pub paths : List Text
  pub depends_on : List DependsOn
  pub cannot_depend_on : List Text
  pub consumed_by : Option (List Text)
  pub must_depend_on : List Text
  pub interface : List Text
  pub external_deny : List Text
  pub slices : Bool
  pub deny_capabilities : List CapabilityKind
  pub max_cyclomatic : Option ℕ
  pub max_cognitive : Option ℕ
  pub min_coverage : Option F

pub record ArchitectureContract (F : Type 0) : Type 0 where
  pub schema : ℕ
  pub mode : EnforcementMode
  pub unassigned : UnassignedPolicy
  pub coupling : CouplingPolicy
  pub components : List (ComponentSpec F)

-- `ArchitectureContract::component`: the first component of that name.
unfoldable pub component : {F : Type 0} → ArchitectureContract F → Text → Option (ComponentSpec F)
component contract wanted = find (λ c. list_eqb c.name wanted) contract.components

-- The separator of a Windows path becomes a slash.
abbrev pub slashed : Text → Text
slashed = replace_byte b'\\' b'/'

-- One line of the store of accepted violations.
unfoldable pub baseline_entry : Text → Text → Text → Text
baseline_entry rule source_file specifier = rule ++ 9 ∷ slashed source_file ++ 9 ∷ specifier

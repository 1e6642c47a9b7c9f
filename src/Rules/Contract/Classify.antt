-- ===== src/Rules/Contract/Classify.antt =====
-- crates/ovecc-rules/src/contract.rs: `classify_internal` and `classify_external`, the verdicts on
-- one dependency.
use ovecc.Prelude.{
  ◌%◌, ◌^◌, Bool, true, false, not, ◌&&◌, Option, none, some, List, [], ◌∷◌, map, if◌then◌else◌,
  list_eqb, nat_eq, list_eq, nat_ord, list_ord, pair_ord, contains, lookup, find, keep_if,
  push_group, map_insert, set_insert,
}
use ovecc.Text.{Text}
use ovecc.Core.Legacy.{DependencyRecord}
use ovecc.Core.Facts.{as_str, of_module_specifier, capability_eq}
use ovecc.Core.Architecture.{
  DependsOn, target_of, is_deprecated, ComponentSpec, ArchitectureContract, component, slashed,
}
use ovecc.Core.Architecture.Validate.{is_nil}
use ovecc.Core.Architecture.Assign.{x_notation_allows}
use ovecc.Rules.Specifier.{specifier_matches}
use ovecc.Rules.Contract.{ContractInput, CapabilityUse, Pair, PairMap, EdgeGroups}

pub data Prohibition : Type 0 where
  restricted forbidden : Prohibition

abbrev pub excludes : Option (List Text) → Text → Bool
excludes none source = false
excludes (some allowed) source = not (contains source allowed)

module _ {F : Type 0} where
  -- Whether the component is closed to the source.
  abbrev pub closed_to : Option (ComponentSpec F) → Text → Bool
  closed_to none source = false
  closed_to (some spec) source = excludes spec.consumed_by source

  abbrev pub forbids : Option (ComponentSpec F) → Text → Bool
  forbids none target = false
  forbids (some spec) target = contains target spec.cannot_depend_on

  unfoldable pub prohibition : ArchitectureContract F → Pair → Option Prohibition
  prohibition contract pair =
      if closed_to (component contract pair.1) pair.0
      then some restricted
      else if forbids (component contract pair.0) pair.1
      then some forbidden
      else none

  -- The first entry of `depends_on` for the target.
  abbrev pub declaration : ComponentSpec F → Text → Option DependsOn
  declaration spec target = find (λ entry. list_eqb (target_of entry) target) spec.depends_on

  abbrev interfaces_from :
      List (Text × List Text) → List (ComponentSpec F) → List (Text × List Text)
  interfaces_from interfaces [] = interfaces
  interfaces_from interfaces (c ∷ cs) =
      interfaces_from (map_insert c.name (map slashed c.interface) interfaces) cs

  -- The interface files of the components that declare some.
  unfoldable pub declared_interfaces : ArchitectureContract F → List (Text × List Text)
  declared_interfaces contract =
      interfaces_from [] (keep_if (λ c. not (is_nil c.interface)) contract.components)

-- The loop over the banned patterns.
unfoldable pub ban : Text → DependencyRecord → List Text → PairMap → PairMap
ban source dependency [] banned = banned
ban source dependency (pattern ∷ patterns) banned = ban source dependency patterns (
    if specifier_matches dependency.specifier pattern
    then push_group (source, pattern) dependency banned
    else banned)

module _ {F : Type 0} (architecture : ContractInput F) where
  unfoldable pub classify_external : Text → DependencyRecord → PairMap → PairMap
  unfolding ban
  classify_external source dependency banned = elim (component architecture.contract source) [
    | none ↦ banned
    | some spec ↦ ban source dependency spec.external_deny banned
  ]

  abbrev imported_use : DependencyRecord → CapabilityUse
  imported_use dependency = record {
    file = dependency.source_file_path;
    line = dependency.evidence_line % 2 ^ 32;
    api = dependency.specifier;
    count = 1;
  }

  unfoldable pub classify_external_capability :
      Text → DependencyRecord → EdgeGroups F → EdgeGroups F
  classify_external_capability source dependency groups =
      elim (of_module_specifier dependency.specifier) [
        | none ↦ groups
        | some kind ↦ elim (component architecture.contract source) [
          | none ↦ groups
          | some spec ↦
              if contains kind spec.deny_capabilities
              then record groups {
                capabilities =
                    push_group (source, as_str kind) (imported_use dependency) groups.capabilities;
              }
              else groups
        ]
      ]

  unfoldable pub classify_slice : DependencyRecord → Text → PairMap → PairMap
  classify_slice dependency target_path slices =
      elim (lookup dependency.source_file_path architecture.slice_of) [
        | none ↦ slices
        | some source_slice ↦ elim (lookup target_path architecture.slice_of) [
          | none ↦ slices
          | some target_slice ↦
              if not (list_eqb source_slice target_slice)
                && not (x_notation_allows source_slice target_path)
              then push_group (source_slice, target_slice) dependency slices
              else slices
        ]
      ]

  -- The interface of the target, for an import that nothing prohibits.
  unfoldable pub classify_bypass :
      List (Text × List Text) → Pair → Text → DependencyRecord → PairMap → PairMap
  classify_bypass interfaces pair target_path dependency bypasses =
      elim (lookup pair.1 interfaces) [
        | none ↦ bypasses
        | some interface ↦
            if contains (slashed target_path) interface
            then bypasses
            else push_group pair dependency bypasses
      ]

  -- What the declaration of the target decides, if `depends_on` has one.
  unfoldable pub classify_entry :
      Option DependsOn → ComponentSpec F → Pair → DependencyRecord → EdgeGroups F → EdgeGroups F
  classify_entry (some entry) spec pair dependency groups = record groups {
    observed = set_insert pair groups.observed;
    deprecated =
        if is_deprecated entry
        then push_group pair dependency groups.deprecated
        else groups.deprecated;
  }
  classify_entry none spec pair dependency groups =
      if contains pair.1 spec.must_depend_on
      then record groups { observed = set_insert pair groups.observed }
      else record groups { divergences = push_group pair dependency groups.divergences }

  -- An import that nothing prohibits, by the component of its source.
  unfoldable pub classify_permitted :
      List (Text × List Text)
      → Option (ComponentSpec F)
      → Pair
      → Text
      → DependencyRecord
      → EdgeGroups F
      → EdgeGroups F
  unfolding classify_entry
  classify_permitted interfaces none pair target_path dependency groups = groups
  classify_permitted interfaces (some spec) pair target_path dependency groups =
      classify_entry (declaration spec pair.1) spec pair dependency (record groups {
        bypasses = classify_bypass interfaces pair target_path dependency groups.bypasses;
      })

  -- An import from one component into another, by what prohibits it.
  unfoldable pub classify_crossing :
      List (Text × List Text)
      → Option Prohibition
      → Pair
      → Text
      → DependencyRecord
      → EdgeGroups F
      → EdgeGroups F
  unfolding classify_permitted
  classify_crossing interfaces (some restricted) pair target_path dependency groups =
      record groups { restricted = push_group pair dependency groups.restricted }
  classify_crossing interfaces (some forbidden) pair target_path dependency groups = record groups {
    forbidden = push_group pair dependency groups.forbidden;
  }
  classify_crossing interfaces none pair target_path dependency groups =
      classify_permitted interfaces (component architecture.contract pair.0) pair target_path
        dependency groups

  -- An import of a file, by the components of its source and of the file.
  unfoldable pub classify_ends :
      List (Text × List Text)
      → Option Text
      → Option Text
      → Text
      → DependencyRecord
      → EdgeGroups F
      → EdgeGroups F
  unfolding classify_crossing classify_slice prohibition
  classify_ends interfaces none target target_path dependency groups = groups
  classify_ends interfaces (some source) none target_path dependency groups = groups
  classify_ends interfaces (some source) (some target) target_path dependency groups =
      if list_eqb source target
      then record groups { slices = classify_slice dependency target_path groups.slices }
      else classify_crossing interfaces (prohibition architecture.contract (source, target))
          (source, target) target_path dependency groups

  unfoldable pub classify_internal :
      List (Text × List Text)
      → Option Text
      → Option Text
      → DependencyRecord
      → EdgeGroups F
      → EdgeGroups F
  unfolding classify_ends
  classify_internal interfaces source none dependency groups = groups
  classify_internal interfaces source (some target_path) dependency groups =
      classify_ends interfaces source (lookup target_path architecture.component_of) target_path
        dependency groups

  -- The body of the loop over the dependencies, by whether it is external and by the component of
  -- its source.
  unfoldable pub classify_from :
      List (Text × List Text) → Bool → Option Text → DependencyRecord → EdgeGroups F → EdgeGroups F
  unfolding classify_internal classify_external classify_external_capability
  classify_from interfaces true none dependency groups = groups
  classify_from interfaces true (some source) dependency groups =
      classify_external_capability source dependency
        (record groups { banned = classify_external source dependency groups.banned })
  classify_from interfaces false source dependency groups =
      classify_internal interfaces source dependency.target_file_path dependency groups

  unfoldable pub classify_edge :
      List (Text × List Text) → DependencyRecord → EdgeGroups F → EdgeGroups F
  unfolding classify_from
  classify_edge interfaces dependency groups =
      classify_from interfaces dependency.is_external
        (lookup dependency.source_file_path architecture.component_of) dependency groups

  unfoldable pub classify_dependencies :
      List (Text × List Text) → List DependencyRecord → EdgeGroups F → EdgeGroups F
  unfolding classify_edge
  classify_dependencies interfaces [] groups = groups
  classify_dependencies interfaces (dependency ∷ dependencies) groups =
      classify_dependencies interfaces dependencies (classify_edge interfaces dependency groups)

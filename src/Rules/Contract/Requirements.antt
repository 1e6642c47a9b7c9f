-- ===== src/Rules/Contract/Requirements.antt =====
-- crates/ovecc-rules/src/contract.rs: `classify_required`, the files that do not import what their
-- component must depend on.
use ovecc.Prelude.{
  not, Option, none, some, List, [], ◌∷◌, if◌then◌else◌, nat_eq, list_eq, pair_eq, nat_ord,
  list_ord, pair_ord, contains, lookup, keep_if, push_group, map_insert, map_entry, set_insert,
}
use ovecc.Text.{Text}
use ovecc.Core.Legacy.{DependencyRecord}
use ovecc.Core.Facts.{capability_eq}
use ovecc.Core.Architecture.{ComponentSpec}
use ovecc.Core.Architecture.Validate.{is_nil}
use ovecc.Rules.Contract.{ContractInput, Pair, EdgeGroups}

-- The component that a dependency leads to, by the path of its target.
abbrev pub reached : List (Text × Text) → Option Text → Option Text
reached component_of none = none
reached component_of (some target_path) = lookup target_path component_of

abbrev pub note : Option Text → List Text → List Text
note none names = names
note (some name) names = set_insert name names

-- The loop that collects what each file reaches.
abbrev pub importers_from :
    List (Text × Text) → List (Text × List Text) → List DependencyRecord → List (Text × List Text)
importers_from component_of importers [] = importers
importers_from component_of importers (d ∷ ds) =
    importers_from component_of
      (map_entry d.source_file_path [] (note (reached component_of d.target_file_path)) importers)
      ds

-- The loop over the required targets of one file.
abbrev pub require_targets :
    Text → Text → List Text → List Text → List (Pair × List Text) → List (Pair × List Text)
require_targets owner file reached [] required = required
require_targets owner file reached (target ∷ targets) required =
    require_targets owner file reached targets
      (if contains target reached then required else push_group (owner, target) file required)

-- One file, by what its component requires and what the file reaches.
abbrev pub require_file :
    Text
    → Text
    → Option (List Text)
    → Option (List Text)
    → List (Pair × List Text)
    → List (Pair × List Text)
require_file file owner none names required = required
require_file file owner (some targets) none required = required
require_file file owner (some targets) (some names) required =
    require_targets owner file names targets required

abbrev pub require_files :
    List (Text × List Text)
    → List (Text × List Text)
    → List (Text × Text)
    → List (Pair × List Text)
    → List (Pair × List Text)
require_files required importers [] groups = groups
require_files required importers ((file, owner) ∷ rest) groups =
    require_files required importers rest
      (require_file file owner (lookup owner required) (lookup file importers) groups)

abbrev pub requirements_from :
    {F : Type 0} → List (Text × List Text) → List (ComponentSpec F) → List (Text × List Text)
requirements_from required [] = required
requirements_from required (c ∷ cs) =
    requirements_from (map_insert c.name c.must_depend_on required) cs

module _ {F : Type 0} (architecture : ContractInput F) where
  unfoldable pub classify_required : List DependencyRecord → EdgeGroups F → EdgeGroups F
  classify_required dependencies groups =
      let required =
        requirements_from []
          (keep_if (λ c. not (is_nil c.must_depend_on)) architecture.contract.components) in
      let importers = importers_from architecture.component_of [] dependencies in
      if is_nil required then groups else record groups {
        required = require_files required importers architecture.component_of groups.required;
      }

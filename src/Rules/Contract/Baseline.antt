-- ===== src/Rules/Contract/Baseline.antt =====
-- crates/ovecc-rules/src/contract.rs: the accepted violations. What `--freeze` writes, and what the
-- check then leaves out.
use ovecc.Prelude.{
  ℕ, not, Option, none, some, List, [], ◌∷◌, filter_groups, map_entry, set_insert, contains,
  nat_ord, list_ord, nat_eq, list_eq,
}
use ovecc.Text.{Text, codes}
use ovecc.Core.Legacy.{DependencyRecord}
use ovecc.Core.Facts.{FunctionMetricsRow, CoChangedPair}
use ovecc.Core.Coverage.{Floats}
use ovecc.Core.Architecture.{baseline_entry, off, new_violations}
use ovecc.Rules.Contract.{ContractInput, CapabilityUse, Pair, EdgeGroups}
use ovecc.Rules.Contract.Measures.{classify_edges}

-- Component names, each with its entries.
abbrev pub Entries : Type 0
Entries = List (Text × List Text)

abbrev pub enter : Text → Text → Entries → Entries
enter component line entries = map_entry component [] (set_insert line) entries

module _ {V : Type 0} (line : Pair → V → Text) where
  abbrev pub enter_values : Pair → List V → Entries → Entries
  enter_values pair [] entries = entries
  enter_values pair (v ∷ vs) entries = enter_values pair vs (enter pair.0 (line pair v) entries)

  -- A loop over a map of violations, each under the first name of its pair.
  abbrev pub enter_groups : List (Pair × List V) → Entries → Entries
  enter_groups [] entries = entries
  enter_groups ((pair, vs) ∷ groups) entries = enter_groups groups (enter_values pair vs entries)

abbrev pub dependency_line : Text → Pair → DependencyRecord → Text
dependency_line slug pair d = baseline_entry slug d.source_file_path d.specifier

abbrev pub capability_line : Pair → CapabilityUse → Text
capability_line pair use_ = baseline_entry (codes "capability") use_.file use_.api

abbrev pub required_line : Pair → Text → Text
required_line pair file = baseline_entry (codes "required-dependency") file pair.1

abbrev pub budget_line : Pair → FunctionMetricsRow × ℕ → Text
budget_line pair (row, budget) =
    baseline_entry (codes "complexity-budget") row.file_path row.qualified_name

abbrev pub coupling_line : {F : Type 0} → Pair → CoChangedPair F → Text
coupling_line pair change = baseline_entry (codes "behavioral-coupling") change.left change.right

unfoldable pub without_entries :
    {V : Type 0} → (Pair → V → Text) → List Text → List (Pair × List V) → List (Pair × List V)
without_entries line baseline groups =
    filter_groups (λ pair v. not (contains (line pair v) baseline)) groups

module _ {F : Type 0} where
  -- The entries of the groups, section by section.
  unfoldable pub entries_of : EdgeGroups F → Entries
  entries_of groups =
      let a = enter_groups (dependency_line (codes "divergence")) groups.divergences [] in
      let b = enter_groups (dependency_line (codes "restricted-access")) groups.restricted a in
      let c = enter_groups (dependency_line (codes "forbidden-dependency")) groups.forbidden b in
      let d = enter_groups (dependency_line (codes "interface-bypass")) groups.bypasses c in
      let e = enter_groups (dependency_line (codes "deprecated-use")) groups.deprecated d in
      let f = enter_groups (dependency_line (codes "external-deny")) groups.banned e in
      let g = enter_groups (dependency_line (codes "slice-isolation")) groups.slices f in
      let h = enter_groups capability_line groups.capabilities g in
      let i = enter_groups required_line groups.required h in
      let j = enter_groups budget_line groups.budgets i in
      enter_groups coupling_line groups.coupling j

  unfoldable pub violation_entries : Floats F → ContractInput F → List DependencyRecord → Entries
  unfolding entries_of
  violation_entries n architecture dependencies = elim architecture.contract.mode [
    | off ↦ []
    | _ ↦ entries_of (classify_edges architecture n dependencies)
  ]

  unfoldable pub prune_baselined : EdgeGroups F → List Text → EdgeGroups F
  unfolding without_entries
  prune_baselined groups baseline = record {
    divergences =
        without_entries (dependency_line (codes "divergence")) baseline groups.divergences;
    restricted =
        without_entries (dependency_line (codes "restricted-access")) baseline groups.restricted;
    forbidden =
        without_entries (dependency_line (codes "forbidden-dependency")) baseline groups.forbidden;
    required = without_entries required_line baseline groups.required;
    bypasses =
        without_entries (dependency_line (codes "interface-bypass")) baseline groups.bypasses;
    deprecated =
        without_entries (dependency_line (codes "deprecated-use")) baseline groups.deprecated;
    banned = without_entries (dependency_line (codes "external-deny")) baseline groups.banned;
    slices = without_entries (dependency_line (codes "slice-isolation")) baseline groups.slices;
    capabilities = without_entries capability_line baseline groups.capabilities;
    budgets = without_entries budget_line baseline groups.budgets;
    coupling = without_entries coupling_line baseline groups.coupling;
    coverage = groups.coverage;
    observed = groups.observed;
  }

  -- The groups that `contract_rules` goes on with: none if the mode is off.
  unfoldable pub judged_groups :
      Floats F → ContractInput F → List DependencyRecord → Option (EdgeGroups F)
  unfolding prune_baselined
  judged_groups n architecture dependencies = elim architecture.contract.mode [
    | off ↦ none
    | new_violations ↦ elim architecture.baseline [
      | [] ↦ some (classify_edges architecture n dependencies)
      | line ∷ lines ↦
          some (prune_baselined (classify_edges architecture n dependencies) architecture.baseline)
    ]
    | _ ↦ some (classify_edges architecture n dependencies)
  ]

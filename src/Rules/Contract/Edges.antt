-- ===== src/Rules/Contract/Edges.antt =====
-- `classify_edges` of contract.rs: what follows the loop over the dependencies leaves their verdicts
-- alone.
use ovecc.Prelude.{inl, inr, ◌∙◌, List, [], ◌∷◌, arith, Bool-cases, Option-cases, contains}
use ovecc.Text.{Text}
use ovecc.Core.Legacy.{DependencyRecord}
use ovecc.Core.Facts.{CapabilityFact, FunctionMetricsRow, capability_eq}
use ovecc.Core.Coverage.{Floats}
use ovecc.Rules.Contract.{ContractInput, EdgeGroups, no_groups}
use ovecc.Rules.Contract.Classify.{classify_dependencies, declared_interfaces}
use ovecc.Rules.Contract.Requirements.{classify_required}
use ovecc.Rules.Contract.Measures.{
  classify_capability_facts, classify_budgets, classify_coverage, classify_coupling, classify_edges,
  owner_of,
}
use ovecc.Rules.Contract.Crossing.{SameCrossings}

module _ {F : Type 0} (architecture : ContractInput F) where
  trans :
      {g h k : EdgeGroups F}
      → SameCrossings architecture g h
      → SameCrossings architecture h k
      → SameCrossings architecture g k
  trans a b = record {
    divergences = a.divergences ∙ b.divergences;
    restricted = a.restricted ∙ b.restricted;
    forbidden = a.forbidden ∙ b.forbidden;
    bypasses = a.bypasses ∙ b.bypasses;
    deprecated = a.deprecated ∙ b.deprecated;
    observed = a.observed ∙ b.observed;
  }

  required_keeps :
      (ds : List DependencyRecord) (g : EdgeGroups F)
      → SameCrossings architecture (classify_required architecture ds g) g
  unfolding classify_required
  required_keeps ds g = ground arith

  capabilities_keep :
      (uses : List (Text × CapabilityFact)) (g : EdgeGroups F)
      → SameCrossings architecture (classify_capability_facts architecture uses g) g
  unfolding classify_capability_facts
  capabilities_keep [] g = ground arith
  capabilities_keep ((file, fact) ∷ uses) g = elim (Option-cases (owner_of architecture file)) [
    | inl nobody ↦ rw (nobody, classify_capability_facts) (capabilities_keep uses g)
    | inr ((name, spec), owned) ↦
        elim (Bool-cases (contains fact.capability spec.deny_capabilities)) [
          | inl denied ↦
              rw (owned, denied, classify_capability_facts)
                (trans (capabilities_keep uses _) (ground arith))
          | inr allowed ↦ rw (owned, allowed, classify_capability_facts) (capabilities_keep uses g)
        ]
  ]

  budgets_keep :
      (rows : List FunctionMetricsRow) (g : EdgeGroups F)
      → SameCrossings architecture (classify_budgets architecture rows g) g
  unfolding classify_budgets
  budgets_keep [] g = ground arith
  budgets_keep (row ∷ rows) g = elim (Option-cases (owner_of architecture row.file_path)) [
    | inl nobody ↦ rw (nobody, classify_budgets) (budgets_keep rows g)
    | inr ((name, spec), owned) ↦
        rw (owned, classify_budgets) (trans (budgets_keep rows _) (ground arith))
  ]

  coverage_keeps :
      (n : Floats F) (g : EdgeGroups F)
      → SameCrossings architecture (classify_coverage architecture n g) g
  unfolding classify_coverage
  coverage_keeps n g = ground arith

  pub coupling_keeps :
      (g : EdgeGroups F) → SameCrossings architecture (classify_coupling architecture g) g
  unfolding classify_coupling
  coupling_keeps g = ground arith

  pub edges_keep :
      (n : Floats F) (ds : List DependencyRecord)
      → SameCrossings architecture (classify_edges architecture n ds) (
          classify_dependencies architecture
            (declared_interfaces architecture.contract)
            ds
            no_groups)
  unfolding classify_edges
  edges_keep n ds = trans (coupling_keeps _) (
      trans (coverage_keeps n _) (
        trans (budgets_keep architecture.functions _)
          (trans (capabilities_keep architecture.capability_uses _) (required_keeps ds _))))

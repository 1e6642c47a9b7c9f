-- ===== src/Rules/Contract/Leaves.antt =====
-- `classify_edges` of contract.rs: the groups that the loop over the dependencies leaves alone, and
-- those that each later pass does.
use ovecc.Prelude.{
  ◌≡◌, refl, ◌∙◌, inl, inr, Bool, true, false, Option, none, some, List, [], ◌∷◌, arith, Bool-cases,
  Option-cases, contains, list_eqb, nat_eq, list_eq, lookup,
}
use ovecc.Text.{Text}
use ovecc.Core.Legacy.{DependencyRecord}
use ovecc.Core.Facts.{CapabilityFact, FunctionMetricsRow, capability_eq}
use ovecc.Core.Coverage.{Floats}
use ovecc.Core.Architecture.{DependsOn, ComponentSpec, component}
use ovecc.Rules.Contract.{ContractInput, Pair, EdgeGroups}
use ovecc.Rules.Contract.Classify.{
  Prohibition, restricted, forbidden, prohibition, declaration, classify_external_capability,
  classify_external, classify_entry, classify_permitted, classify_crossing, classify_ends,
  classify_internal, classify_from, classify_edge, classify_dependencies,
}
use ovecc.Rules.Contract.Requirements.{classify_required}
use ovecc.Rules.Contract.Measures.{
  classify_capability_facts, classify_budgets, classify_coverage, classify_coupling, owner_of,
}

module _ {F : Type 0} (architecture : ContractInput F) where
  -- The groups that no single dependency changes.
  pub record SameMeasures (g k : EdgeGroups F) : Type 0 where
    pub required : g.required ≡ k.required
    pub budgets : g.budgets ≡ k.budgets
    pub coupling : g.coupling ≡ k.coupling
    pub coverage : g.coverage ≡ k.coverage

  SameMeasures-refl : (g : EdgeGroups F) → SameMeasures g g
  SameMeasures-refl g = record { required = refl; budgets = refl; coupling = refl; coverage = refl }

  after : {g h k : EdgeGroups F} → SameMeasures g h → SameMeasures h k → SameMeasures g k
  after a b = record {
    required = a.required ∙ b.required;
    budgets = a.budgets ∙ b.budgets;
    coupling = a.coupling ∙ b.coupling;
    coverage = a.coverage ∙ b.coverage;
  }

  module _ (i : List (Text × List Text)) (d : DependencyRecord) where
    entry_leaves :
        (entry : Option DependsOn) (spec : ComponentSpec F) (pair : Pair) (g : EdgeGroups F)
        → SameMeasures (classify_entry architecture entry spec pair d g) g
    unfolding classify_entry
    entry_leaves (some entry) spec pair g = record {
      required = refl;
      budgets = refl;
      coupling = refl;
      coverage = refl;
    }
    entry_leaves none spec pair g = ground arith

    permitted_leaves :
        (spec : Option (ComponentSpec F)) (pair : Pair) (path : Text) (g : EdgeGroups F)
        → SameMeasures (classify_permitted architecture i spec pair path d g) g
    unfolding classify_permitted
    permitted_leaves none pair path g = SameMeasures-refl g
    permitted_leaves (some spec) pair path g =
        after (entry_leaves (declaration spec pair.1) spec pair _)
          (record { required = refl; budgets = refl; coupling = refl; coverage = refl })

    crossing_leaves :
        (answer : Option Prohibition) (pair : Pair) (path : Text) (g : EdgeGroups F)
        → SameMeasures (classify_crossing architecture i answer pair path d g) g
    unfolding classify_crossing
    crossing_leaves (some restricted) pair path g = record {
      required = refl;
      budgets = refl;
      coupling = refl;
      coverage = refl;
    }
    crossing_leaves (some forbidden) pair path g = record {
      required = refl;
      budgets = refl;
      coupling = refl;
      coverage = refl;
    }
    crossing_leaves none pair path g =
        permitted_leaves (component architecture.contract pair.0) pair path g

    ends_leaves :
        (source target : Option Text) (path : Text) (g : EdgeGroups F)
        → SameMeasures (classify_ends architecture i source target path d g) g
    unfolding classify_ends
    ends_leaves none target path g = SameMeasures-refl g
    ends_leaves (some s) none path g = SameMeasures-refl g
    ends_leaves (some s) (some t) path g = elim (Bool-cases (list_eqb s t)) [
      | inl same ↦
          rw same (record { required = refl; budgets = refl; coupling = refl; coverage = refl })
      | inr apart ↦
          rw apart (crossing_leaves (prohibition architecture.contract (s, t)) (s, t) path g)
    ]

    internal_leaves :
        (source target : Option Text) (g : EdgeGroups F)
        → SameMeasures (classify_internal architecture i source target d g) g
    unfolding classify_internal
    internal_leaves source none g = SameMeasures-refl g
    internal_leaves source (some path) g =
        ends_leaves source (lookup path architecture.component_of) path g

    external_leaves :
        (source : Text) (g : EdgeGroups F)
        → SameMeasures (classify_external_capability architecture source d g) g
    unfolding classify_external_capability
    external_leaves source g = ground arith

    from_leaves :
        (external : Bool) (source : Option Text) (g : EdgeGroups F)
        → SameMeasures (classify_from architecture i external source d g) g
    unfolding classify_from
    from_leaves true none g = SameMeasures-refl g
    from_leaves true (some source) g =
        after
          (external_leaves source
            (record g { banned = classify_external architecture source d g.banned }))
          (record { required = refl; budgets = refl; coupling = refl; coverage = refl })
    from_leaves false source g = internal_leaves source d.target_file_path g

  pub dependencies_leave :
      (i : List (Text × List Text)) (ds : List DependencyRecord) (g : EdgeGroups F)
      → SameMeasures (classify_dependencies architecture i ds g) g
  unfolding classify_dependencies classify_edge
  dependencies_leave i [] g = SameMeasures-refl g
  dependencies_leave i (d ∷ ds) g =
      after (dependencies_leave i ds _)
        (from_leaves i d d.is_external (lookup d.source_file_path architecture.component_of) g)

  pub capabilities_leave :
      (uses : List (Text × CapabilityFact)) (g : EdgeGroups F)
      → SameMeasures (classify_capability_facts architecture uses g) g
  unfolding classify_capability_facts
  capabilities_leave [] g = SameMeasures-refl g
  capabilities_leave ((file, fact) ∷ uses) g = elim (Option-cases (owner_of architecture file)) [
    | inl nobody ↦ rw (nobody, classify_capability_facts) (capabilities_leave uses g)
    | inr ((name, spec), owned) ↦
        elim (Bool-cases (contains fact.capability spec.deny_capabilities)) [
          | inl denied ↦
              rw (owned, denied, classify_capability_facts)
                (after (capabilities_leave uses _) (ground arith))
          | inr allowed ↦ rw (owned, allowed, classify_capability_facts) (capabilities_leave uses g)
        ]
  ]

  pub budgets_leave :
      (rows : List FunctionMetricsRow) (g : EdgeGroups F)
      → (classify_budgets architecture rows g).required ≡ g.required
  unfolding classify_budgets
  budgets_leave [] g = refl
  budgets_leave (row ∷ rows) g = elim (Option-cases (owner_of architecture row.file_path)) [
    | inl nobody ↦ rw (nobody, classify_budgets) (budgets_leave rows g)
    | inr ((name, spec), owned) ↦ rw (owned, classify_budgets) (budgets_leave rows _ ∙ refl)
  ]

  -- The pass over the requirements.
  pub required_leaves :
      (ds : List DependencyRecord) (g : EdgeGroups F)
      → (classify_required architecture ds g).budgets ≡ g.budgets
  unfolding classify_required
  required_leaves ds g = ground arith

  pub coverage_leaves :
      (n : Floats F) (g : EdgeGroups F)
      → ((classify_coverage architecture n g).budgets ≡ g.budgets)
        × ((classify_coverage architecture n g).required ≡ g.required)
  unfolding classify_coverage
  coverage_leaves n g = (refl, refl)

  pub coupling_leaves :
      (g : EdgeGroups F)
      → ((classify_coupling architecture g).budgets ≡ g.budgets)
        × ((classify_coupling architecture g).required ≡ g.required)
  unfolding classify_coupling
  coupling_leaves g = ground arith

-- ===== src/Rules/Contract/Floors.antt =====
-- `classify_coverage` of contract.rs: which components are reported for a coverage below their floor.
use ovecc.Prelude.{
  ◌≡◌, refl, sym, ap, ◌∙◌, subst, inl, inr, ◌&&◌, Option, none, some, List, [], ◌∷◌, if◌then◌else◌,
  arith, ltb, lookup, map_insert, lookup-map_insert, Ascending, lookup-below, value_or, list_eqb,
  list_eqb_iff, list_eq, nat_eq, list_ord, nat_ord, Bool-cases, Option-cases,
}
use ovecc.Text.{Text}
use ovecc.Core.Legacy.{DependencyRecord}
use ovecc.Core.Facts.{FunctionMetricsRow}
use ovecc.Core.Coverage.{Floats, CoverageTotals, no_coverage, line_rate}
use ovecc.Rules.Contract.{ContractInput, EdgeGroups, no_groups}
use ovecc.Rules.Contract.Classify.{declared_interfaces, classify_dependencies}
use ovecc.Rules.Contract.Requirements.{classify_required}
use ovecc.Rules.Contract.Measures.{
  classify_capability_facts, classify_budgets, classify_coverage, classify_coupling, classify_edges,
  floors_from, measured_from, under_floor, owner_of,
}
use ovecc.Rules.Contract.Leaves.{dependencies_leave, capabilities_leave}
use ovecc.Rules.Contract.Sums.{
  floor_of, sum_of, lookup-floors_from, Ascending-measured_from, lookup-measured_from,
}

module _ {F : Type 0} (architecture : ContractInput F) where
  required_coverage :
      (ds : List DependencyRecord) (g : EdgeGroups F)
      → (classify_required architecture ds g).coverage ≡ g.coverage
  unfolding classify_required
  required_coverage ds g = ground arith

  budgets_coverage :
      (rows : List FunctionMetricsRow) (g : EdgeGroups F)
      → (classify_budgets architecture rows g).coverage ≡ g.coverage
  unfolding classify_budgets
  budgets_coverage [] g = refl
  budgets_coverage (row ∷ rows) g = elim (Option-cases (owner_of architecture row.file_path)) [
    | inl nobody ↦ rw (nobody, classify_budgets) (budgets_coverage rows g)
    | inr ((name, spec), owned) ↦ rw (owned, classify_budgets) (budgets_coverage rows _ ∙ refl)
  ]

  coupling_coverage : (g : EdgeGroups F) → (classify_coupling architecture g).coverage ≡ g.coverage
  unfolding classify_coupling
  coupling_coverage g = ground arith

  module _ (n : Floats F) where
    -- What is reported of a component, by its floor and its coverage.
    abbrev pub verdict : Option F → CoverageTotals → Option (CoverageTotals × F)
    verdict none totals = none
    verdict (some floor) totals =
        if ltb 0 totals.lines_found && n.lt_f (line_rate n totals) floor
        then some (totals, floor)
        else none

    abbrev one_verdict :
        Text
        → List (Text × F)
        → CoverageTotals
        → List (Text × (CoverageTotals × F))
        → List (Text × (CoverageTotals × F))
    one_verdict name floors totals coverage = elim (lookup name floors) [
      | none ↦ coverage
      | some floor ↦
          if ltb 0 totals.lines_found && n.lt_f (line_rate n totals) floor
          then map_insert name (totals, floor) coverage
          else coverage
    ]

    abbrev or_else :
        Option (CoverageTotals × F) → Option (CoverageTotals × F) → Option (CoverageTotals × F)
    or_else none old = old
    or_else (some r) old = some r

    or_else-none : (r : Option (CoverageTotals × F)) → or_else r none ≡ r
    or_else-none none = refl
    or_else-none (some r) = refl

    lookup-one_verdict :
        (name k : Text) (floors : List (Text × F)) (totals : CoverageTotals)
        (coverage : List (Text × (CoverageTotals × F)))
        → lookup name (one_verdict k floors totals coverage) ≡ (
            if list_eqb name k
            then or_else (verdict (lookup k floors) totals) (lookup name coverage)
            else lookup name coverage)
    lookup-one_verdict name k floors totals coverage = elim (Option-cases (lookup k floors)) [
      | inl nowhere ↦ rw (nowhere, one_verdict) (ground arith)
      | inr (floor, there) ↦
          elim (Bool-cases (ltb 0 totals.lines_found && n.lt_f (line_rate n totals) floor)) [
            | inl low ↦
                rw (there, low, one_verdict) (lookup-map_insert k name (totals, floor) coverage)
            | inr high ↦ rw (there, high, one_verdict) (ground arith)
          ]
    ]

    under_floor-others :
        (name : Text) (floors : List (Text × F)) (measured : List (Text × CoverageTotals))
        (coverage : List (Text × (CoverageTotals × F)))
        → lookup name measured ≡ none
        → lookup name (under_floor architecture n floors measured coverage) ≡ lookup name coverage
    under_floor-others name floors [] coverage out = refl
    under_floor-others name floors ((k, totals) ∷ measured) coverage out =
        elim (Bool-cases (list_eqb name k)) [
          | inl same ↦ cc (rw same at out)
          | inr apart ↦
              under_floor-others name floors measured (one_verdict k floors totals coverage)
                (rw apart at out)
              ∙ (lookup-one_verdict name k floors totals coverage ∙ rw apart refl)
        ]

    lookup-under_floor :
        (name : Text) (floors : List (Text × F)) (measured : List (Text × CoverageTotals))
        (coverage : List (Text × (CoverageTotals × F)))
        → Ascending measured
        → lookup name coverage ≡ none
        → lookup name (under_floor architecture n floors measured coverage)
          ≡ verdict (lookup name floors) (value_or no_coverage (lookup name measured))
    lookup-under_floor name floors [] coverage up out =
        out ∙ elim (Option-cases (lookup name floors)) [
          | inl nowhere ↦ rw nowhere refl
          | inr (floor, there) ↦ rw there refl
        ]
    lookup-under_floor name floors ((k, totals) ∷ measured) coverage up out =
        let next = one_verdict k floors totals coverage in
        let step = lookup-one_verdict name k floors totals coverage in
        elim (Bool-cases (list_eqb name k)) [
          | inr apart ↦
              rw apart
                (lookup-under_floor name floors measured next up.1 (step ∙ rw (apart, out) refl))
          | inl same ↦
              let at : name ≡ k = (list_eqb_iff name k).0 same in
              let gone : lookup name measured ≡ none =
                subst (λ i. lookup i measured ≡ none) (sym at) (lookup-below k measured up.0) in
              rw same (
                under_floor-others name floors measured next gone
                ∙ step
                ∙ rw (same, out)
                    (or_else-none (verdict (lookup k floors) totals)
                      ∙ ap (λ i. verdict (lookup i floors) totals) (sym at)))
        ]

    coverage_verdict :
        (name : Text) (g : EdgeGroups F)
        → g.coverage ≡ []
        → lookup name (classify_coverage architecture n g).coverage
          ≡ verdict
              (floor_of architecture name none architecture.contract.components)
              (sum_of architecture name no_coverage architecture.coverage)
    unfolding classify_coverage
    coverage_verdict name g nothing =
        let floors = floors_from architecture [] architecture.contract.components in
        let measured = measured_from architecture floors [] architecture.coverage in
        let declared = lookup-floors_from architecture name [] architecture.contract.components in
        let found =
          lookup-under_floor name floors measured g.coverage
            (Ascending-measured_from architecture floors [] architecture.coverage tt)
            (rw nothing refl) in
        elim (Option-cases (lookup name floors)) [
          | inl nowhere ↦ found ∙ rw (sym declared, nowhere) refl
          | inr (floor, there) ↦
              found
              ∙ ap (verdict (lookup name floors)) (
                  lookup-measured_from architecture name floors [] architecture.coverage tt
                    (rw there refl))
              ∙ ap (λ f. verdict f (sum_of architecture name no_coverage architecture.coverage))
                  declared
        ]

    -- A component is reported for its coverage exactly if one of its name declares a floor, its files
    -- have lines that were measured, and the rate of their sum is below the floor; and it is reported
    -- with that sum and that floor, the last one declared.
    pub classify_edges-verdict :
        (ds : List DependencyRecord) (name : Text)
        → lookup name (classify_edges architecture n ds).coverage
          ≡ verdict
              (floor_of architecture name none architecture.contract.components)
              (sum_of architecture name no_coverage architecture.coverage)
    unfolding classify_edges
    classify_edges-verdict ds name =
        let interfaces = declared_interfaces architecture.contract in
        let edges = classify_dependencies architecture interfaces ds no_groups in
        let required = classify_required architecture ds edges in
        let uses = classify_capability_facts architecture architecture.capability_uses required in
        let budgets = classify_budgets architecture architecture.functions uses in
        let kept : budgets.coverage ≡ [] =
          budgets_coverage architecture.functions uses
          ∙ (capabilities_leave architecture architecture.capability_uses required).coverage
          ∙ required_coverage ds edges
          ∙ (dependencies_leave architecture interfaces ds no_groups).coverage in
        ap (lookup name) (coupling_coverage (classify_coverage architecture n budgets))
        ∙ coverage_verdict name budgets kept

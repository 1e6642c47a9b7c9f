-- ===== src/Rules/Contract/Budgets.antt =====
-- `classify_budgets` of contract.rs: which functions are reported over which budget.
use ovecc.Prelude.{
  ℕ, ◌<◌, ◌≡◌, ◌↔◌, ◌⊎◌, inl, inr, ⊎_elim, sym, ap, ◌∙◌, subst, Option, none, some, List, [], ◌∷◌,
  arith, Elem, Holds, Holds-push_group, pair_ord, list_ord, nat_ord, Bool-cases, Option-cases, ltb,
  ltb→lt,
}
use ovecc.Text.{Text, codes}
use ovecc.Core.Legacy.{DependencyRecord}
use ovecc.Core.Facts.{FunctionMetricsRow}
use ovecc.Core.Coverage.{Floats}
use ovecc.Core.Architecture.{ComponentSpec}
use ovecc.Rules.Contract.{ContractInput, Pair, EdgeGroups, no_groups}
use ovecc.Rules.Contract.Classify.{classify_dependencies, declared_interfaces}
use ovecc.Rules.Contract.Requirements.{classify_required}
use ovecc.Rules.Contract.Measures.{
  classify_capability_facts, classify_budgets, classify_coverage, classify_edges, over_budget,
  owner_of,
}
use ovecc.Rules.Contract.Leaves.{
  dependencies_leave, capabilities_leave, required_leaves, coverage_leaves, coupling_leaves,
}

-- The limit is set, to `budget`, and the value is above it.
abbrev pub Exceeds : Option ℕ → ℕ → ℕ → Type 0
Exceeds limit value budget = (limit ≡ some budget) × (budget < value)

-- A function is over the component's budget for the metric.
abbrev pub Overspends : {F : Type 0} → ComponentSpec F → FunctionMetricsRow → Text → ℕ → Type 0
Overspends spec row metric budget =
    (metric ≡ codes "cyclomatic") × Exceeds spec.max_cyclomatic row.cyclomatic budget
    ⊎ (metric ≡ codes "cognitive") × Exceeds spec.max_cognitive row.cognitive budget

module _ {F : Type 0} (architecture : ContractInput F) where
  over_budget_iff :
      (name metric : Text) (row : FunctionMetricsRow) (value : ℕ) (limit : Option ℕ)
      (m : List (Pair × List (FunctionMetricsRow × ℕ))) (q : Pair) (e : FunctionMetricsRow × ℕ)
      → Holds q e (over_budget architecture name metric row value limit m)
        ↔ ((q ≡ (name, metric)) × (e.0 ≡ row) × Exceeds limit value e.1 ⊎ Holds q e m)
  unfolding over_budget
  over_budget_iff name metric row value none m q e = ground arith
  over_budget_iff name metric row value (some budget) m q e =
      let law = Holds-push_group (name, metric) q (row, budget) e m in
      elim (Bool-cases (ltb budget value)) [
        | inl over ↦ rw over (
          λ h.
              ⊎_elim
                (λ r. inl (
                  r.0,
                  ap (λ p. p.0) r.1,
                  let same : budget ≡ e.1 = ap (λ p. p.1) (sym r.1) in
                      (ap some same, subst (λ b. b < value) same (ltb→lt budget value over)),
                ))
                inr (law.0 h),
          λ h. law.1 (⊎_elim (λ r. inl (r.0, cc)) inr h),
        )
        | inr within ↦ rw within (inr, ⊎_elim (λ r. ground arith) (λ h. h))
      ]

  -- The function belongs to the component, which has that budget for the metric, and is over it.
  abbrev pub Reported : FunctionMetricsRow → Pair → ℕ → Type 0
  Reported row q budget =
      (spec : ComponentSpec F) × (owner_of architecture row.file_path ≡ some (q.0, spec))
      × Overspends spec row q.1 budget

  row_iff :
      (name : Text) (spec : ComponentSpec F) (row : FunctionMetricsRow)
      (m : List (Pair × List (FunctionMetricsRow × ℕ))) (q : Pair) (e : FunctionMetricsRow × ℕ)
      → owner_of architecture row.file_path ≡ some (name, spec)
      → Holds q e (
          over_budget architecture name (codes "cognitive") row row.cognitive spec.max_cognitive (
            over_budget architecture name
              (codes "cyclomatic")
              row
              row.cyclomatic
              spec.max_cyclomatic
              m))
        ↔ ((e.0 ≡ row) × Reported e.0 q e.1 ⊎ Holds q e m)
  row_iff name spec row m q e owned =
      let first =
        over_budget_iff name (codes "cyclomatic") row row.cyclomatic spec.max_cyclomatic m q e in
      let second =
        over_budget_iff name (codes "cognitive") row row.cognitive spec.max_cognitive
          (over_budget architecture name (codes "cyclomatic") row row.cyclomatic spec.max_cyclomatic
            m)
          q e in
      let enter : (q.0 ≡ name) → (e.0 ≡ row) → Overspends spec row q.1 e.1 → Reported e.0 q e.1 =
        λ at is over. (spec, cc, subst (λ r. Overspends spec r q.1 e.1) (sym is) over) in
      (
        λ h.
            ⊎_elim (λ r. inl (r.1, enter (ap (λ p. p.0) r.0) r.1 (inr (ap (λ p. p.1) r.0, r.2))))
              (λ h.
                ⊎_elim
                  (λ r. inl (r.1, enter (ap (λ p. p.0) r.0) r.1 (inl (ap (λ p. p.1) r.0, r.2)))) inr
                  (first.0 h))
              (second.0 h),
        ⊎_elim
            (λ (is, (other, found, over)).
              let both : ◌≡◌ {A = Option (Text × ComponentSpec F)} (some (q.0, other))
                  (some (name, spec)) =
                cc in
              let at : q.0 ≡ name = cc in
              let same : other ≡ spec = cc in
              let here : Overspends spec row q.1 e.1 =
                subst (λ r. Overspends spec r q.1 e.1) is
                  (subst (λ s. Overspends s e.0 q.1 e.1) same over) in
              ⊎_elim (λ r. second.1 (inr (first.1 (inl (cc, is, r.1)))))
                (λ r. second.1 (inl (cc, is, r.1))) here)
            (λ h. second.1 (inr (first.1 (inr h)))),
      )

  rows_iff :
      (rows : List FunctionMetricsRow) (g : EdgeGroups F) (q : Pair) (e : FunctionMetricsRow × ℕ)
      → Holds q e (classify_budgets architecture rows g).budgets
        ↔ (Elem e.0 rows × Reported e.0 q e.1 ⊎ Holds q e g.budgets)
  unfolding classify_budgets
  rows_iff [] g q e = ground arith
  rows_iff (row ∷ rows) g q e = elim (Option-cases (owner_of architecture row.file_path)) [
    | inl nobody ↦
        let law = rows_iff rows g q e in
        rw (nobody, classify_budgets)
          (
            λ h. ⊎_elim (λ r. inl (inr r.0, r.1)) inr (law.0 h),
            ⊎_elim (λ (m, r). ⊎_elim (λ is. cc) (λ k. law.1 (inl (k, r))) m) (λ h. law.1 (inr h)),
          )
    | inr ((name, spec), owned) ↦
        let law =
          rows_iff rows
            (record g {
              budgets =
                  over_budget architecture name (codes "cognitive") row row.cognitive
                    spec.max_cognitive
                    (over_budget architecture name (codes "cyclomatic") row row.cyclomatic
                      spec.max_cyclomatic g.budgets);
            })
            q e in
        let here = row_iff name spec row g.budgets q e owned in
        rw (owned, classify_budgets)
          (
            λ h.
                ⊎_elim (λ r. inl (inr r.0, r.1))
                  (λ k. ⊎_elim (λ r. inl (inl r.0, r.1)) inr (here.0 k)) (law.0 h),
            ⊎_elim
                (λ (m, r).
                  ⊎_elim (λ is. law.1 (inr (here.1 (inl (is, r))))) (λ k. law.1 (inl (k, r))) m)
                (λ h. law.1 (inr (here.1 (inr h)))),
          )
  ]

  -- Exactly the functions of a component that are over its budget for a metric are reported, under
  -- the component and the metric and with that budget.
  pub classify_edges-Reported :
      (n : Floats F) (ds : List DependencyRecord) (q : Pair) (row : FunctionMetricsRow) (budget : ℕ)
      → Holds q (row, budget) (classify_edges architecture n ds).budgets
        ↔ (Elem row architecture.functions × Reported row q budget)
  unfolding classify_edges
  classify_edges-Reported n ds q row budget =
      let interfaces = declared_interfaces architecture.contract in
      let edges = classify_dependencies architecture interfaces ds no_groups in
      let required = classify_required architecture ds edges in
      let uses = classify_capability_facts architecture architecture.capability_uses required in
      let budgets = classify_budgets architecture architecture.functions uses in
      let law = rows_iff architecture.functions uses q (row, budget) in
      let kept : uses.budgets ≡ [] =
        (capabilities_leave architecture architecture.capability_uses required).budgets
        ∙ required_leaves architecture ds edges
        ∙ (dependencies_leave architecture interfaces ds no_groups).budgets in
      let last : (classify_edges architecture n ds).budgets ≡ budgets.budgets =
        (coupling_leaves architecture (classify_coverage architecture n budgets)).0
        ∙ (coverage_leaves architecture n budgets).0 in
      (
        λ h.
            ⊎_elim (λ r. r) (λ k. absurd (subst (Holds q (row, budget)) kept k))
              (law.0 (subst (Holds q (row, budget)) last h)),
        λ r. subst (Holds q (row, budget)) (sym last) (law.1 (inl r)),
      )

-- ===== src/Rules/Contract/Banned.antt =====
-- `classify_external` of contract.rs: which imports are reported as banned, under which pattern.
-- Of the imports it reads those with `is_external`: of packages, and of files that were not found.
use ovecc.Prelude.{
  ◌≡◌, ◌↔◌, ◌⊎◌, inl, inr, ⊎_elim, refl, sym, ap, ◌∙◌, subst, Bool, true, false, Option, none, some,
  List, [], ◌∷◌, arith, Elem, Holds, pair_ord, list_ord, nat_ord, Bool-cases, Option-cases,
  list_eqb, nat_eq, list_eq, lookup, contains,
}
use ovecc.Text.{Text}
use ovecc.Core.Legacy.{DependencyRecord}
use ovecc.Core.Facts.{CapabilityFact, FunctionMetricsRow, capability_eq}
use ovecc.Core.Coverage.{Floats}
use ovecc.Core.Architecture.{DependsOn, ComponentSpec, component}
use ovecc.Rules.Specifier.{specifier_matches}
use ovecc.Rules.Contract.{ContractInput, Pair, PairMap, EdgeGroups, no_groups}
use ovecc.Rules.Contract.Classify.{
  Prohibition, restricted, forbidden, prohibition, declaration, classify_external_capability,
  classify_external, classify_entry, classify_permitted, classify_crossing, classify_ends,
  classify_internal, classify_from, classify_edge, classify_dependencies, declared_interfaces,
}
use ovecc.Rules.Contract.Requirements.{classify_required}
use ovecc.Rules.Contract.Measures.{
  classify_capability_facts, classify_budgets, classify_coverage, classify_coupling, classify_edges,
  owner_of,
}
use ovecc.Rules.Contract.Bans.{ban_iff}

module _ {F : Type 0} (architecture : ContractInput F) where
  -- The component denies specifiers of the pattern.
  abbrev pub Denies : Pair → Type 0
  Denies q =
      (spec : ComponentSpec F) × (component architecture.contract q.0 ≡ some spec)
      × Elem q.1 spec.external_deny

  -- An import that is marked external, by a file of the component, that matches its pattern.
  abbrev pub IsBanned : DependencyRecord → Pair → Type 0
  IsBanned d q =
      (d.is_external ≡ true)
      × (lookup d.source_file_path architecture.component_of ≡ some q.0)
      × Denies q
      × (specifier_matches d.specifier q.1 ≡ true)

  external_iff :
      (source : Text) (d : DependencyRecord) (m : PairMap) (q : Pair) (e : DependencyRecord)
      → Holds q e (classify_external architecture source d m) ↔ (
          (e ≡ d) × (q.0 ≡ source) × Denies q × (specifier_matches d.specifier q.1 ≡ true)
          ⊎ Holds q e m)
  unfolding classify_external
  external_iff source d m q e = elim (Option-cases (component architecture.contract source)) [
    | inl nobody ↦
        rw (nobody, classify_external) (inr, ⊎_elim (λ (a, b, (spec, found, i), k). cc) (λ h. h))
    | inr (spec, found) ↦
        let law = ban_iff source d spec.external_deny m q e in
        rw (found, classify_external)
          (
            λ h.
                ⊎_elim
                  (λ (a, b, i, k).
                    inl (a, b, (spec, ap (component architecture.contract) b ∙ found, i), k))
                  inr (law.0 h),
            ⊎_elim
                (λ (a, b, (other, at, i), k).
                  let both : component architecture.contract source ≡ some other =
                    ap (component architecture.contract) (sym b) ∙ at in
                  let same : other ≡ spec = cc in
                  law.1 (
                    inl
                      (a, b, subst (λ (s : ComponentSpec F). Elem q.1 s.external_deny) same i, k)))
                (λ h. law.1 (inr h)),
          )
  ]

  module _ (i : List (Text × List Text)) (d : DependencyRecord) where
    entry_banned :
        (entry : Option DependsOn) (spec : ComponentSpec F) (pair : Pair) (g : EdgeGroups F)
        → (classify_entry architecture entry spec pair d g).banned ≡ g.banned
    unfolding classify_entry
    entry_banned (some entry) spec pair g = refl
    entry_banned none spec pair g = ground arith

    permitted_banned :
        (spec : Option (ComponentSpec F)) (pair : Pair) (path : Text) (g : EdgeGroups F)
        → (classify_permitted architecture i spec pair path d g).banned ≡ g.banned
    unfolding classify_permitted
    permitted_banned none pair path g = refl
    permitted_banned (some spec) pair path g =
        entry_banned (declaration spec pair.1) spec pair _ ∙ refl

    crossing_banned :
        (answer : Option Prohibition) (pair : Pair) (path : Text) (g : EdgeGroups F)
        → (classify_crossing architecture i answer pair path d g).banned ≡ g.banned
    unfolding classify_crossing
    crossing_banned (some restricted) pair path g = refl
    crossing_banned (some forbidden) pair path g = refl
    crossing_banned none pair path g =
        permitted_banned (component architecture.contract pair.0) pair path g

    ends_banned :
        (source target : Option Text) (path : Text) (g : EdgeGroups F)
        → (classify_ends architecture i source target path d g).banned ≡ g.banned
    unfolding classify_ends
    ends_banned none target path g = refl
    ends_banned (some s) none path g = refl
    ends_banned (some s) (some t) path g = elim (Bool-cases (list_eqb s t)) [
      | inl same ↦ rw same refl
      | inr apart ↦
          rw apart (crossing_banned (prohibition architecture.contract (s, t)) (s, t) path g)
    ]

    internal_banned :
        (source target : Option Text) (g : EdgeGroups F)
        → (classify_internal architecture i source target d g).banned ≡ g.banned
    unfolding classify_internal
    internal_banned source none g = refl
    internal_banned source (some path) g =
        ends_banned source (lookup path architecture.component_of) path g

    capability_banned :
        (source : Text) (g : EdgeGroups F)
        → (classify_external_capability architecture source d g).banned ≡ g.banned
    unfolding classify_external_capability
    capability_banned source g = ground arith

    abbrev Bans : Bool → Option Text → Pair → Type 0
    Bans external source q =
        (external ≡ true)
        × (source ≡ some q.0)
        × Denies q
        × (specifier_matches d.specifier q.1 ≡ true)

    from_iff :
        (external : Bool) (source : Option Text) (g : EdgeGroups F) (q : Pair)
        (e : DependencyRecord)
        → Holds q e (classify_from architecture i external source d g).banned
          ↔ ((e ≡ d) × Bans external source q ⊎ Holds q e g.banned)
    unfolding classify_from
    from_iff true none g q e = (inr, ⊎_elim (λ (a, (b, at, den, r)). cc) (λ h. h))
    from_iff true (some source) g q e =
        let m = classify_external architecture source d g.banned in
        let law = external_iff source d g.banned q e in
        let kept = capability_banned source (record g { banned = m }) in
        (
          λ h.
              ⊎_elim (λ (a, b, den, r). inl (a, (refl, ap some (sym b), den, r))) inr
                (law.0 (subst (Holds q e) kept h)),
          λ h.
              subst (Holds q e) (sym kept)
                (law.1 (⊎_elim (λ (a, (b, at, den, r)). inl (a, cc, den, r)) inr h)),
        )
    from_iff false source g q e =
        let kept = internal_banned source d.target_file_path g in
        (
          λ h. inr (subst (Holds q e) kept h),
          ⊎_elim (λ (a, (b, at, den, r)). cc) (λ h. subst (Holds q e) (sym kept) h),
        )

  dependencies_iff :
      (i : List (Text × List Text)) (ds : List DependencyRecord) (g : EdgeGroups F) (q : Pair)
      (e : DependencyRecord)
      → Holds q e (classify_dependencies architecture i ds g).banned
        ↔ (Elem e ds × IsBanned e q ⊎ Holds q e g.banned)
  unfolding classify_dependencies classify_edge
  dependencies_iff i [] g q e = (inr, ⊎_elim (λ h. absurd h.0) (λ h. h))
  dependencies_iff i (d ∷ ds) g q e =
      let next = classify_edge architecture i d g in
      let rest = dependencies_iff i ds next q e in
      let step =
        from_iff i d d.is_external (lookup d.source_file_path architecture.component_of) g q e in
      (
        λ h.
            ⊎_elim (λ (k, b). inl (inr k, b))
              (λ h.
                ⊎_elim (λ (is, b). inl (inl is, subst (λ x. IsBanned x q) (sym is) b)) inr
                  (step.0 h))
              (rest.0 h),
        ⊎_elim
            (λ (k, b).
              ⊎_elim (λ is. rest.1 (inr (step.1 (inl (is, subst (λ x. IsBanned x q) is b)))))
                (λ k. rest.1 (inl (k, b))) k)
            (λ h. rest.1 (inr (step.1 (inr h)))),
      )

  required_banned :
      (ds : List DependencyRecord) (g : EdgeGroups F)
      → (classify_required architecture ds g).banned ≡ g.banned
  unfolding classify_required
  required_banned ds g = ground arith

  facts_banned :
      (uses : List (Text × CapabilityFact)) (g : EdgeGroups F)
      → (classify_capability_facts architecture uses g).banned ≡ g.banned
  unfolding classify_capability_facts
  facts_banned [] g = refl
  facts_banned ((file, fact) ∷ uses) g = elim (Option-cases (owner_of architecture file)) [
    | inl nobody ↦ rw (nobody, classify_capability_facts) (facts_banned uses g)
    | inr ((name, spec), owned) ↦
        elim (Bool-cases (contains fact.capability spec.deny_capabilities)) [
          | inl denied ↦ rw (owned, denied, classify_capability_facts) (facts_banned uses _ ∙ refl)
          | inr allowed ↦ rw (owned, allowed, classify_capability_facts) (facts_banned uses g)
        ]
  ]

  budgets_banned :
      (rows : List FunctionMetricsRow) (g : EdgeGroups F)
      → (classify_budgets architecture rows g).banned ≡ g.banned
  unfolding classify_budgets
  budgets_banned [] g = refl
  budgets_banned (row ∷ rows) g = elim (Option-cases (owner_of architecture row.file_path)) [
    | inl nobody ↦ rw (nobody, classify_budgets) (budgets_banned rows g)
    | inr ((name, spec), owned) ↦ rw (owned, classify_budgets) (budgets_banned rows _ ∙ refl)
  ]

  coverage_banned :
      (n : Floats F) (g : EdgeGroups F) → (classify_coverage architecture n g).banned ≡ g.banned
  unfolding classify_coverage
  coverage_banned n g = refl

  coupling_banned : (g : EdgeGroups F) → (classify_coupling architecture g).banned ≡ g.banned
  unfolding classify_coupling
  coupling_banned g = ground arith

  -- Exactly the imports marked as external, whether of a package or of a path that was not resolved,
  -- are reported as banned, under a component and a pattern, whose specifier matches the pattern, by
  -- a file of the component, which denies it.
  pub classify_edges-IsBanned :
      (n : Floats F) (ds : List DependencyRecord) (q : Pair) (d : DependencyRecord)
      → Holds q d (classify_edges architecture n ds).banned ↔ (Elem d ds × IsBanned d q)
  unfolding classify_edges
  classify_edges-IsBanned n ds q d =
      let interfaces = declared_interfaces architecture.contract in
      let edges = classify_dependencies architecture interfaces ds no_groups in
      let required = classify_required architecture ds edges in
      let uses = classify_capability_facts architecture architecture.capability_uses required in
      let budgets = classify_budgets architecture architecture.functions uses in
      let law = dependencies_iff interfaces ds no_groups q d in
      let kept : (classify_edges architecture n ds).banned ≡ edges.banned =
        coupling_banned (classify_coverage architecture n budgets)
        ∙ coverage_banned n budgets
        ∙ budgets_banned architecture.functions uses
        ∙ facts_banned architecture.capability_uses required
        ∙ required_banned ds edges in
      (
        λ h. ⊎_elim (λ r. r) (λ x. absurd x) (law.0 (subst (Holds q d) kept h)),
        λ r. subst (Holds q d) (sym kept) (law.1 (inl r)),
      )

-- ===== src/Rules/Contract/Required.antt =====
-- `classify_required` of contract.rs: which files are reported for a requirement.
mod Importers
mod Targets
use ovecc.Prelude.{
  ◌≡◌, ◌↔◌, ◌⊎◌, inl, inr, ⊎_elim, refl, sym, ap, ◌∙◌, subst, Bool, true, false, not, Option, none,
  some, List, [], ◌∷◌, map, arith, Elem, Distinct, Distinct-unique, Holds, keep_if, Elem-keep_if,
  Bool-cases, List-cases, lookup, list_eq, nat_eq,
}
use ovecc.Text.{Text}
use ovecc.Core.Legacy.{DependencyRecord}
use ovecc.Core.Coverage.{Floats}
use ovecc.Core.Architecture.{ComponentSpec}
use ovecc.Core.Architecture.Validate.{is_nil}
use ovecc.Rules.Contract.{ContractInput, Pair, EdgeGroups, no_groups}
use ovecc.Rules.Contract.Classify.{classify_dependencies, declared_interfaces}
use ovecc.Rules.Contract.Requirements.{classify_required, importers_from, requirements_from}
use ovecc.Rules.Contract.Measures.{
  classify_capability_facts, classify_budgets, classify_coverage, classify_coupling, classify_edges,
}
use ovecc.Rules.Contract.Leaves.{
  dependencies_leave, capabilities_leave, budgets_leave, coverage_leaves, coupling_leaves,
}
use ovecc.Rules.Contract.Required.Importers.{
  Hits, Names, Present, importers-Present, importers-Names,
}
use ovecc.Rules.Contract.Required.Targets.{
  Unmet, requirements-Given, requirements-Present, files_iff,
}

module _ {F : Type 0} (architecture : ContractInput F) (ds : List DependencyRecord) where
  -- The file lies in the component, which requires the target; the file imports something, but
  -- nothing of the target.
  pub record Omits (file owner target : Text) : Type 0 where
    pub owned : Elem (file, owner) architecture.component_of
    pub required :
        (c : ComponentSpec F) × Elem c architecture.contract.components
        × (c.name ≡ owner)
        × Elem target c.must_depend_on
    pub imports : (d : DependencyRecord) × Elem d ds × (d.source_file_path ≡ file)
    pub missed : ¬ (
        (d : DependencyRecord) × Elem d ds
        × (d.source_file_path ≡ file)
        × Hits architecture.component_of d target)

  abbrev requiring : List (ComponentSpec F)
  requiring = keep_if (λ c. not (is_nil c.must_depend_on)) architecture.contract.components

  is_nil-Elem : (t : Text) (ts : List Text) → Elem t ts → not (is_nil ts) ≡ true
  is_nil-Elem t [] m = absurd m
  is_nil-Elem t (x ∷ ts) m = refl

  requiring_iff :
      (owner target : Text)
      → Distinct (map (λ (c : ComponentSpec F). c.name) architecture.contract.components)
      → ((targets : List Text) × (lookup owner (requirements_from [] requiring) ≡ some targets)
          × Elem target targets)
        ↔ ((c : ComponentSpec F) × Elem c architecture.contract.components
            × (c.name ≡ owner)
            × Elem target c.must_depend_on)
  requiring_iff owner target distinct =
      let components = architecture.contract.components in
      let needs : ComponentSpec F → Bool = λ c. not (is_nil c.must_depend_on) in
      let given : (ts : List Text)
          → lookup owner (requirements_from [] requiring) ≡ some ts
          → (c : ComponentSpec F) × Elem c components × (c.name ≡ owner) × (c.must_depend_on ≡ ts) =
        λ ts e.
          ⊎_elim (λ (c, i, n, s). (c, ((Elem-keep_if needs c components).0 i).0, n, s)) (λ h. cc)
            (requirements-Given [] requiring owner ts e) in
      (
        λ (ts, e, i). let (c, j, n, s) = given ts e in (c, j, n, subst (Elem target) (sym s) i),
        λ (c, j, n, i).
            let kept =
              (Elem-keep_if needs c components).1 (j, is_nil-Elem target c.must_depend_on i) in
            let (ts, e) = requirements-Present [] requiring owner (inl (c, kept, n)) in
            let (other, k, o, s) = given ts e in
            let same =
              Distinct-unique (λ (c : ComponentSpec F). c.name) components distinct other c k j
                (cc) in
            (
              ts,
              e,
              subst (Elem target) s
                  (subst (λ (x : ComponentSpec F). Elem target x.must_depend_on) (sym same) i),
            ),
      )

  is_nil-lookup : (m : List (Text × List Text)) (k : Text) → is_nil m ≡ true → lookup k m ≡ none
  is_nil-lookup [] k e = refl
  is_nil-lookup (b ∷ m) k e = cc

  abbrev importing : List (Text × List Text)
  importing = importers_from architecture.component_of [] ds

  required_iff :
      (g : EdgeGroups F) (q : Pair) (v : Text)
      → Holds q v (classify_required architecture ds g).required ↔ (
          Elem (v, q.0) architecture.component_of
            × Unmet (lookup q.0 (requirements_from [] requiring)) (lookup v importing) q.1
          ⊎ Holds q v g.required)
  unfolding classify_required
  required_iff g q v = elim (Bool-cases (is_nil (requirements_from [] requiring))) [
    | inl nothing ↦
        let out = is_nil-lookup (requirements_from [] requiring) q.0 nothing in
        rw nothing (inr, ⊎_elim (λ (i, ((ts, e, k), r)). cc) (λ h. h))
    | inr some_ ↦
        let law =
          files_iff (requirements_from [] requiring) importing architecture.component_of g.required
            q v in
        rw some_ law
  ]

  Unmet-iff :
      (file owner target : Text)
      → Distinct (map (λ (c : ComponentSpec F). c.name) architecture.contract.components)
      → (Elem (file, owner) architecture.component_of
          × Unmet (lookup owner (requirements_from [] requiring)) (lookup file importing) target)
        ↔ Omits file owner target
  Unmet-iff file owner target distinct =
      let needs = requiring_iff owner target distinct in
      let present = importers-Present architecture.component_of [] ds file tt in
      let names = importers-Names architecture.component_of [] ds file target tt in
      (
        λ (i, (need, (r, e, out))). record {
          owned = i;
          required = needs.0 need;
          imports = ⊎_elim (λ h. h) (λ (x, k). cc) (present.0 (r, e));
          missed = λ h.
              let (s, k, m) = names.1 (inl h) in
              let same : s ≡ r = cc in out (subst (Elem target) same m);
        },
        λ h.
            let (r, e) = present.1 (inl h.imports) in
            (
              h.owned,
              (
                needs.1 h.required,
                (r, e, λ m. h.missed (⊎_elim (λ k. k) (λ (x, k, n). cc) (names.0 (r, e, m)))),
              ),
            ),
      )

  -- Where the components have distinct names, exactly the files of a component that import
  -- something, but nothing of a component that theirs must depend on, are reported, under the two.
  pub classify_edges-Omits :
      (n : Floats F) (file owner target : Text)
      → Distinct (map (λ (c : ComponentSpec F). c.name) architecture.contract.components)
      → Holds (owner, target) file (classify_edges architecture n ds).required
        ↔ Omits file owner target
  unfolding classify_edges
  classify_edges-Omits n file owner target distinct =
      let interfaces = declared_interfaces architecture.contract in
      let edges = classify_dependencies architecture interfaces ds no_groups in
      let required = classify_required architecture ds edges in
      let uses = classify_capability_facts architecture architecture.capability_uses required in
      let budgets = classify_budgets architecture architecture.functions uses in
      let law = required_iff edges (owner, target) file in
      let meaning = Unmet-iff file owner target distinct in
      let none_before : edges.required ≡ [] =
        (dependencies_leave architecture interfaces ds no_groups).required in
      let last : (classify_edges architecture n ds).required ≡ required.required =
        (coupling_leaves architecture (classify_coverage architecture n budgets)).1
        ∙ (coverage_leaves architecture n budgets).1
        ∙ budgets_leave architecture architecture.functions uses
        ∙ (capabilities_leave architecture architecture.capability_uses required).required in
      (
        λ h. meaning.0 (
            ⊎_elim (λ r. r) (λ k. absurd (subst (Holds (owner, target) file) none_before k))
              (law.0 (subst (Holds (owner, target) file) last h))),
        λ r. subst (Holds (owner, target) file) (sym last) (law.1 (inl (meaning.1 r))),
      )

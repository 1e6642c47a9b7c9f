-- ===== src/Core/Architecture/Validity/Components.antt =====
-- The checks of `validate` in architecture.rs on one component and on its consumers, each with the
-- condition that it decides.
use ovecc.Prelude.{
  ℕ, ◌≡◌, ◌≢◌, ◌↔◌, inl, inr, refl, not, Option, none, some, List, [], ◌∷◌, map, Elem, All, All-imp,
  arith, Result, ok, ◌>>◌, >>_iff, refuse_if, each, each_iff, contains, contains_iff, nat_eq,
  list_eq, list_eqb, list_eqb_iff, Option-cases, subst, All-always,
}
use ovecc.Text.{Text, is_some}
use ovecc.Core.Coverage.{Floats}
use ovecc.Core.Architecture.{target_of, ComponentSpec, ArchitectureContract}
use ovecc.Core.Architecture.Validate.{
  mentioned, check_target, check_forbidden, validate_dependencies, check_access, check_consumers,
  validate_access, validate_paths, validate_budgets, validate_component, names_itself,
  names_unknown, no_paths, invalid_glob, zero_cyclomatic, bad_coverage, ContractError, is_nil,
  is_zero, bad_floor,
}
use ovecc.Core.Architecture.Validity.{
  Declares, Admits, names_of, IsConsistent, IsAdmitted, IsFloor, HasLimits,
}

-- Two checks in a row decide both conditions.
both :
    {E P Q : Type 0} (m k : Result E (Unit {0}))
    → (m ≡ ok tt) ↔ P
    → (k ≡ ok tt) ↔ Q
    → ((m >> k) ≡ ok tt) ↔ (P × Q)
both m k f g = (
  λ h. let r = (>>_iff m k tt).0 h in (f.0 r.0, g.0 r.1),
  λ h. (>>_iff m k tt).1 (f.1 h.0, g.1 h.1),
)

-- A loop of checks decides the condition of its body everywhere.
every :
    {E A : Type 0} (P : A → Type 0) (f : A → Result E (Unit {0})) (xs : List A)
    → ((x : A) → (f x ≡ ok tt) ↔ P x)
    → (each f xs ≡ ok tt) ↔ All P xs
every P f xs law = (
  λ h. All-imp _ _ xs (λ x. (law x).0) ((each_iff f xs).0 h),
  λ h. (each_iff f xs).1 (All-imp _ _ xs (λ x. (law x).1) h),
)

module _ {F : Type 0} where
  check_target_iff :
      (c : ComponentSpec F) (names : List Text) (t : Text × Text)
      → (check_target c names (t.0, t.1) ≡ ok tt) ↔ ((t.1 ≢ c.name) × Elem t.1 names)
  unfolding check_target
  check_target_iff c names t =
      both (refuse_if (list_eqb t.1 c.name) (names_itself c.name t.0))
        (refuse_if (not (contains t.1 names)) (names_unknown c.name t.1 t.0))
        (ground (arith, list_eqb_iff t.1 c.name)) (ground (arith, contains_iff t.1 names))

  check_forbidden_iff :
      (c : ComponentSpec F) (t : Text) → (check_forbidden c t ≡ ok tt) ↔ (¬ Declares c t)
  unfolding check_forbidden
  check_forbidden_iff c t =
      ground (arith, contains_iff t (map target_of c.depends_on), contains_iff t c.must_depend_on)

  check_access_iff :
      (target : ComponentSpec F) (allowed : List Text) (source : ComponentSpec F)
      → (check_access target allowed source ≡ ok tt)
        ↔ (source.name ≢ target.name → Declares source target.name → Elem source.name allowed)
  unfolding check_access
  check_access_iff target allowed source = ground (
    arith,
    list_eqb_iff source.name target.name,
    contains_iff source.name allowed,
    contains_iff target.name (map target_of source.depends_on),
    contains_iff target.name source.must_depend_on,
  )

  -- The condition on one target and one source.
  abbrev pub Respects : ComponentSpec F → ComponentSpec F → Type 0
  Respects target source =
      source.name ≢ target.name → Declares source target.name → Admits target source.name

  check_consumers-none :
      (components : List (ComponentSpec F)) (target : ComponentSpec F)
      → target.consumed_by ≡ none
      → check_consumers components target ≡ ok tt
  unfolding check_consumers
  check_consumers-none components target anyone = rw (anyone, check_consumers)

  check_consumers-some :
      (components : List (ComponentSpec F)) (target : ComponentSpec F) (allowed : List Text)
      → target.consumed_by ≡ some allowed
      → check_consumers components target ≡ each (check_access target allowed) components
  unfolding check_consumers
  check_consumers-some components target allowed listed = rw (listed, check_consumers)

  Respects-iff :
      (target source : ComponentSpec F) (allowed : List Text)
      → target.consumed_by ≡ some allowed
      → (check_access target allowed source ≡ ok tt) ↔ Respects target source
  Respects-iff target source allowed listed = (
    λ h apart declared other e.
        let same : allowed ≡ other = cc in
        subst (λ l. Elem source.name l) same
          ((check_access_iff target allowed source).0 h apart declared),
    λ h.
        (check_access_iff target allowed source).1
          (λ apart declared. h apart declared allowed listed),
  )

  check_consumers_iff :
      (components : List (ComponentSpec F)) (target : ComponentSpec F)
      → (check_consumers components target ≡ ok tt) ↔ All (Respects target) components
  check_consumers_iff components target = elim (Option-cases target.consumed_by) [
    | inl anyone ↦ (
      λ h. All-always components (λ source apart declared allowed e. cc),
      λ h. check_consumers-none components target anyone,
    )
    | inr (allowed, listed) ↦ rw (check_consumers-some components target allowed listed) (
        every (Respects target) (check_access target allowed) components
          (λ source. Respects-iff target source allowed listed))
  ]

  pub validate_access_iff :
      (contract : ArchitectureContract F)
      → (validate_access contract ≡ ok tt) ↔ IsAdmitted contract.components
  unfolding validate_access
  validate_access_iff contract =
      every (λ target. All (Respects target) contract.components)
        (check_consumers contract.components) contract.components
        (check_consumers_iff contract.components)

  validate_dependencies_iff :
      (names : List Text) (components : List (ComponentSpec F)) (c : ComponentSpec F)
      → ((t : Text) → Elem t names ↔ Elem t (names_of components))
      → (validate_dependencies names c ≡ ok tt) ↔ IsConsistent components c
  unfolding validate_dependencies
  validate_dependencies_iff names components c members =
      let checks =
        both (each (check_target c names) (mentioned c))
          (each (check_forbidden c) c.cannot_depend_on)
          (every (λ t. (t.1 ≢ c.name) × Elem t.1 (names_of components)) (check_target c names)
            (mentioned c)
            (λ t. (
              λ h. let r = (check_target_iff c names t).0 h in (r.0, (members t.1).0 r.1),
              λ h. (check_target_iff c names t).1 (h.0, (members t.1).1 h.1),
            )))
          (every (λ t. ¬ Declares c t) (check_forbidden c) c.cannot_depend_on
            (check_forbidden_iff c)) in
      (
        λ h. let r = checks.0 h in record { targets = r.0; not_both = r.1 },
        λ h. checks.1 (h.targets, h.not_both),
      )

module _ {F Matcher : Type 0} (n : Floats F) (compile_glob : Text → Option Matcher) where
  given :
      (paths : List Text) (e : ContractError) → (refuse_if (is_nil paths) e ≡ ok tt) ↔ (paths ≢ [])
  given [] e = ground arith
  given (p ∷ ps) e = ground arith

  readable_iff :
      (c : ComponentSpec F) (pattern : Text)
      → (refuse_if (not (is_some (compile_glob pattern))) (invalid_glob c.name pattern) ≡ ok tt)
        ↔ (compile_glob pattern ≢ none)
  readable_iff c pattern = ground arith

  validate_paths_iff :
      (c : ComponentSpec F)
      → (validate_paths n compile_glob c ≡ ok tt)
        ↔ ((c.paths ≢ []) × All (λ pattern. compile_glob pattern ≢ none) c.paths)
  unfolding validate_paths
  validate_paths_iff c =
      both (refuse_if (is_nil c.paths) (no_paths c.name))
        (each
          (λ pattern.
            refuse_if (not (is_some (compile_glob pattern))) (invalid_glob c.name pattern))
          c.paths)
        (given c.paths (no_paths c.name)) (every _ _ c.paths (readable_iff c))

  positive :
      (budget : Option ℕ) (e : ContractError)
      → (refuse_if (is_zero n compile_glob budget) e ≡ ok tt) ↔ (budget ≢ some 0)
  positive none e = ground arith
  positive (some b) e = ground arith

  floored :
      (floor : Option F) (e : ContractError)
      → (refuse_if (bad_floor n compile_glob floor) e ≡ ok tt)
        ↔ ((x : F) → floor ≡ some x → IsFloor n compile_glob x)
  floored none e = (λ h x k. cc, λ h. refl)
  floored (some x) e = (
    λ h y k. let same : x ≡ y = cc in subst (IsFloor n compile_glob) same (ground arith),
    λ h. ground (arith, h x refl),
  )

  validate_budgets_iff :
      (c : ComponentSpec F)
      → (validate_budgets n compile_glob c ≡ ok tt) ↔ (
          (c.max_cyclomatic ≢ some 0)
          × ((x : F) → c.min_coverage ≡ some x → IsFloor n compile_glob x))
  unfolding validate_budgets
  validate_budgets_iff c =
      both (refuse_if (is_zero n compile_glob c.max_cyclomatic) (zero_cyclomatic c.name))
        (refuse_if (bad_floor n compile_glob c.min_coverage) (bad_coverage c.name))
        (positive c.max_cyclomatic (zero_cyclomatic c.name))
        (floored c.min_coverage (bad_coverage c.name))

  pub validate_component_iff :
      (names : List Text) (components : List (ComponentSpec F)) (c : ComponentSpec F)
      → ((t : Text) → Elem t names ↔ Elem t (names_of components))
      → (validate_component n compile_glob names c ≡ ok tt)
        ↔ (HasLimits n compile_glob c × IsConsistent components c)
  unfolding validate_component
  validate_component_iff names components c members =
      let deps = validate_dependencies_iff names components c members in
      let paths = validate_paths_iff c in
      let budgets = validate_budgets_iff c in
      let first =
        both (validate_paths n compile_glob c) (validate_dependencies names c) paths deps in
      let all =
        both (validate_paths n compile_glob c >> validate_dependencies names c)
          (validate_budgets n compile_glob c) first budgets in
      (
        λ h.
            let r = all.0 h in
            (record { has_paths = r.0.0.0; globs = r.0.0.1; budget = r.1.0; floor = r.1.1 }, r.0.1),
        λ h. all.1 (((h.0.has_paths, h.0.globs), h.1), (h.0.budget, h.0.floor)),
      )

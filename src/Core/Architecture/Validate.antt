-- ===== src/Core/Architecture/Validate.antt =====
-- crates/ovecc-core/src/architecture.rs: `ArchitectureContract::validate`. The compiler of globs
-- is external; only whether it accepts a pattern counts here.
use ovecc.Prelude.{
  ℕ, Bool, true, false, not, ◌&&◌, ◌||◌, Option, none, some, List, [], ◌∷◌, ◌++◌, if◌then◌else◌,
  list_eqb, nat_eq, list_eq, nat_ord, list_ord, contains, nat_eqb, map, Result, ok, err, ◌>>=◌,
  ◌>>◌, each, refuse_if, set_insert,
}
use ovecc.Text.{Text, codes, trim, empty, is_some}
use ovecc.Core.Coverage.{Floats}
use ovecc.Core.Architecture.{target_of, ComponentSpec, ArchitectureContract, contract_schema}

-- The errors, with the names that their messages quote.
pub data ContractError : Type 0 where
  unsupported_schema : ℕ → ContractError
  no_components empty_name : ContractError
  declared_twice no_paths zero_cyclomatic bad_coverage unreadable_glob : Text → ContractError
  invalid_glob : Text → Text → ContractError
  names_itself : Text → Text → ContractError
  names_unknown : Text → Text → Text → ContractError
  forbids_and_requires : Text → Text → Text → ContractError
  not_admitted : Text → Text → ContractError
  contested_file : Text → Text → Text → Text → Text → ContractError

abbrev pub Checked : Type 0 → Type 0
Checked = Result ContractError

abbrev pub is_nil : {A : Type 0} → List A → Bool
is_nil [] = true
is_nil (x ∷ xs) = false

module _ {F : Type 0} where
  -- `validated_names`, from the names seen so far on.
  unfoldable pub names_from : List Text → List (ComponentSpec F) → Checked (List Text)
  names_from names [] = ok names
  names_from names (c ∷ cs) =
      refuse_if (empty (trim c.name)) empty_name
      >> refuse_if (contains c.name names) (declared_twice c.name)
      >> names_from (set_insert c.name names) cs

  -- The chain over the four fields, each target with the name of its field.
  abbrev pub mentioned : ComponentSpec F → List (Text × Text)
  mentioned c =
      map (λ entry. (codes "depends_on", target_of entry)) c.depends_on
      ++ map (λ target. (codes "cannot_depend_on", target)) c.cannot_depend_on
      ++ map (λ target. (codes "must_depend_on", target)) c.must_depend_on
      ++ elim c.consumed_by [
        | none ↦ []
        | some sources ↦ map (λ source. (codes "consumed_by", source)) sources
      ]

  unfoldable pub check_target : ComponentSpec F → List Text → Text × Text → Checked (Unit {0})
  check_target c names (field, target) =
      refuse_if (list_eqb target c.name) (names_itself c.name field)
      >> refuse_if (not (contains target names)) (names_unknown c.name target field)

  -- Whether `depends_on` names the component.
  abbrev pub allows : ComponentSpec F → Text → Bool
  allows c target = contains target (map target_of c.depends_on)

  unfoldable pub check_forbidden : ComponentSpec F → Text → Checked (Unit {0})
  check_forbidden c forbidden =
      if allows c forbidden
      then err (forbids_and_requires c.name forbidden (codes "depends_on"))
      else refuse_if (contains forbidden c.must_depend_on)
          (forbids_and_requires c.name forbidden (codes "must_depend_on"))

  unfoldable pub validate_dependencies : List Text → ComponentSpec F → Checked (Unit {0})
  unfolding check_target check_forbidden
  validate_dependencies names c =
      each (check_target c names) (mentioned c) >> each (check_forbidden c) c.cannot_depend_on

  -- The body of the inner loop of `validate_access`.
  unfoldable pub check_access : ComponentSpec F → List Text → ComponentSpec F → Checked (Unit {0})
  check_access target allowed source =
      if list_eqb source.name target.name || contains source.name allowed
      then ok tt
      else refuse_if (allows source target.name || contains target.name source.must_depend_on)
          (not_admitted source.name target.name)

  unfoldable pub check_consumers : List (ComponentSpec F) → ComponentSpec F → Checked (Unit {0})
  unfolding check_access
  check_consumers components target = elim target.consumed_by [
    | none ↦ ok tt
    | some allowed ↦ each (check_access target allowed) components
  ]

  unfoldable pub validate_access : ArchitectureContract F → Checked (Unit {0})
  unfolding check_consumers
  validate_access contract = each (check_consumers contract.components) contract.components

module _ {F Matcher : Type 0} (n : Floats F) (compile_glob : Text → Option Matcher) where
  unfoldable pub validate_paths : ComponentSpec F → Checked (Unit {0})
  validate_paths c =
      refuse_if (is_nil c.paths) (no_paths c.name)
      >> each
          (λ pattern.
            refuse_if (not (is_some (compile_glob pattern))) (invalid_glob c.name pattern))
          c.paths

  abbrev pub bad_floor : Option F → Bool
  bad_floor none = false
  bad_floor (some floor) =
      not (n.le_f n.zero_f floor && n.le_f floor n.one_f) || n.eq_f floor n.zero_f

  abbrev pub is_zero : Option ℕ → Bool
  is_zero none = false
  is_zero (some budget) = nat_eqb budget 0

  unfoldable pub validate_budgets : ComponentSpec F → Checked (Unit {0})
  validate_budgets c =
      refuse_if (is_zero c.max_cyclomatic) (zero_cyclomatic c.name)
      >> refuse_if (bad_floor c.min_coverage) (bad_coverage c.name)

  unfoldable pub validate_component : List Text → ComponentSpec F → Checked (Unit {0})
  unfolding validate_paths validate_dependencies validate_budgets
  validate_component names c =
      validate_paths c >> validate_dependencies names c >> validate_budgets c

  unfoldable pub validate : ArchitectureContract F → Checked (Unit {0})
  unfolding names_from validate_component validate_access
  validate contract =
      refuse_if (not (nat_eqb contract.schema contract_schema)) (unsupported_schema contract.schema)
      >> refuse_if (is_nil contract.components) no_components
      >> (names_from [] contract.components >>= λ names.
          each (validate_component names) contract.components >> validate_access contract)

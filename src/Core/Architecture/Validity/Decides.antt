-- ===== src/Core/Architecture/Validity/Decides.antt =====
-- `validate` of architecture.rs decides the conditions of a contract.
use ovecc.Prelude.{
  ◌≡◌, ◌≢◌, ◌↔◌, ◌⊎◌, inr, ⊎_elim, Option, List, [], ◌∷◌, Elem, All, arith, ok, ◌>>◌, >>_iff,
  >>=_some, refuse_if, each, each_iff, All-Elem, All-of_Elem, nat_eqb, nat_eqb_iff, not,
}
use ovecc.Text.{Text}
use ovecc.Core.Coverage.{Floats}
use ovecc.Core.Architecture.{ComponentSpec, ArchitectureContract, contract_schema}
use ovecc.Core.Architecture.Validate.{
  validate, validate_component, validate_access, names_from, is_nil, unsupported_schema,
  no_components, ContractError,
}
use ovecc.Core.Architecture.Validity.{IsValid, HasLimits, IsConsistent, names_of}
use ovecc.Core.Architecture.Validity.Names.{IsFresh, names_from_sound, names_from_complete}
use ovecc.Core.Architecture.Validity.Components.{validate_component_iff, validate_access_iff}

module _ {F Matcher : Type 0} (n : Floats F) (compile_glob : Text → Option Matcher) where
  -- The checks behind the names of the components.
  checks_iff :
      (contract : ArchitectureContract F) (names : List Text)
      → ((t : Text) → Elem t names ↔ Elem t (names_of contract.components))
      → ((each (validate_component n compile_glob names) contract.components
            >> validate_access contract)
          ≡ ok tt)
        ↔ (All
              (λ c. HasLimits n compile_glob c × IsConsistent contract.components c)
              contract.components
            × (validate_access contract ≡ ok tt))
  checks_iff contract names members =
      let cs = contract.components in
      let loop = each (validate_component n compile_glob names) cs in
      let law = λ (c : ComponentSpec F). validate_component_iff n compile_glob names cs c members in
      (
        λ h.
            let r = (>>_iff loop (validate_access contract) tt).0 h in
            let every = (each_iff (validate_component n compile_glob names) cs).0 r.0 in
            (All-of_Elem _ cs (λ c m. (law c).0 (All-Elem _ cs every m)), r.1),
        λ h. (>>_iff loop (validate_access contract) tt).1 (
          (each_iff (validate_component n compile_glob names) cs).1
              (All-of_Elem _ cs (λ c m. (law c).1 (All-Elem _ cs h.0 m))),
          h.1,
        ),
      )

  schema_iff :
      (contract : ArchitectureContract F) (e : ContractError)
      → (refuse_if (not (nat_eqb contract.schema contract_schema)) e ≡ ok tt)
        ↔ (contract.schema ≡ contract_schema)
  schema_iff contract e = ground (arith, nat_eqb_iff contract.schema contract_schema)

  inhabited_iff :
      (cs : List (ComponentSpec F)) (e : ContractError)
      → (refuse_if (is_nil cs) e ≡ ok tt) ↔ (cs ≢ [])
  inhabited_iff [] e = ground arith
  inhabited_iff (c ∷ cs) e = ground arith

  -- The start of `validate`, up to the names.
  opening_iff :
      (contract : ArchitectureContract F)
      → ((refuse_if
              (not (nat_eqb contract.schema contract_schema))
              (unsupported_schema contract.schema)
            >> refuse_if (is_nil contract.components) no_components)
          ≡ ok tt)
        ↔ ((contract.schema ≡ contract_schema) × (contract.components ≢ []))
  opening_iff contract =
      let schema = schema_iff contract (unsupported_schema contract.schema) in
      let some_left = inhabited_iff contract.components no_components in
      let split =
        >>_iff
          (refuse_if (not (nat_eqb contract.schema contract_schema))
            (unsupported_schema contract.schema))
          (refuse_if (is_nil contract.components) no_components) tt in
      (
        λ h. let r = split.0 h in (schema.0 r.0, some_left.0 r.1),
        λ h. split.1 (schema.1 h.0, some_left.1 h.1),
      )

  members_of :
      (contract : ArchitectureContract F) (names : List Text)
      → ((t : Text) → Elem t names ↔ (Elem t [] ⊎ Elem t (names_of contract.components)))
      → (t : Text) → Elem t names ↔ Elem t (names_of contract.components)
  members_of contract names members t =
      (λ m. ⊎_elim (λ x. absurd x) (λ k. k) ((members t).0 m), λ m. (members t).1 (inr m))

  -- The contracts that `validate` accepts are exactly the valid ones: of the schema this build
  -- reads, with at least one component, distinct names that are not blank, for each component
  -- a path, readable globs and sensible budgets, dependencies that name other components and
  -- contradict neither one another nor a component's `consumed_by`.
  pub validate_iff :
      (contract : ArchitectureContract F)
      → (validate n compile_glob contract ≡ ok tt) ↔ IsValid n compile_glob contract
  unfolding validate
  validate_iff contract = (
    λ h.
        let (start, rest) = (>>_iff _ _ tt).0 h in
        let (names, named, checks) = >>=_some (names_from [] contract.components) _ tt rest in
        let (fresh, members) = names_from_sound [] names contract.components named in
        let (parts, access) =
          (checks_iff contract names (members_of contract names members)).0 checks in
        let (schema, inhabited) = (opening_iff contract).0 start in
        record {
          schema_read = schema;
          inhabited = inhabited;
          named = fresh.named;
          distinct = fresh.distinct;
          limits =
              All-of_Elem _ contract.components (λ c m. (All-Elem _ contract.components parts m).0);
          consistent =
              All-of_Elem _ contract.components (λ c m. (All-Elem _ contract.components parts m).1);
          admitted = (validate_access_iff contract).0 access;
        },
    λ v.
        let fresh : IsFresh [] contract.components = record {
          named = v.named;
          distinct = v.distinct;
          unseen = All-of_Elem _ contract.components (λ c m k. k);
        } in
        let (names, named) = names_from_complete [] contract.components fresh in
        let members = (names_from_sound [] names contract.components named).1 in
        let checks = (checks_iff contract names (members_of contract names members)).1 (
          All-of_Elem _ contract.components (λ c m. (
            All-Elem _ contract.components v.limits m,
            All-Elem _ contract.components v.consistent m,
          )),
          (validate_access_iff contract).1 v.admitted,
        ) in
        (>>_iff _ _ tt).1 ((opening_iff contract).1 (v.schema_read, v.inhabited), rw named checks),
  )

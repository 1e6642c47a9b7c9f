-- ===== src/Core/Architecture/Validity.antt =====
-- What the contract checks of crates/ovecc-core/src/architecture.rs mean: the conditions that
-- `validate` decides, stated without its loops.
pub mod Names
pub mod Components
pub mod Decides
use ovecc.Prelude.{
  ℕ, ◌≡◌, ◌≢◌, ◌↔◌, ◌⊎◌, Bool, true, false, Option, none, some, List, [], ◌∷◌, map, Elem, All,
  Distinct,
}
use ovecc.Text.{Text, trim}
use ovecc.Core.Coverage.{Floats}
use ovecc.Core.Architecture.{target_of, ComponentSpec, ArchitectureContract, contract_schema}
use ovecc.Core.Architecture.Validate.{mentioned}

module _ {F : Type 0} where
  -- The component permits itself to depend on the target.
  abbrev pub Declares : ComponentSpec F → Text → Type 0
  Declares c target = Elem target (map target_of c.depends_on) ⊎ Elem target c.must_depend_on

  -- The component lets the source depend on it.
  abbrev pub Admits : ComponentSpec F → Text → Type 0
  Admits c source = (allowed : List Text) → c.consumed_by ≡ some allowed → Elem source allowed

  abbrev pub names_of : List (ComponentSpec F) → List Text
  names_of = map (λ c. c.name)

  -- The dependencies of a component are other components of the contract, and none is both
  -- forbidden and declared.
  pub record IsConsistent (components : List (ComponentSpec F)) (c : ComponentSpec F) : Type 0 where
    pub targets : All (λ t. (t.1 ≢ c.name) × Elem t.1 (names_of components)) (mentioned c)
    pub not_both : All (λ t. ¬ Declares c t) c.cannot_depend_on

  -- Every target admits each other component that declares it.
  abbrev pub IsAdmitted : List (ComponentSpec F) → Type 0
  IsAdmitted components =
      All
        (λ target.
          All
            (λ source.
              source.name ≢ target.name → Declares source target.name → Admits target source.name)
            components)
        components

module _ {F Matcher : Type 0} (n : Floats F) (compile_glob : Text → Option Matcher) where
  -- A floor in (0, 1].
  abbrev pub IsFloor : F → Type 0
  IsFloor x = (n.le_f n.zero_f x ≡ true) × (n.le_f x n.one_f ≡ true) × (n.eq_f x n.zero_f ≡ false)

  pub record HasLimits (c : ComponentSpec F) : Type 0 where
    pub has_paths : c.paths ≢ []
    pub globs : All (λ pattern. compile_glob pattern ≢ none) c.paths
    pub budget : c.max_cyclomatic ≢ some 0
    pub floor : (x : F) → c.min_coverage ≡ some x → IsFloor x

  pub record IsValid (contract : ArchitectureContract F) : Type 0 where
    pub schema_read : contract.schema ≡ contract_schema
    pub inhabited : contract.components ≢ []
    pub named : All (λ c. trim c.name ≢ []) contract.components
    pub distinct : Distinct (names_of contract.components)
    pub limits : All HasLimits contract.components
    pub consistent : All (IsConsistent contract.components) contract.components
    pub admitted : IsAdmitted contract.components

-- ===== src/Rules/Contract/Prohibitions.antt =====
-- `prohibition` of contract.rs: what it answers, and that a valid contract never prohibits what it
-- declares.
use ovecc.Prelude.{
  ◌≡◌, ◌≢◌, ◌↔◌, ◌⊎◌, inl, inr, refl, sym, ap, subst, ◌∙◌, true, Option, none, some, List, Elem,
  All-Elem, arith, ok, list_eqb, list_eqb_iff, nat_eq, list_eq, contains_iff, find-some, Bool-cases,
  Distinct-unique,
}
use ovecc.Text.{Text}
use ovecc.Core.Coverage.{Floats}
use ovecc.Core.Architecture.{ComponentSpec, ArchitectureContract, component}
use ovecc.Core.Architecture.Validate.{validate}
use ovecc.Core.Architecture.Validity.{Declares}
use ovecc.Core.Architecture.Validity.Decides.{validate_iff}
use ovecc.Rules.Contract.{Pair}
use ovecc.Rules.Contract.Classify.{
  Prohibition, restricted, forbidden, excludes, closed_to, forbids, prohibition,
}

excludes_iff :
    (consumers : Option (List Text)) (source : Text)
    → (excludes consumers source ≡ true)
      ↔ ((allowed : List Text) × (consumers ≡ some allowed) × (¬ Elem source allowed))
excludes_iff none source = (λ h. cc, λ h. cc (h.1))
excludes_iff (some allowed) source = (
  λ h. (allowed, refl, ground (arith, contains_iff source allowed)),
  λ (other, e, out).
      let same : allowed ≡ other = cc in
      let gone : ¬ Elem source allowed = subst (λ l. ¬ Elem source l) (sym same) out in
      ground (arith, contains_iff source allowed),
)

module _ {F : Type 0} where
  -- The target restricts its consumers, and the source is none of them.
  abbrev pub IsRestricted : ArchitectureContract F → Pair → Type 0
  IsRestricted contract pair =
      (spec : ComponentSpec F) × (allowed : List Text) × (component contract pair.1 ≡ some spec)
      × (spec.consumed_by ≡ some allowed)
      × (¬ Elem pair.0 allowed)

  -- The source names the target in `cannot_depend_on`.
  abbrev pub IsForbidden : ArchitectureContract F → Pair → Type 0
  IsForbidden contract pair =
      (spec : ComponentSpec F) × (component contract pair.0 ≡ some spec)
      × Elem pair.1 spec.cannot_depend_on

  closed_to_iff :
      (target : Option (ComponentSpec F)) (source : Text)
      → (closed_to target source ≡ true) ↔ (
          (spec : ComponentSpec F) × (allowed : List Text) × (target ≡ some spec)
          × (spec.consumed_by ≡ some allowed)
          × (¬ Elem source allowed))
  closed_to_iff none source = (λ h. cc, λ h. cc (h.2))
  closed_to_iff (some spec) source = (
    λ h.
        let (allowed, listed, out) = (excludes_iff spec.consumed_by source).0 h in
        (spec, allowed, refl, listed, out),
    λ (s, allowed, e, listed, out).
        let same : spec ≡ s = cc in
        (excludes_iff spec.consumed_by source).1
          (allowed, ap (λ (c : ComponentSpec F). c.consumed_by) same ∙ listed, out),
  )

  forbids_iff :
      (source : Option (ComponentSpec F)) (target : Text)
      → (forbids source target ≡ true)
        ↔ ((spec : ComponentSpec F) × (source ≡ some spec) × Elem target spec.cannot_depend_on)
  forbids_iff none target = (λ h. cc, λ h. cc (h.1))
  forbids_iff (some spec) target = (
    λ h. (spec, refl, (contains_iff target spec.cannot_depend_on).0 h),
    λ (s, e, m).
        let same : spec ≡ s = cc in
        (contains_iff target spec.cannot_depend_on).1
          (subst (λ (c : ComponentSpec F). Elem target c.cannot_depend_on) (sym same) m),
  )

  -- The answer of `prohibition`, for every contract.
  abbrev pub Prohibits : ArchitectureContract F → Pair → Option Prohibition → Type 0
  Prohibits contract pair (some restricted) = IsRestricted contract pair
  Prohibits contract pair (some forbidden) =
      (¬ IsRestricted contract pair) × IsForbidden contract pair
  Prohibits contract pair none = (¬ IsRestricted contract pair) × (¬ IsForbidden contract pair)

  pub prohibition-Prohibits :
      (contract : ArchitectureContract F) (pair : Pair)
      → Prohibits contract pair (prohibition contract pair)
  unfolding prohibition
  prohibition-Prohibits contract pair =
      let closed = closed_to_iff (component contract pair.1) pair.0 in
      let banned = forbids_iff (component contract pair.0) pair.1 in
      elim (Bool-cases (closed_to (component contract pair.1) pair.0)) [
        | inl shut ↦ rw shut (closed.0 shut)
        | inr open_ ↦ elim (Bool-cases (forbids (component contract pair.0) pair.1)) [
          | inl no_way ↦ rw (open_, no_way) (λ h. cc (closed.1 h), banned.0 no_way)
          | inr free ↦ rw (open_, free) (λ h. cc (closed.1 h), λ h. cc (banned.1 h))
        ]
      ]

  pub prohibition-cases :
      (contract : ArchitectureContract F) (pair : Pair)
      → (prohibition contract pair ≡ none) ⊎ IsRestricted contract pair ⊎ IsForbidden contract pair
  prohibition-cases contract pair = by_answer (prohibition contract pair) refl
    where
      by_answer :
          (o : Option Prohibition)
          → prohibition contract pair ≡ o
          → (prohibition contract pair ≡ none)
            ⊎ IsRestricted contract pair
            ⊎ IsForbidden contract pair
      by_answer none e = inl e
      by_answer (some restricted) e =
          inr (inl (subst (Prohibits contract pair) e (prohibition-Prohibits contract pair)))
      by_answer (some forbidden) e =
          inr (inr (subst (Prohibits contract pair) e (prohibition-Prohibits contract pair)).1)

  component-some :
      (contract : ArchitectureContract F) (wanted : Text) (spec : ComponentSpec F)
      → component contract wanted ≡ some spec
      → Elem spec contract.components × (spec.name ≡ wanted)
  unfolding component
  component-some contract wanted spec h =
      let (m, e) = find-some (λ c. list_eqb c.name wanted) contract.components spec h in
      (m, (list_eqb_iff spec.name wanted).0 e)

module _ {F Matcher : Type 0} (n : Floats F) (compile_glob : Text → Option Matcher) where
  -- In a contract that `validate` accepts no component is prohibited from a dependency that it
  -- declares, in `depends_on` or `must_depend_on`.
  pub prohibition-Declares :
      (contract : ArchitectureContract F) (source target : ComponentSpec F)
      → validate n compile_glob contract ≡ ok tt
      → Elem source contract.components
      → Elem target contract.components
      → source.name ≢ target.name
      → Declares source target.name
      → prohibition contract (source.name, target.name) ≡ none
  prohibition-Declares contract source target accepted at_source at_target apart declared =
      let v = (validate_iff n compile_glob contract).0 accepted in
      let name = λ (c : ComponentSpec F). c.name in
      let open_ : ¬ IsRestricted contract (source.name, target.name) =
        λ (spec, allowed, found, listed, out).
          let (m, e) = component-some contract target.name spec found in
          let same =
            Distinct-unique name contract.components v.distinct spec target m at_target e in
          out (
            All-Elem _ contract.components (All-Elem _ contract.components v.admitted at_target)
              at_source apart declared allowed
              (ap (λ (c : ComponentSpec F). c.consumed_by) (sym same) ∙ listed)) in
      let free : ¬ IsForbidden contract (source.name, target.name) = λ (spec, found, banned).
        let (m, e) = component-some contract source.name spec found in
        let same = Distinct-unique name contract.components v.distinct spec source m at_source e in
        All-Elem _ source.cannot_depend_on
          (All-Elem _ contract.components v.consistent at_source).not_both
          (subst (λ (c : ComponentSpec F). Elem target.name c.cannot_depend_on) same banned)
          declared in
      elim (prohibition-cases contract (source.name, target.name)) [
        | inl e ↦ e
        | inr (inl h) ↦ absurd (open_ h)
        | inr (inr h) ↦ absurd (free h)
      ]

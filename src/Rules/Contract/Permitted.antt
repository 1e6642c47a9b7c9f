-- ===== src/Rules/Contract/Permitted.antt =====
-- The verdicts of contract.rs on an import that nothing prohibits: whether it is declared, whether
-- the declaration is deprecated, and whether it goes by the interface.
use ovecc.Prelude.{
  ◌≡◌, ◌↔◌, ◌⊎◌, inl, inr, ⊎_elim, refl, sym, subst, true, Option, none, some, List, map, Elem,
  Elem-map, Holds, Holds-push_group, pair_ord, list_ord, nat_ord, contains, contains_iff, list_eq,
  nat_eq, list_eqb, list_eqb_iff, lookup, find-some, Bool-cases, Option-cases,
}
use ovecc.Text.{Text}
use ovecc.Core.Legacy.{DependencyRecord}
use ovecc.Core.Architecture.{DependsOn, target_of, is_deprecated, ComponentSpec, slashed}
use ovecc.Core.Architecture.Validity.{Declares}
use ovecc.Rules.Contract.{ContractInput, Pair, PairMap, EdgeGroups}
use ovecc.Rules.Contract.Classify.{declaration, classify_bypass, classify_entry, classify_permitted}
use ovecc.Rules.Contract.Filling.{unchanged, grown}
use ovecc.Rules.Contract.Verdicts.{declared_in, entry_keeps}

module _ {F : Type 0} (architecture : ContractInput F) (interfaces : List (Text × List Text))
    (pair : Pair) (path : Text) (d : DependencyRecord) (g : EdgeGroups F) (q : Pair)
    (e : DependencyRecord) where
  abbrev Takes : Type 0 → PairMap → PairMap → Type 0
  Takes K before after = Holds q e after ↔ ((q ≡ pair) × (e ≡ d) × K ⊎ Holds q e before)

  declared_entry :
      (spec : ComponentSpec F) (entry : DependsOn)
      → declaration spec pair.1 ≡ some entry
      → Elem pair.1 (map target_of spec.depends_on)
  declared_entry spec entry found =
      let (m, same) =
        find-some (λ entry. list_eqb (target_of entry) pair.1) spec.depends_on entry found in
      subst (λ t. Elem t (map target_of spec.depends_on))
        ((list_eqb_iff (target_of entry) pair.1).0 same)
        (Elem-map target_of entry spec.depends_on m)

  entry_divergences :
      (o : Option DependsOn) (spec : ComponentSpec F) (k : EdgeGroups F)
      → declaration spec pair.1 ≡ o
      → Takes
          (¬ Declares spec pair.1)
          k.divergences
          (classify_entry architecture o spec pair d k).divergences
  unfolding classify_entry
  entry_divergences (some entry) spec k found =
      unchanged (λ undeclared. undeclared (inl (declared_entry spec entry found)))
  entry_divergences none spec k missing = elim (Bool-cases (contains pair.1 spec.must_depend_on)) [
    | inl must ↦ rw must (
        unchanged
          (λ undeclared. undeclared (inr ((contains_iff pair.1 spec.must_depend_on).0 must))))
    | inr free ↦ rw free (
        grown
          (⊎_elim ((declared_in spec.depends_on pair.1).0 missing)
            (λ m. cc ((contains_iff pair.1 spec.must_depend_on).1 m)))
          (Holds-push_group pair q d e k.divergences))
  ]

  pub spec_divergences :
      (spec : ComponentSpec F)
      → Takes
          (¬ Declares spec pair.1)
          g.divergences
          (classify_permitted architecture interfaces (some spec) pair path d g).divergences
  unfolding classify_permitted
  spec_divergences spec =
      entry_divergences (declaration spec pair.1) spec
        (record g { bypasses = classify_bypass architecture interfaces pair path d g.bypasses })
        refl

  abbrev Deprecates : ComponentSpec F → Type 0
  Deprecates spec =
      (entry : DependsOn) × (declaration spec pair.1 ≡ some entry) × (is_deprecated entry ≡ true)

  entry_deprecated :
      (o : Option DependsOn) (spec : ComponentSpec F) (k : EdgeGroups F)
      → declaration spec pair.1 ≡ o
      → Takes
          (Deprecates spec)
          k.deprecated
          (classify_entry architecture o spec pair d k).deprecated
  unfolding classify_entry
  entry_deprecated (some entry) spec k found = elim (Bool-cases (is_deprecated entry)) [
    | inl old ↦ rw old (grown (entry, found, old) (Holds-push_group pair q d e k.deprecated))
    | inr current ↦ rw current (unchanged (λ (other, at, old). cc))
  ]
  entry_deprecated none spec k missing = elim (Bool-cases (contains pair.1 spec.must_depend_on)) [
    | inl must ↦ rw must (unchanged (λ (entry, found, old). cc))
    | inr free ↦ rw free (unchanged (λ (entry, found, old). cc))
  ]

  pub spec_deprecated :
      (spec : ComponentSpec F)
      → Takes
          (Deprecates spec)
          g.deprecated
          (classify_permitted architecture interfaces (some spec) pair path d g).deprecated
  unfolding classify_permitted
  spec_deprecated spec =
      entry_deprecated (declaration spec pair.1) spec
        (record g { bypasses = classify_bypass architecture interfaces pair path d g.bypasses })
        refl

  abbrev GoesAround : Type 0
  GoesAround =
      (interface : List Text) × (lookup pair.1 interfaces ≡ some interface)
      × (¬ Elem (slashed path) interface)

  bypass_lem :
      Takes GoesAround g.bypasses (classify_bypass architecture interfaces pair path d g.bypasses)
  unfolding classify_bypass
  bypass_lem = elim (Option-cases (lookup pair.1 interfaces)) [
    | inl open_ ↦ rw (open_, classify_bypass) (unchanged (λ (i, e, m). cc))
    | inr (interface, declared) ↦ elim (Bool-cases (contains (slashed path) interface)) [
      | inl inside ↦
          rw (declared, inside, classify_bypass)
            (unchanged (λ (i, e, out).
              let same : i ≡ interface = cc in
              out (
                subst (Elem (slashed path)) (sym same)
                  ((contains_iff (slashed path) interface).0 inside))))
      | inr outside ↦
          rw (declared, outside, classify_bypass)
            (grown (interface, refl, λ m. cc ((contains_iff (slashed path) interface).1 m))
              (Holds-push_group pair q d e g.bypasses))
    ]
  ]

  pub spec_bypasses :
      (spec : ComponentSpec F)
      → Takes GoesAround g.bypasses
          (classify_permitted architecture interfaces (some spec) pair path d g).bypasses
  unfolding classify_permitted
  spec_bypasses spec =
      let k = record g {
        bypasses = classify_bypass architecture interfaces pair path d g.bypasses;
      } in
      subst (Takes GoesAround g.bypasses)
        (sym
          (entry_keeps architecture interfaces pair path d g q e (declaration spec pair.1) spec
            k).2)
        bypass_lem

-- ===== src/Rules/Contract/Verdicts.antt =====
-- The verdicts of contract.rs on imports between components: each group holds exactly the
-- dependencies that it is meant for.
use ovecc.Prelude.{
  ◌≡◌, ◌↔◌, ◌⊎◌, inl, inr, ⊎_elim, refl, sym, subst, true, Option, none, some, List, [], ◌∷◌, map,
  Elem, arith, Holds, Holds-push_group, pair_ord, list_ord, nat_ord, list_eq, nat_eq, list_eqb,
  list_eqb_iff, lookup, find,
}
use ovecc.Text.{Text}
use ovecc.Core.Legacy.{DependencyRecord}
use ovecc.Core.Architecture.{DependsOn, target_of, is_deprecated, ComponentSpec, component, slashed}
use ovecc.Core.Architecture.Validity.{Declares}
use ovecc.Rules.Contract.{ContractInput, Pair, PairMap, EdgeGroups}
use ovecc.Rules.Contract.Classify.{
  Prohibition, restricted, forbidden, declaration, classify_bypass, classify_entry,
  classify_permitted, classify_crossing,
}
use ovecc.Rules.Contract.Filling.{unchanged, grown}
use ovecc.Rules.Contract.Prohibitions.{IsRestricted, IsForbidden, Prohibits}

pub declared_in :
    (entries : List DependsOn) (target : Text)
    → (find (λ entry. list_eqb (target_of entry) target) entries ≡ none)
      ↔ (¬ Elem target (map target_of entries))
declared_in [] target = ground arith
declared_in (entry ∷ entries) target =
    ground (arith, list_eqb_iff (target_of entry) target, declared_in entries target)

module _ {F : Type 0} (architecture : ContractInput F) (interfaces : List (Text × List Text)) where
  -- Nothing prohibits the pair, and its source is a component of the contract.
  abbrev pub Permitted : Pair → (ComponentSpec F → Type 0) → Type 0
  Permitted pair P =
      (¬ IsRestricted architecture.contract pair)
      × (¬ IsForbidden architecture.contract pair)
      × ((spec : ComponentSpec F) × (component architecture.contract pair.0 ≡ some spec) × P spec)

  abbrev pub IsUndeclared : Pair → Text → Type 0
  IsUndeclared pair path = Permitted pair (λ spec. ¬ Declares spec pair.1)

  -- The first entry of `depends_on` for the target is deprecated.
  abbrev pub IsDeprecated : Pair → Text → Type 0
  IsDeprecated pair path = Permitted pair (λ spec.
      (entry : DependsOn) × (declaration spec pair.1 ≡ some entry) × (is_deprecated entry ≡ true))

  -- The target has interface files, and the imported file is none of them.
  abbrev pub IsBypass : Pair → Text → Type 0
  IsBypass pair path = Permitted pair (λ spec.
      (interface : List Text) × (lookup pair.1 interfaces ≡ some interface)
      × (¬ Elem (slashed path) interface))

  module _ (pair : Pair) (path : Text) (d : DependencyRecord) (g : EdgeGroups F) (q : Pair)
      (e : DependencyRecord) where
    abbrev pub Adds : Type 0 → PairMap → PairMap → Type 0
    Adds K before after = Holds q e after ↔ ((q ≡ pair) × (e ≡ d) × K ⊎ Holds q e before)

    abbrev pub judged : Option Prohibition → EdgeGroups F
    judged o = classify_crossing architecture interfaces o pair path d g

    -- The fields that the verdict on a permitted import leaves alone.
    pub entry_keeps :
        (o : Option DependsOn) (spec : ComponentSpec F) (k : EdgeGroups F)
        → ((classify_entry architecture o spec pair d k).restricted ≡ k.restricted)
          × ((classify_entry architecture o spec pair d k).forbidden ≡ k.forbidden)
          × ((classify_entry architecture o spec pair d k).bypasses ≡ k.bypasses)
    unfolding classify_entry
    entry_keeps none spec k = ground arith
    entry_keeps (some entry) spec k = (refl, refl, refl)

    permitted_keeps :
        (o : Option (ComponentSpec F))
        → ((classify_permitted architecture interfaces o pair path d g).restricted ≡ g.restricted)
          × ((classify_permitted architecture interfaces o pair path d g).forbidden ≡ g.forbidden)
    unfolding classify_permitted
    permitted_keeps none = (refl, refl)
    permitted_keeps (some spec) =
        let k = entry_keeps (declaration spec pair.1) spec (record g {
          bypasses = classify_bypass architecture interfaces pair path d g.bypasses;
        }) in
        (k.0, k.1)

    -- A group that a permitted import leaves alone takes nothing from it.
    left_alone : {K : Type 0} {before after : PairMap} → ¬ K → after ≡ before → Adds K before after
    left_alone {K} {before} {after} fails e = subst (Adds K before) (sym e) (unchanged fails)

    pub by_restricted :
        (o : Option Prohibition)
        → Prohibits architecture.contract pair o
        → Adds (IsRestricted architecture.contract pair) g.restricted (judged o).restricted
    unfolding classify_crossing
    by_restricted (some restricted) h = grown h (Holds-push_group pair q d e g.restricted)
    by_restricted (some forbidden) h = unchanged h.0
    by_restricted none h =
        left_alone h.0 (permitted_keeps (component architecture.contract pair.0)).0

    pub by_forbidden :
        (o : Option Prohibition)
        → Prohibits architecture.contract pair o
        → Adds
            ((¬ IsRestricted architecture.contract pair) × IsForbidden architecture.contract pair)
            g.forbidden
            (judged o).forbidden
    unfolding classify_crossing
    by_forbidden (some restricted) h = unchanged (λ k. k.0 h)
    by_forbidden (some forbidden) h = grown h (Holds-push_group pair q d e g.forbidden)
    by_forbidden none h =
        left_alone (λ k. h.1 k.1) (permitted_keeps (component architecture.contract pair.0)).1

    permitted_at :
        {P : ComponentSpec F → Type 0} (spec : ComponentSpec F)
        → component architecture.contract pair.0 ≡ some spec
        → Permitted pair P
        → P spec
    permitted_at {P} spec found k = let same : k.2.0 ≡ spec = cc (k.2.1) in subst P same k.2.2

    -- What a group takes from an import that nothing prohibits.
    module _ (P : ComponentSpec F → Type 0) (field : EdgeGroups F → PairMap)
        (of_spec : (spec : ComponentSpec F)
          → component architecture.contract pair.0 ≡ some spec
          → Holds q e (field (classify_permitted architecture interfaces (some spec) pair path d g))
            ↔ ((q ≡ pair) × (e ≡ d) × P spec ⊎ Holds q e (field g))) where
      pub by_permitted :
          (o : Option (ComponentSpec F))
          → component architecture.contract pair.0 ≡ o
          → ¬ IsRestricted architecture.contract pair
          → ¬ IsForbidden architecture.contract pair
          → Adds
              (Permitted pair P)
              (field g)
              (field (classify_permitted architecture interfaces o pair path d g))
      unfolding classify_permitted
      by_permitted none found open_ free = unchanged (λ k. cc (k.2.1))
      by_permitted (some spec) found open_ free =
          let law = of_spec spec found in
          (
            λ m. ⊎_elim (λ h. inl (h.0, h.1, (open_, free, (spec, found, h.2)))) inr (law.0 m),
            λ m. law.1 (⊎_elim (λ h. inl (h.0, h.1, permitted_at {P = P} spec found h.2)) inr m),
          )

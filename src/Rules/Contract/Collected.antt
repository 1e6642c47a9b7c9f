-- ===== src/Rules/Contract/Collected.antt =====
-- `classify_edges` of contract.rs: which dependencies end up in which group.
use ovecc.Prelude.{
  ◌≡◌, ◌↔◌, ◌⊎◌, inl, ⊎_elim, refl, sym, subst, true, Option, none, some, List, Elem, Holds, lookup,
  list_eq, nat_eq,
}
use ovecc.Text.{Text}
use ovecc.Core.Legacy.{DependencyRecord}
use ovecc.Core.Facts.{capability_eq}
use ovecc.Core.Coverage.{Floats}
use ovecc.Core.Architecture.{ComponentSpec, component, DependsOn, is_deprecated, slashed}
use ovecc.Core.Architecture.Validity.{Declares}
use ovecc.Rules.Contract.{ContractInput, Pair, PairMap, EdgeGroups, no_groups}
use ovecc.Rules.Contract.Classify.{
  Prohibition, restricted, forbidden, prohibition, classify_crossing, declared_interfaces,
  classify_permitted, declaration,
}
use ovecc.Rules.Contract.Measures.{classify_edges}
use ovecc.Rules.Contract.Edges.{edges_keep}
use ovecc.Rules.Contract.Filling.{unchanged, CrossesWith, dependencies_iff}
use ovecc.Rules.Contract.Prohibitions.{IsRestricted, IsForbidden, Prohibits, prohibition-Prohibits}
use ovecc.Rules.Contract.Verdicts.{
  Permitted, IsUndeclared, IsDeprecated, IsBypass, by_restricted, by_forbidden, by_permitted,
}
use ovecc.Rules.Contract.Permitted.{spec_divergences, spec_deprecated, spec_bypasses}

module _ {F : Type 0} (architecture : ContractInput F) where
  -- A group whose condition needs a permitted import.
  by_permission :
      (interfaces : List (Text × List Text)) (P : Pair → Text → ComponentSpec F → Type 0)
      (field : EdgeGroups F → PairMap)
      → ((pair : Pair) (path : Text) (d : DependencyRecord) (g : EdgeGroups F) (o : Prohibition)
          → field (classify_crossing architecture interfaces (some o) pair path d g) ≡ field g)
      → ((pair : Pair) (path : Text) (d : DependencyRecord) (g : EdgeGroups F) (q : Pair)
            (e : DependencyRecord) (spec : ComponentSpec F)
          → Holds q e (field (classify_permitted architecture interfaces (some spec) pair path d g))
            ↔ ((q ≡ pair) × (e ≡ d) × P pair path spec ⊎ Holds q e (field g)))
      → (pair : Pair) (path : Text) (d : DependencyRecord) (g : EdgeGroups F) (q : Pair)
        (e : DependencyRecord)
      → Holds q e (
          field (
            classify_crossing architecture interfaces
              (prohibition architecture.contract pair)
              pair
              path
              d
              g))
        ↔ ((q ≡ pair) × (e ≡ d) × Permitted architecture interfaces pair (P pair path)
            ⊎ Holds q e (field g))
  unfolding classify_crossing
  by_permission interfaces P field alone law pair path d g q e =
      by_answer (prohibition architecture.contract pair)
        (prohibition-Prohibits architecture.contract pair)
    where
      by_answer :
          (o : Option Prohibition)
          → Prohibits architecture.contract pair o
          → Holds q e (field (classify_crossing architecture interfaces o pair path d g)) ↔ (
              (q ≡ pair) × (e ≡ d) × Permitted architecture interfaces pair (P pair path)
              ⊎ Holds q e (field g))
      by_answer (some restricted) h =
          subst
            (λ m. Holds q e m ↔ (
              (q ≡ pair) × (e ≡ d) × Permitted architecture interfaces pair (P pair path)
              ⊎ Holds q e (field g)))
            (sym (alone pair path d g restricted)) (unchanged (λ k. k.0 h))
      by_answer (some forbidden) h =
          subst
            (λ m. Holds q e m ↔ (
              (q ≡ pair) × (e ≡ d) × Permitted architecture interfaces pair (P pair path)
              ⊎ Holds q e (field g)))
            (sym (alone pair path d g forbidden)) (unchanged (λ k. k.1 h.1))
      by_answer none h =
          by_permitted architecture interfaces pair path d g q e (P pair path) field
            (λ spec found. law pair path d g q e spec) (component architecture.contract pair.0) refl
            h.0 h.1

  -- A prohibited import changes none of the groups for permitted ones.
  alone_divergences :
      (interfaces : List (Text × List Text)) (pair : Pair) (path : Text) (d : DependencyRecord)
      (g : EdgeGroups F) (o : Prohibition)
      → (classify_crossing architecture interfaces (some o) pair path d g).divergences
        ≡ g.divergences
  unfolding classify_crossing
  alone_divergences interfaces pair path d g restricted = refl
  alone_divergences interfaces pair path d g forbidden = refl

  alone_deprecated :
      (interfaces : List (Text × List Text)) (pair : Pair) (path : Text) (d : DependencyRecord)
      (g : EdgeGroups F) (o : Prohibition)
      → (classify_crossing architecture interfaces (some o) pair path d g).deprecated ≡ g.deprecated
  unfolding classify_crossing
  alone_deprecated interfaces pair path d g restricted = refl
  alone_deprecated interfaces pair path d g forbidden = refl

  alone_bypasses :
      (interfaces : List (Text × List Text)) (pair : Pair) (path : Text) (d : DependencyRecord)
      (g : EdgeGroups F) (o : Prohibition)
      → (classify_crossing architecture interfaces (some o) pair path d g).bypasses ≡ g.bypasses
  unfolding classify_crossing
  alone_bypasses interfaces pair path d g restricted = refl
  alone_bypasses interfaces pair path d g forbidden = refl

  -- The group holds the dependencies that cross between the pair under the condition.
  abbrev pub Collects : (Pair → Text → Type 0) → List DependencyRecord → PairMap → Type 0
  Collects Meets ds group =
      (pair : Pair) (d : DependencyRecord)
      → Holds pair d group ↔ (Elem d ds × CrossesWith architecture Meets d pair)

  abbrev interfaces_here : List (Text × List Text)
  interfaces_here = declared_interfaces architecture.contract

  -- What each group of verdicts on crossing dependencies holds.
  pub record Verdicts (ds : List DependencyRecord) (g : EdgeGroups F) : Type 0 where
    pub restricted : Collects (λ pair path. IsRestricted architecture.contract pair) ds g.restricted
    pub forbidden :
        Collects
          (λ pair path.
            (¬ IsRestricted architecture.contract pair) × IsForbidden architecture.contract pair)
          ds
          g.forbidden
    pub divergences : Collects (IsUndeclared architecture interfaces_here) ds g.divergences
    pub deprecated : Collects (IsDeprecated architecture interfaces_here) ds g.deprecated
    pub bypasses : Collects (IsBypass architecture interfaces_here) ds g.bypasses

  -- From the loop over the dependencies to all of `classify_edges`.
  collected :
      (Meets : Pair → Text → Type 0) (ds : List DependencyRecord) (looped whole : PairMap)
      → whole ≡ looped
      → ((pair : Pair) (d : DependencyRecord)
          → Holds pair d looped ↔ (Elem d ds × CrossesWith architecture Meets d pair ⊎ ⊥))
      → Collects Meets ds whole
  collected Meets ds looped whole kept law pair d =
      subst (λ m. Holds pair d m ↔ (Elem d ds × CrossesWith architecture Meets d pair)) (sym kept)
        (λ m. ⊎_elim (λ h. h) (λ x. absurd x) ((law pair d).0 m), λ h. (law pair d).1 (inl h))

  -- Of the dependencies, each import from one component into another lands in exactly the groups
  -- whose condition it meets: restricted if the target admits only others; else forbidden if the
  -- source forbids it; and if neither, a divergence if the source does not declare the target,
  -- deprecated if its declaration is, and a bypass if the target has interface files and the
  -- import is of another file. No other dependency lands in these groups.
  pub classify_edges-Verdicts :
      (n : Floats F) (ds : List DependencyRecord) → Verdicts ds (classify_edges architecture n ds)
  classify_edges-Verdicts n ds =
      let i = declared_interfaces architecture.contract in
      let kept = edges_keep architecture n ds in
      let answer = λ (pair : Pair). prohibition-Prohibits architecture.contract pair in
      record {
        restricted = collected _ ds _ _ kept.restricted (
            dependencies_iff architecture i (λ g. g.restricted) _ (λ g k s. s.restricted)
              (λ pair path d g q e.
                by_restricted architecture i pair path d g q e
                  (prohibition architecture.contract pair) (answer pair))
              ds no_groups);
        forbidden = collected _ ds _ _ kept.forbidden (
            dependencies_iff architecture i (λ g. g.forbidden) _ (λ g k s. s.forbidden)
              (λ pair path d g q e.
                by_forbidden architecture i pair path d g q e
                  (prohibition architecture.contract pair) (answer pair))
              ds no_groups);
        divergences = collected _ ds _ _ kept.divergences (
            dependencies_iff architecture i (λ g. g.divergences) _ (λ g k s. s.divergences)
              (by_permission i (λ pair path spec. ¬ Declares spec pair.1) (λ g. g.divergences)
                (alone_divergences i)
                (λ pair path d g q e spec. spec_divergences architecture i pair path d g q e spec))
              ds no_groups);
        deprecated = collected _ ds _ _ kept.deprecated (
            dependencies_iff architecture i (λ g. g.deprecated) _ (λ g k s. s.deprecated)
              (by_permission i
                (λ pair path spec.
                  (entry : DependsOn) × (declaration spec pair.1 ≡ some entry)
                  × (is_deprecated entry ≡ true))
                (λ g. g.deprecated) (alone_deprecated i)
                (λ pair path d g q e spec. spec_deprecated architecture i pair path d g q e spec))
              ds no_groups);
        bypasses = collected _ ds _ _ kept.bypasses (
            dependencies_iff architecture i (λ g. g.bypasses) _ (λ g k s. s.bypasses)
              (by_permission i
                (λ pair path spec.
                  (interface : List Text) × (lookup pair.1 i ≡ some interface)
                  × (¬ Elem (slashed path) interface))
                (λ g. g.bypasses) (alone_bypasses i)
                (λ pair path d g q e spec. spec_bypasses architecture i pair path d g q e spec))
              ds no_groups);
      }

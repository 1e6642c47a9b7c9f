-- ===== src/Rules/Contract/Coupling/Strangers.antt =====
-- `classify_coupling` of contract.rs: what explains that two components change together, and which
-- co-changed files are reported since nothing does.
use Prim.Native.Nat.{Ordering}
use ovecc.Prelude.{
  ◌≡◌, ◌↔◌, ◌⊎◌, inl, inr, ⊎_elim, subst, Bool, true, none, some, List, [], ◌∷◌, ◌++◌, map, arith,
  if◌then◌else◌, leb, length, lookup, keep_if, Elem, Elem-map, Elem-unmap, Elem-append, contains,
  contains_iff, list_cmp, list_ord, nat_ord, pair_eq, list_eq, nat_eq, Bool-cases, Option-cases,
  pair_ord,
}
use ovecc.Text.{Text, is_some}
use ovecc.Core.Legacy.{DependencyRecord}
use ovecc.Core.Facts.{CoChangedPair}
use ovecc.Core.Coverage.{Floats}
use ovecc.Core.Architecture.{ComponentSpec, DependsOn, target_of, component, severity}
use ovecc.Rules.Contract.{ContractInput, Pair, PairMap, EdgeGroups}
use ovecc.Rules.Contract.Measures.{
  classify_edges, coupled_key, key_of, connected_by, explained, spec_allows,
}
use ovecc.Rules.Contract.Coupling.Keys.{key_if-IsKey}
use ovecc.Rules.Contract.Coupling.{is_key, classify_edges-coupling}

-- Those elements of a list that satisfy a predicate, each time they occur, in their order.
pub data Selected {A : Type 0} (P : A → Type 0) : List A → List A → Type 0 where
  nothing : Selected P [] []
  take : {a : A} {all kept : List A} → P a → Selected P all kept → Selected P (a ∷ all) (a ∷ kept)
  skip : {a : A} {all kept : List A} → ¬ P a → Selected P all kept → Selected P (a ∷ all) kept

keep_if-Selected :
    {A : Type 0} (P : A → Type 0) (p : A → Bool)
    → ((a : A) → (p a ≡ true) ↔ P a)
    → (all : List A) → Selected P all (keep_if p all)
keep_if-Selected P p law [] = nothing
keep_if-Selected P p law (a ∷ all) = elim (Bool-cases (p a)) [
  | inl yes_p ↦ rw yes_p (take ((law a).0 yes_p) (keep_if-Selected P p law all))
  | inr no_p ↦ rw no_p (skip (λ h. let e = (law a).1 h in cc) (keep_if-Selected P p law all))
]

-- Some import is entered under the pair.
abbrev pub IsEntered : Pair → PairMap → Type 0
IsEntered q m = (ds : List DependencyRecord) × Elem (q, ds) m

keys-IsEntered : (q : Pair) (m : PairMap) → Elem q (map (λ g. g.0) m) ↔ IsEntered q m
keys-IsEntered q m = (
  λ h.
      let ((p, ds), i, e) = Elem-unmap (λ (g : Pair × List DependencyRecord). g.0) q m h in
      (ds, subst (λ r. Elem (r, ds) m) e i),
  λ (ds, i). Elem-map (λ (g : Pair × List DependencyRecord). g.0) (q, ds) m i,
)

module _ {F : Type 0} (architecture : ContractInput F) where
  -- The component names the other under `depends_on`.
  abbrev pub MayDepend : Text → Text → Type 0
  MayDepend source target =
      (spec : ComponentSpec F) × (component architecture.contract source ≡ some spec)
      × ((on : DependsOn) × Elem on spec.depends_on × (target_of on ≡ target))

  spec_allows_iff :
      (source target : Text)
      → (spec_allows architecture source target ≡ true) ↔ MayDepend source target
  spec_allows_iff source target = elim (Option-cases (component architecture.contract source)) [
    | inl nobody ↦ (λ h. cc (rw (nobody, spec_allows) at h), λ (spec, e, on). cc)
    | inr (spec, found) ↦ (
      λ h.
          let inside : contains target (map target_of spec.depends_on) ≡ true =
            rw (found, spec_allows) at h in
          (
            spec,
            found,
            Elem-unmap target_of target spec.depends_on
                ((contains_iff target (map target_of spec.depends_on)).0 inside),
          ),
      λ (other, e, (on, i, t)).
          let same : other ≡ spec = cc in
          let there = subst (λ (s : ComponentSpec F). Elem on s.depends_on) same i in
          rw (found, spec_allows)
            ((contains_iff target (map target_of spec.depends_on)).1 (
              subst (λ x. Elem x (map target_of spec.depends_on)) t
                (Elem-map target_of on spec.depends_on there))),
    )
  ]

  module _ (groups : EdgeGroups F) where
    -- An import of the target by the source is entered as observed, as a divergence or as going
    -- around the interface of the target; or the source names the target under `depends_on`.
    abbrev pub Explains : Text → Text → Type 0
    Explains source target =
        Elem (source, target) groups.observed
        ⊎ IsEntered (source, target) groups.divergences
        ⊎ IsEntered (source, target) groups.bypasses
        ⊎ MayDepend source target

    connected_iff :
        (q : Pair)
        → (contains q (connected_by architecture groups) ≡ true)
          ↔ (Elem q groups.observed ⊎ IsEntered q groups.divergences ⊎ IsEntered q groups.bypasses)
    connected_iff q =
        let keys = map (λ (g : Pair × List DependencyRecord). g.0) in
        let member = contains_iff q (connected_by architecture groups) in
        let first =
          Elem-append q (groups.observed ++ keys groups.divergences) (keys groups.bypasses) in
        let second = Elem-append q groups.observed (keys groups.divergences) in
        let diverged = keys-IsEntered q groups.divergences in
        let bypassed = keys-IsEntered q groups.bypasses in
        (
          λ h.
              ⊎_elim (λ l. ⊎_elim inl (λ d. inr (inl (diverged.0 d))) (second.0 l))
                (λ b. inr (inr (bypassed.0 b))) (first.0 (member.0 h)),
          λ h. member.1 (
              first.1 (
                ⊎_elim (λ o. inl (second.1 (inl o)))
                  (λ r.
                    ⊎_elim (λ d. inl (second.1 (inr (diverged.1 d)))) (λ b. inr (bypassed.1 b)) r)
                  h)),
        )

    explained_iff :
        (x y : Text)
        → (explained architecture (connected_by architecture groups) x y ≡ true)
          ↔ (Explains x y ⊎ Explains y x)
    explained_iff x y = ground (
      arith,
      connected_iff (x, y),
      connected_iff (y, x),
      spec_allows_iff x y,
      spec_allows_iff y x,
    )

    -- The two files belong to the two components, one to each, and nothing explains why these
    -- change together; the components are named in their order.
    abbrev pub IsStranger : Pair → CoChangedPair F → Type 0
    IsStranger q pair =
        (list_cmp q.0 q.1 ≡ Ordering.lt)
        × ((lookup pair.left architecture.component_of ≡ some q.0)
              × (lookup pair.right architecture.component_of ≡ some q.1)
            ⊎ (lookup pair.left architecture.component_of ≡ some q.1)
              × (lookup pair.right architecture.component_of ≡ some q.0))
        × (¬ Explains q.0 q.1)
        × (¬ Explains q.1 q.0)

    key_when :
        (x y : Text) (q : Pair)
        → (is_key q (coupled_key architecture (connected_by architecture groups) (some x) (some y))
            ≡ true)
          ↔ ((list_cmp q.0 q.1 ≡ Ordering.lt)
              × (((x ≡ q.0) × (y ≡ q.1)) ⊎ ((x ≡ q.1) × (y ≡ q.0)))
              × (¬ Explains q.0 q.1)
              × (¬ Explains q.1 q.0))
    key_when x y q =
        key_if-IsKey Explains (explained architecture (connected_by architecture groups) x y) x y q
          (explained_iff x y)

    key_of-IsStranger :
        (q : Pair) (pair : CoChangedPair F)
        → (is_key q (key_of architecture (connected_by architecture groups) pair) ≡ true)
          ↔ IsStranger q pair
    key_of-IsStranger q pair = elim (Option-cases (lookup pair.left architecture.component_of)) [
      | inl e ↦ rw e (λ h. cc, λ (o, w, n, m). ⊎_elim (λ p. cc) (λ p. cc) w)
      | inr (x, e) ↦ elim (Option-cases (lookup pair.right architecture.component_of)) [
        | inl k ↦ rw (e, k) (λ h. cc, λ (o, w, n, m). ⊎_elim (λ p. cc) (λ p. cc) w)
        | inr (y, k) ↦ rw (e, k) (ground (arith, key_when x y q))
      ]
    ]

  -- Two components are reported as coupled exactly if the contract reports coupling, with at least
  -- two pairs of co-changed files: all those, in their order, with one file in each of the two
  -- components, the lesser name standing first, where no import of one by the other is entered as
  -- observed, as a divergence or as a bypass, and neither names the other under `depends_on`.
  pub classify_edges-IsStranger :
      (n : Floats F) (ds : List DependencyRecord) (q : Pair)
      → (pairs : List (CoChangedPair F)) × Selected
          (IsStranger (classify_edges architecture n ds) q)
          architecture.co_changes
          pairs
        × (lookup q (classify_edges architecture n ds).coupling ≡ (
            if is_some (severity architecture.contract.coupling)
            then (if leb 2 (length pairs) then some pairs else none)
            else none))
  classify_edges-IsStranger n ds q =
      let groups = classify_edges architecture n ds in
      let connected = connected_by architecture groups in
      (
        keep_if (λ pair. is_key q (key_of architecture connected pair)) architecture.co_changes,
        keep_if-Selected (IsStranger groups q)
            (λ pair. is_key q (key_of architecture connected pair)) (key_of-IsStranger groups q)
            architecture.co_changes,
        classify_edges-coupling architecture n ds q,
      )

-- ===== src/Rules/Contract/Filling.antt =====
-- How a loop over the dependencies fills one group of contract.rs: a group that grows by a
-- dependency exactly under a condition holds, at the end, the dependencies that meet it.
use ovecc.Prelude.{
  ◌≡◌, ◌↔◌, ◌⊎◌, inl, inr, ⊎_elim, refl, sym, ap, subst, Option, none, some, List, [], ◌∷◌, Elem,
  Holds,
}
use ovecc.Text.{Text}
use ovecc.Core.Legacy.{DependencyRecord}
use ovecc.Rules.Contract.{ContractInput, Pair, PairMap, EdgeGroups}
use ovecc.Rules.Contract.Classify.{
  prohibition, classify_crossing, classify_edge, classify_dependencies,
}
use ovecc.Rules.Contract.Crossing.{
  Crosses, crossing, crossing-some, crossed, SameCrossings, edge_crossed,
}

-- A group that takes nothing, where the condition fails.
pub unchanged : {X Q E K : Type 0} → ¬ K → X ↔ (Q × E × K ⊎ X)
unchanged fails = (inr, ⊎_elim (λ h. absurd (fails h.2)) (λ x. x))

-- A group that takes the dependency, where the condition holds.
pub grown : {X Y Q E K : Type 0} → K → Y ↔ (Q × E ⊎ X) → Y ↔ (Q × E × K ⊎ X)
grown k law = (
  λ y. ⊎_elim (λ h. inl (h.0, h.1, k)) inr (law.0 y),
  λ z. law.1 (⊎_elim (λ h. inl (h.0, h.1)) inr z),
)

-- The dependency crosses between the pair to a file that meets the condition.
abbrev pub CrossesWith :
    {F : Type 0} → ContractInput F → (Pair → Text → Type 0) → DependencyRecord → Pair → Type 0
CrossesWith architecture Meets d q = (path : Text) × Crosses architecture d q path × Meets q path

module _ {F : Type 0} (architecture : ContractInput F) (interfaces : List (Text × List Text))
    (field : EdgeGroups F → PairMap) (Meets : Pair → Text → Type 0)
    (same : (g k : EdgeGroups F) → SameCrossings architecture g k → field g ≡ field k)
    (step : (pair : Pair) (path : Text) (d : DependencyRecord) (g : EdgeGroups F) (q : Pair)
        (e : DependencyRecord)
      → Holds q e (
          field (
            classify_crossing architecture interfaces
              (prohibition architecture.contract pair)
              pair
              path
              d
              g))
        ↔ ((q ≡ pair) × (e ≡ d) × Meets pair path ⊎ Holds q e (field g))) where
  crossed_iff :
      (o : Option (Pair × Text)) (d : DependencyRecord) (g : EdgeGroups F) (q : Pair)
      (e : DependencyRecord)
      → crossing architecture d ≡ o
      → Holds q e (field (crossed architecture interfaces d g o))
        ↔ ((e ≡ d) × CrossesWith architecture Meets d q ⊎ Holds q e (field g))
  crossed_iff none d g q e out = (
    inr,
    ⊎_elim (λ (i, w). let found = (crossing-some architecture d q w.0).1 w.1 in cc) (λ m. m),
  )
  crossed_iff (some (pair, path)) d g q e into =
      let law = step pair path d g q e in
      let here = (crossing-some architecture d pair path).0 into in
      (
        λ m.
            ⊎_elim
              (λ (at, i, k).
                inl (i, subst (CrossesWith architecture Meets d) (sym at) (path, here, k)))
              inr (law.0 m),
        λ m. law.1 (
            ⊎_elim
              (λ (i, w).
                let found = (crossing-some architecture d q w.0).1 w.1 in
                let both : ◌≡◌ {A = Pair × Text} (q, w.0) (pair, path) = cc in
                inl (ap (λ b. b.0) both, i, subst (λ b. Meets b.0 b.1) both w.2))
              inr m),
      )

  edge_iff :
      (d : DependencyRecord) (g : EdgeGroups F) (q : Pair) (e : DependencyRecord)
      → Holds q e (field (classify_edge architecture interfaces d g))
        ↔ ((e ≡ d) × CrossesWith architecture Meets d q ⊎ Holds q e (field g))
  edge_iff d g q e =
      let k = same _ _ (edge_crossed architecture interfaces d g) in
      subst
        (λ m. Holds q e m ↔ ((e ≡ d) × CrossesWith architecture Meets d q ⊎ Holds q e (field g)))
        (sym k) (crossed_iff (crossing architecture d) d g q e refl)

  pub dependencies_iff :
      (ds : List DependencyRecord) (g : EdgeGroups F) (q : Pair) (e : DependencyRecord)
      → Holds q e (field (classify_dependencies architecture interfaces ds g))
        ↔ (Elem e ds × CrossesWith architecture Meets e q ⊎ Holds q e (field g))
  unfolding classify_dependencies
  dependencies_iff [] g q e = (inr, ⊎_elim (λ h. absurd h.0) (λ m. m))
  dependencies_iff (d ∷ ds) g q e =
      let rest = dependencies_iff ds (classify_edge architecture interfaces d g) q e in
      let first = edge_iff d g q e in
      (
        λ m.
            ⊎_elim (λ (at, c). inl (inr at, c))
              (λ k.
                ⊎_elim
                  (λ (i, c). inl (inl i, subst (λ x. CrossesWith architecture Meets x q) (sym i) c))
                  inr (first.0 k))
              (rest.0 m),
        λ m. rest.1 (
            ⊎_elim
              (λ (at, c).
                ⊎_elim
                  (λ i.
                    inr (first.1 (inl (i, subst (λ x. CrossesWith architecture Meets x q) i c))))
                  (λ k. inl (k, c)) at)
              (λ k. inr (first.1 (inr k))) m),
      )

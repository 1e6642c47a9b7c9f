-- ===== src/Graph/Traversal/Invariant.antt =====
-- The invariant of the search: walks lead to all entries, depths rise along the queue, and what has
-- left the queue below the bound has its neighbours found.
use ovecc.Prelude.{
  ℕ, zero, suc, ◌≤◌, ◌<◌, ◌≡◌, inl, inr, ◌≢◌, List, [], ◌∷◌, ◌++◌, if◌then◌else◌, leb, Eq, Ord,
  Elem, All, Distinct, Elem-append, Bool-cases, arith, map, subst, sym,
}
use ovecc.Graph.Traversal.{Entry, Search, offers, round}
use ovecc.Graph.Traversal.Step.{IsCovered, Adds, Adds-offers}

module _ {K : Type 0} (start : K) (neighbors : K → List K) where
  -- `Walk path n k`: the nodes of `path` lead from the start to `k` in `n` steps.
  pub data Walk : List K → ℕ → K → Type 0 where
    here : Walk (start ∷ []) zero start
    step :
        {path : List K} {n : ℕ} {k : K} (next : K)
        → Walk path n k
        → Elem next (neighbors k)
        → Walk (path ++ next ∷ []) (suc n) next

module _ {K : Type 0} ⦃e : Eq K⦄ ⦃o : Ord K⦄ (start : K) (neighbors : K → List K)
    (max_depth : ℕ) where
  -- Found with a depth of at most `n`.
  abbrev pub FoundBy : List (Entry K) → K → ℕ → Type 0
  FoundBy found k n = (x : Entry K) × Elem x found × (x.node ≡ k) × (x.depth ≤ n)

  abbrev pub IsWalk : Entry K → Type 0
  IsWalk x = Walk start neighbors x.path x.depth x.node × (x.depth ≤ max_depth)

  -- The depths of the queue rise from `low` to at most `high`.
  abbrev pub Rises : ℕ → ℕ → List (Entry K) → Type 0
  Rises low high [] = Unit
  Rises low high (x ∷ q) = (low ≤ x.depth) × (x.depth ≤ high) × Rises x.depth high q

  pub Rises-append :
      (low high : ℕ) (q added : List (Entry K))
      → Rises low high q
      → All (λ x. x.depth ≡ high) added
      → low ≤ high
      → Rises low high (q ++ added)
  Rises-append low high [] [] h k l = tt
  Rises-append low high [] (a ∷ rest) h k l =
      let at_high = Rises-append high high [] rest tt k.1 (omega arith) in
      (omega arith, omega arith, subst (λ n. Rises n high rest) (sym k.0) at_high)
  Rises-append low high (x ∷ q) added h k l =
      (h.0, h.1, Rises-append x.depth high q added h.2 k h.1)

  pub Rises-widen :
      (low high top : ℕ) (q : List (Entry K)) → Rises low high q → high ≤ top → Rises low top q
  Rises-widen low high top [] h l = tt
  Rises-widen low high top (x ∷ q) h l = (h.0, omega arith, Rises-widen x.depth high top q h.2 l)

  -- The nodes that a round offers.
  abbrev pub opened : Entry K → List K
  opened x = if leb max_depth x.depth then [] else neighbors x.node

  pub Adds-round :
      (s : Search K) (x : Entry K)
      → (added : List (Entry K)) × Adds start x.path x.depth
          (opened x)
          s
          (round start neighbors max_depth s x)
          added
  unfolding round offers
  Adds-round s x = elim (Bool-cases (leb max_depth x.depth)) [
    | inl full ↦ rw full (Adds-offers start x.path x.depth s [])
    | inr room ↦ rw room (Adds-offers start x.path x.depth s (neighbors x.node))
  ]

  pub opened-Elem :
      (x : Entry K) (v : K) → Elem v (opened x) → (x.depth < max_depth) × Elem v (neighbors x.node)
  opened-Elem x v m = ground arith

  pub opened-eq : (x : Entry K) → x.depth < max_depth → opened x ≡ neighbors x.node
  opened-eq x h = ground arith

  -- `found` holds the entries that were ever in the queue, in order.
  pub record Inv (done : List (Entry K)) (s : Search K) : Type 0 where
    pub level : ℕ
    pub rises : Rises level (suc level) s.queue
    pub bounded : All (λ x. x.depth ≤ suc level) (done ++ s.queue)
    pub walks : All IsWalk (done ++ s.queue)
    pub root : FoundBy (done ++ s.queue) start 0
    pub expanded :
        (x : Entry K)
        → Elem x done
        → x.depth < max_depth
        → All (λ v. FoundBy (done ++ s.queue) v (suc x.depth)) (neighbors x.node)
    pub visited :
        (k : K)
        → Elem k s.visited
        → (k ≢ start) × ((x : Entry K) × Elem x (done ++ s.queue) × (x.node ≡ k))
    pub marked : All (λ x. IsCovered start s x.node) (done ++ s.queue)
    pub unique : Distinct (map (λ x. x.node) (done ++ s.queue))
    pub paths :
        (p : List K)
        → Elem p s.paths
        → (x : Entry K) × Elem x (done ++ s.queue) × (x.path ≡ p) × (x.node ≢ start)

  pub FoundBy-append :
      (xs ys : List (Entry K)) (k : K) (n : ℕ) → FoundBy xs k n → FoundBy (xs ++ ys) k n
  FoundBy-append xs ys k n (x, m, e, d) = (x, (Elem-append x xs ys).1 (inl m), e, d)

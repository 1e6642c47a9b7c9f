-- ===== src/Graph/Traversal/Correct.antt =====
-- The search visits exactly the nodes that some walk of bounded length reaches, and the path that
-- it keeps for a node is a shortest walk.
use ovecc.Prelude.{
  ℕ, zero, suc, ◌≤◌, ◌≡◌, refl, inl, inr, ◌≢◌, some, List, [], ◌∷◌, ◌++◌, Eq, Ord, length, Elem,
  All-Elem, Distinct-unique, Elem-append, List-cases, arith, ap, append-nil, ⊎_elim, subst, sym,
  ◌∙◌,
}
use native.Mathlib.Decide.{dec_le}
use ovecc.Graph.Traversal.{Entry, Search, round, run, initial, search_from}
use ovecc.Graph.Traversal.Invariant.{Walk, here, step, FoundBy, IsWalk, Inv, Adds-round}
use ovecc.Graph.Traversal.Round.{Inv-round}
use ovecc.Graph.Traversal.Step.{IsCovered}

module _ {K : Type 0} ⦃e : Eq K⦄ ⦃o : Ord K⦄ (start : K) (neighbors : K → List K)
    (max_depth : ℕ) where
  Inv-initial : Inv start neighbors max_depth [] (initial start neighbors max_depth)
  unfolding initial
  Inv-initial = record {
    level = 0;
    rises = omega arith;
    bounded = omega arith;
    walks = ((here, omega arith), tt);
    root = (record { node = start; path = start ∷ []; depth = 0 }, inl refl, refl, omega arith);
    expanded = λ x m. absurd m;
    visited = λ k m. absurd m;
    marked = (inl refl, tt);
    unique = (λ m. m, tt);
    paths = λ p m. absurd m;
  }

  ends_at :
      (done : List (Entry K)) (s t : Search K)
      → s ≡ t
      → s.queue ≡ []
      → Inv start neighbors max_depth done s
      → (all : List (Entry K)) × Inv start neighbors max_depth all t × (t.queue ≡ [])
  ends_at done s t e h inv = (
    done,
    subst (Inv start neighbors max_depth done) e inv,
    ap (λ (r : Search K). r.queue) (sym e) ∙ h,
  )

  run-Inv :
      (fuel : ℕ) (done : List (Entry K)) (s t : Search K)
      → run start neighbors max_depth fuel s ≡ some t
      → Inv start neighbors max_depth done s
      → (all : List (Entry K)) × Inv start neighbors max_depth all t × (t.queue ≡ [])
  unfolding run
  run-Inv zero done s t h inv = elim (List-cases s.queue) [
    | inl empty ↦ ends_at done s t (cc (simp (empty, run) at h)) empty inv
    | inr (x, rest, q) ↦ cc (simp (q, run) at h)
  ]
  run-Inv (suc fuel) done s t h inv = elim (List-cases s.queue) [
    | inl empty ↦ ends_at done s t (cc (simp (empty, run) at h)) empty inv
    | inr (x, rest, q) ↦
        let (added, adds) = Adds-round start neighbors max_depth (record s { queue = rest }) x in
        run-Inv fuel (done ++ x ∷ [])
          (round start neighbors max_depth (record s { queue = rest }) x) t (simp (q, run) at h)
          (Inv-round start neighbors max_depth done s _ x rest added q adds inv)
  ]

module _ {K : Type 0} ⦃e : Eq K⦄ ⦃o : Ord K⦄ (start : K) (neighbors : K → List K) (max_depth : ℕ)
    (nodes : List K) {t : Search K}
    (done : search_from start neighbors max_depth nodes ≡ some t) where
  finished : (all : List (Entry K)) × Inv start neighbors max_depth all t × (t.queue ≡ [])
  unfolding search_from
  finished =
      run-Inv start neighbors max_depth (suc (length nodes)) [] (initial start neighbors max_depth)
        t done (Inv-initial start neighbors max_depth)

  abbrev all_found : List (Entry K)
  all_found = finished.0

  Inv-end : Inv start neighbors max_depth all_found t
  Inv-end = finished.1

  found_all : all_found ++ t.queue ≡ all_found
  found_all = ap (λ q. all_found ++ q) finished.2 ∙ append-nil all_found

  -- A node within the bound was found with at most its distance.
  reached :
      {path : List K} {n : ℕ} {k : K}
      → Walk start neighbors path n k
      → n ≤ max_depth
      → FoundBy start neighbors max_depth all_found k n
  reached here h = rw found_all at (Inv-end.root)
  reached (step {path} {n} {k} next w m) h =
      let (x, i, q, d) = reached w (omega arith) in
      let near = subst (λ j. Elem next (neighbors j)) (sym q) m in
      let (y, j, r, l) = All-Elem _ (neighbors x.node) (Inv-end.expanded x i (omega arith)) near in
      (y, rw found_all at j, r, omega arith)

  pub search_sound :
      (k : K)
      → Elem k t.visited
      → (k ≢ start) × ((path : List K) × (n : ℕ) × Walk start neighbors path n k × (n ≤ max_depth))
  search_sound k m =
      let (r, f) = Inv-end.visited k m in
      let (x, i, q) = f in
      let (w, l) = All-Elem (IsWalk start neighbors max_depth) _ Inv-end.walks i in
      (r, (x.path, x.depth, subst (Walk start neighbors x.path x.depth) q w, l))

  pub search_complete :
      {path : List K} {n : ℕ} {k : K}
      → Walk start neighbors path n k
      → n ≤ max_depth
      → k ≢ start
      → Elem k t.visited
  search_complete {k} w h r =
      let (x, i, q, _) = reached w h in
      let here_too = (Elem-append x all_found t.queue).1 (inl i) in
      subst (λ j. Elem j t.visited) q
        (⊎_elim (λ s. absurd (r (sym q ∙ s))) (λ v. v)
          (All-Elem (λ z. IsCovered start t z.node) _ Inv-end.marked here_too))

  pub search_shortest :
      (p : List K)
      → Elem p t.paths
      → (k : K) × (n : ℕ) × Walk start neighbors p n k
        × (n ≤ max_depth)
        × ((path : List K) (m : ℕ) → Walk start neighbors path m k → n ≤ m)
  search_shortest p m =
      let (x, i, q, r) = Inv-end.paths p m in
      let (w, l) = All-Elem (IsWalk start neighbors max_depth) _ Inv-end.walks i in
      (
        x.node,
        x.depth,
        subst (λ a. Walk start neighbors a x.depth x.node) q w,
        l,
        λ path n v. elim (dec_le x.depth n) [
          | yes short ↦ short
          | no longer ↦
              let (y, j, s, d) = reached v (omega arith) in
              let same =
                Distinct-unique (λ (z : Entry K). z.node) _ Inv-end.unique y x
                  ((Elem-append y all_found t.queue).1 (inl j)) i s in
              absurd (longer (subst (λ (z : Entry K). z.depth ≤ n) same d))
        ],
      )

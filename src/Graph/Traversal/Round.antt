-- ===== src/Graph/Traversal/Round.antt =====
-- A round of the search keeps its invariant.
use ovecc.Prelude.{
  ℕ, suc, ◌≤◌, ◌<◌, ◌≡◌, refl, inl, inr, ◌≢◌, List, [], ◌∷◌, ◌++◌, Eq, Ord, Elem, All, All-Elem,
  All-append, All-imp, All-of_Elem, Elem-unmap, Distinct-append, Elem-append, Elem-map, arith, ap,
  map, append_assoc, ⊎_elim, subst, sym, ◌∙◌,
}
use mathlib.Core.List.{map-append}
use ovecc.Graph.Traversal.{Entry, Search}
use ovecc.Graph.Traversal.Step.{IsFresh, IsCovered, Adds}
use ovecc.Graph.Traversal.Invariant.{
  Walk, FoundBy, IsWalk, Rises, Rises-append, Rises-widen, opened, opened-Elem, opened-eq, Inv,
  FoundBy-append, step,
}

module _ {K : Type 0} ⦃e : Eq K⦄ ⦃o : Ord K⦄ (start : K) (neighbors : K → List K) (max_depth : ℕ)
    (done : List (Entry K)) (s t : Search K) (x : Entry K) (rest added : List (Entry K))
    (head : s.queue ≡ x ∷ rest)
    (adds : Adds start x.path x.depth
      (opened start neighbors max_depth x)
      (record s { queue = rest })
      t
      added)
    (inv : Inv start neighbors max_depth done s) where
  open inv use {level, rises, bounded, walks, root, expanded, visited, marked, unique, paths}

  abbrev found : List (Entry K)
  found = done ++ s.queue

  found_next : (done ++ x ∷ []) ++ t.queue ≡ found ++ added
  found_next =
      append_assoc done (x ∷ []) t.queue
      ∙ ap (λ q. done ++ x ∷ q) adds.queue
      ∙ ap (λ q. done ++ (q ++ added)) (sym head)
      ∙ sym (append_assoc done s.queue added)

  x_found : Elem x found
  x_found = (Elem-append x done s.queue).1 (inr (rw head (inl refl)))

  depths :
      (level ≤ x.depth)
      × (x.depth ≤ suc level)
      × Rises start neighbors max_depth x.depth (suc level) rest
  depths = rw head at rises

  later : (P : Entry K → Type 0) → All P found → All P added → All P ((done ++ x ∷ []) ++ t.queue)
  later P h k = rw found_next ((All-append P found added).1 (h, k))

  still_found :
      (k : K) (n : ℕ)
      → FoundBy start neighbors max_depth found k n
      → FoundBy start neighbors max_depth ((done ++ x ∷ []) ++ t.queue) k n
  still_found k n f = rw found_next (FoundBy-append start neighbors max_depth found added k n f)

  covered_found :
      (v : K)
      → IsCovered start t v
      → FoundBy start neighbors max_depth ((done ++ x ∷ []) ++ t.queue) v (suc x.depth)
  covered_found v (inl r) =
      let (y, m, q, d) = still_found start 0 root in (y, m, q ∙ sym r, omega arith)
  covered_found v (inr m) = elim ((adds.visited v).0 m) [
    | inl old ↦
        let (y, k, q) = (visited v old).1 in
        still_found v (suc x.depth)
          (y, k, q, omega (arith, All-Elem (λ z. z.depth ≤ suc level) found bounded k, depths.0))
    | inr new ↦
        let (y, k, q) = Elem-unmap (λ (z : Entry K). z.node) v added new in
        let fresh =
          All-Elem (IsFresh start x.path x.depth (opened start neighbors max_depth x)) added
            adds.fresh k in
        (y, rw found_next ((Elem-append y found added).1 (inr k)), q, omega (arith, fresh.1))
  ]

  fresh-IsWalk :
      (y : Entry K)
      → IsFresh start x.path x.depth (opened start neighbors max_depth x) y
      → IsWalk start neighbors max_depth y
  fresh-IsWalk y (p, d, m, r) =
      let (room, edge) = opened-Elem start neighbors max_depth x y.node m in
      let (walk, _) = All-Elem (IsWalk start neighbors max_depth) found walks x_found in
      (
        subst (λ q. Walk start neighbors q y.depth y.node) (sym p)
            (subst (λ n. Walk start neighbors (x.path ++ y.node ∷ []) n y.node) (sym d)
              (step y.node walk edge)),
        omega (arith, d),
      )

  added_ne : (k : K) → Elem k (map (λ z. z.node) added) → k ≢ start
  added_ne k m r =
      let (y, i, q) = Elem-unmap (λ (z : Entry K). z.node) k added m in
      (All-Elem (IsFresh start x.path x.depth (opened start neighbors max_depth x)) added adds.fresh
          i).3
        (q ∙ r)

  abbrev ExpandsAt : Entry K → Type 0
  ExpandsAt y =
      y.depth < max_depth
      → All (λ v. FoundBy start neighbors max_depth ((done ++ x ∷ []) ++ t.queue) v (suc y.depth))
          (neighbors y.node)

  expands_head : ExpandsAt x
  expands_head room =
      All-imp (IsCovered start t) _ (neighbors x.node) covered_found
        (subst (All (IsCovered start t)) (opened-eq start neighbors max_depth x room) adds.covers)

  apart_from_found : (k : K) → Elem k (map (λ z. z.node) found) → ¬ Elem k (map (λ z. z.node) added)
  apart_from_found k m n =
      let (y, i, q) = Elem-unmap (λ (z : Entry K). z.node) k found m in
      ⊎_elim (λ r. added_ne k n (sym q ∙ r))
        (λ v. adds.unvisited k n (subst (λ j. Elem j s.visited) q v))
        (All-Elem (λ z. IsCovered start s z.node) found marked i)

  pub Inv-round : Inv start neighbors max_depth (done ++ x ∷ []) t
  Inv-round = record {
    level = x.depth;
    rises = rw adds.queue (
        Rises-append start neighbors max_depth x.depth (suc x.depth) rest added
          (Rises-widen start neighbors max_depth x.depth (suc level) (suc x.depth) rest depths.2
            (omega (arith, depths.0)))
          (All-imp _ (λ y. y.depth ≡ suc x.depth) added (λ y f. f.1) adds.fresh) (omega arith));
    bounded =
        later (λ y. y.depth ≤ suc x.depth)
          (All-imp (λ y. y.depth ≤ suc level) _ found (λ y d. omega (arith, depths.0)) bounded)
          (All-imp _ _ added (λ y f. omega (arith, f.1)) adds.fresh);
    walks =
        later (IsWalk start neighbors max_depth) walks (All-imp _ _ added fresh-IsWalk adds.fresh);
    root = still_found start 0 root;
    expanded = λ y m room. elim ((Elem-append y done (x ∷ [])).0 m) [
      | inl old ↦
          All-imp _ _ (neighbors y.node) (λ v f. still_found v (suc y.depth) f)
            (expanded y old room)
      | inr new ↦
          let y_is_x = ⊎_elim (λ (q : y ≡ x). q) (λ n. absurd n) new in
          subst ExpandsAt (sym y_is_x) expands_head room
    ];
    visited = λ k m.
        let covered = covered_found k (inr m) in
        (
          ⊎_elim (λ old. (visited k old).0) (λ new. added_ne k new) ((adds.visited k).0 m),
          (covered.0, covered.1, covered.2),
        );
    marked =
        later (λ y. IsCovered start t y.node)
          (All-imp _ _ found (λ y c. ⊎_elim inl (λ v. inr ((adds.visited y.node).1 (inl v))) c)
            marked)
          (All-of_Elem _ added (λ y m.
            inr ((adds.visited y.node).1 (inr (Elem-map (λ (z : Entry K). z.node) y added m)))));
    unique = rw found_next (
        rw (map-append (λ (y : Entry K). y.node) found added)
          (Distinct-append _ _ unique adds.apart apart_from_found));
    paths = λ p m. elim ((Elem-append p s.paths _).0 (rw adds.paths at m)) [
      | inl old ↦
          let (y, k, q, r) = paths p old in
          (y, rw found_next ((Elem-append y found added).1 (inl k)), q, r)
      | inr new ↦
          let (y, k, q) = Elem-unmap (λ (z : Entry K). z.path) p added new in
          (
            y,
            rw found_next ((Elem-append y found added).1 (inr k)),
            q,
            (All-Elem _ added adds.fresh k).3,
          )
    ];
  }

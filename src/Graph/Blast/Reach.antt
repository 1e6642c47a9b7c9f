-- ===== src/Graph/Blast/Reach.antt =====
-- What `blast_radius` reports: the search ends, and the impacted nodes are those that some chain of
-- impact edges of bounded length connects to the target.
use ovecc.Prelude.{
  ℕ, ◌≡◌, ◌↔◌, ◌⊎◌, inl, inr, ⊎_elim, refl, sym, ap, subst, Bool, true, some, List, [], ◌∷◌, ◌++◌,
  if◌then◌else◌, Elem, All, All-of_Elem, Elem-append, Elem-sort_by, Elem-dedup, Elem-push_entry,
  arith, get_or_nil, lookup, list_eq, nat_eq, list_ord, nat_ord, list_cmp, sort_by,
}
use ovecc.Text.{Text}
use ovecc.Core.Legacy.{ImpactDirection, looks_down, looks_up}
use ovecc.Graph.Traversal.{Search}
use ovecc.Graph.Traversal.Work.{search_from_total}
use ovecc.Graph.Blast.{BlastEdge}
use ovecc.Graph.Blast.Radius.{
  is_impact_edge, Adjacencies, add_edge, add_edges, no_edges, neighbors_in, edge_ends, blast_search,
}

-- Some impact edge leads from `u` to `v`.
abbrev pub PointsTo : List BlastEdge → Text → Text → Type 0
PointsTo edges u v =
    (edge : BlastEdge) × Elem edge edges
    × (is_impact_edge edge ≡ true)
    × (edge.source ≡ u)
    × (edge.target ≡ v)

-- A change of `u` affects `v` at once: `v` depends on `u`, or `u` on `v`, as the direction asks.
abbrev pub Affects : List BlastEdge → ImpactDirection → Text → Text → Type 0
Affects edges direction u v =
    (looks_down direction ≡ true) × PointsTo edges v u
    ⊎ (looks_up direction ≡ true) × PointsTo edges u v

preds-add_edge :
    (a : Adjacencies) (edge : BlastEdge) (u v : Text)
    → Elem v (get_or_nil (lookup u (add_edge a edge).predecessors)) ↔ (
        (is_impact_edge edge ≡ true) × (u ≡ edge.target) × (v ≡ edge.source)
        ⊎ Elem v (get_or_nil (lookup u a.predecessors)))
unfolding add_edge
preds-add_edge a edge u v =
    ground (arith, Elem-push_entry edge.target u edge.source v a.predecessors)

succs-add_edge :
    (a : Adjacencies) (edge : BlastEdge) (u v : Text)
    → Elem v (get_or_nil (lookup u (add_edge a edge).successors)) ↔ (
        (is_impact_edge edge ≡ true) × (u ≡ edge.source) × (v ≡ edge.target)
        ⊎ Elem v (get_or_nil (lookup u a.successors)))
unfolding add_edge
succs-add_edge a edge u v = ground (arith, Elem-push_entry edge.source u edge.target v a.successors)

PointsTo-cons :
    (edge : BlastEdge) (edges : List BlastEdge) (u v : Text)
    → PointsTo (edge ∷ edges) u v
      ↔ ((is_impact_edge edge ≡ true) × (edge.source ≡ u) × (edge.target ≡ v) ⊎ PointsTo edges u v)
PointsTo-cons edge edges u v = (
  λ (x, m, i, s, t).
      ⊎_elim
        (λ q.
          inl
            (subst (λ y. (is_impact_edge y ≡ true) × (y.source ≡ u) × (y.target ≡ v)) q (i, s, t)))
        (λ n. inr (x, n, i, s, t)) m,
  ⊎_elim (λ (i, s, t). (edge, inl refl, i, s, t)) (λ (x, m, i, s, t). (x, inr m, i, s, t)),
)

preds-add_edges :
    (a : Adjacencies) (edges : List BlastEdge) (u v : Text)
    → Elem v (get_or_nil (lookup u (add_edges a edges).predecessors))
      ↔ (PointsTo edges v u ⊎ Elem v (get_or_nil (lookup u a.predecessors)))
unfolding add_edges
preds-add_edges a [] u v = (inr, ⊎_elim (λ (x, m, i, s, t). absurd m) (λ m. m))
preds-add_edges a (edge ∷ edges) u v =
    let rest = preds-add_edges (add_edge a edge) edges u v in
    let first = preds-add_edge a edge u v in
    let cons = PointsTo-cons edge edges v u in
    (
      λ m.
          ⊎_elim (λ p. inl (cons.1 (inr p)))
            (λ n. ⊎_elim (λ (i, t, s). inl (cons.1 (inl (i, sym s, sym t)))) inr (first.0 n))
            (rest.0 m),
      ⊎_elim
          (λ p.
            ⊎_elim (λ (i, s, t). rest.1 (inr (first.1 (inl (i, sym t, sym s)))))
              (λ q. rest.1 (inl q)) (cons.0 p))
          (λ m. rest.1 (inr (first.1 (inr m)))),
    )

succs-add_edges :
    (a : Adjacencies) (edges : List BlastEdge) (u v : Text)
    → Elem v (get_or_nil (lookup u (add_edges a edges).successors))
      ↔ (PointsTo edges u v ⊎ Elem v (get_or_nil (lookup u a.successors)))
unfolding add_edges
succs-add_edges a [] u v = (inr, ⊎_elim (λ (x, m, i, s, t). absurd m) (λ m. m))
succs-add_edges a (edge ∷ edges) u v =
    let rest = succs-add_edges (add_edge a edge) edges u v in
    let first = succs-add_edge a edge u v in
    let cons = PointsTo-cons edge edges u v in
    (
      λ m.
          ⊎_elim (λ p. inl (cons.1 (inr p)))
            (λ n. ⊎_elim (λ (i, s, t). inl (cons.1 (inl (i, sym s, sym t)))) inr (first.0 n))
            (rest.0 m),
      ⊎_elim
          (λ p.
            ⊎_elim (λ (i, s, t). rest.1 (inr (first.1 (inl (i, sym s, sym t)))))
              (λ q. rest.1 (inl q)) (cons.0 p))
          (λ m. rest.1 (inr (first.1 (inr m)))),
    )

Elem-when :
    (b : Bool) (v : Text) (xs : List Text)
    → Elem v (if b then xs else []) ↔ ((b ≡ true) × Elem v xs)
Elem-when b v xs = ground arith

-- The neighbours of a node are the nodes that its change affects at once.
pub neighbors_in-Affects :
    (edges : List BlastEdge) (direction : ImpactDirection) (u v : Text)
    → Elem v (neighbors_in direction (add_edges no_edges edges) u) ↔ Affects edges direction u v
unfolding neighbors_in
neighbors_in-Affects edges direction u v =
    let a = add_edges no_edges edges in
    let preds = get_or_nil (lookup u a.predecessors) in
    let succs = get_or_nil (lookup u a.successors) in
    let down = if looks_down direction then preds else [] in
    let up = if looks_up direction then succs else [] in
    let p = preds-add_edges no_edges edges u v in
    let s = succs-add_edges no_edges edges u v in
    let split = Elem-append v down up in
    let sorted = Elem-sort_by list_cmp v (down ++ up) in
    let all = Elem-dedup v (sort_by list_cmp (down ++ up)) in
    let in_down = Elem-when (looks_down direction) v preds in
    let in_up = Elem-when (looks_up direction) v succs in
    (
      λ m.
          ⊎_elim (λ n. let (d, k) = in_down.0 n in inl (d, ⊎_elim (λ q. q) (λ x. absurd x) (p.0 k)))
            (λ n. let (d, k) = in_up.0 n in inr (d, ⊎_elim (λ q. q) (λ x. absurd x) (s.0 k)))
            (split.0 (sorted.0 (all.0 m))),
      λ n. all.1 (
          sorted.1 (
            split.1 (
              ⊎_elim (λ (d, q). inl (in_down.1 (d, p.1 (inl q))))
                (λ (d, q). inr (in_up.1 (d, s.1 (inl q)))) n))),
    )

edge_ends-Elem :
    (edges : List BlastEdge) (edge : BlastEdge)
    → Elem edge edges
    → Elem edge.source (edge_ends edges) × Elem edge.target (edge_ends edges)
edge_ends-Elem [] edge m = absurd m
edge_ends-Elem (x ∷ edges) edge (inl e) =
    (inl (ap (λ (y : BlastEdge). y.source) e), inr (inl (ap (λ (y : BlastEdge). y.target) e)))
edge_ends-Elem (x ∷ edges) edge (inr m) =
    let r = edge_ends-Elem edges edge m in (inr (inr r.0), inr (inr r.1))

PointsTo-ends :
    (edges : List BlastEdge) (u v : Text)
    → PointsTo edges u v
    → Elem u (edge_ends edges) × Elem v (edge_ends edges)
PointsTo-ends edges u v (x, m, i, s, t) =
    let r = edge_ends-Elem edges x m in
    (subst (λ y. Elem y (edge_ends edges)) s r.0, subst (λ y. Elem y (edge_ends edges)) t r.1)

neighbors_in-ends :
    (edges : List BlastEdge) (direction : ImpactDirection) (u : Text)
    → All (λ v. Elem v (edge_ends edges)) (neighbors_in direction (add_edges no_edges edges) u)
neighbors_in-ends edges direction u = All-of_Elem _ _ λ v m.
    ⊎_elim (λ (d, q). (PointsTo-ends edges v u q).0) (λ (d, q). (PointsTo-ends edges u v q).1)
      ((neighbors_in-Affects edges direction u v).0 m)

-- The search of `blast_radius` ends within its fuel.
pub blast_search_total :
    (edges : List BlastEdge) (target_id : Text) (direction : ImpactDirection) (max_depth : ℕ)
    → (t : Search Text) × (blast_search edges target_id direction max_depth ≡ some t)
unfolding blast_search
blast_search_total edges target_id direction max_depth =
    search_from_total (edge_ends edges) target_id
      (neighbors_in direction (add_edges no_edges edges)) max_depth
      (neighbors_in-ends edges direction)

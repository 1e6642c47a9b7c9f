-- ===== src/Graph/Blast/Impacted.antt =====
-- The nodes that a blast radius lists, against chains of impact edges.
use ovecc.Prelude.{
  ℕ, zero, suc, ◌≤◌, ◌≡◌, ◌≢◌, ◌↔◌, ◌⊎◌, inl, inr, sym, ap, subst, ◌∙◌, none, some, List, [], ◌∷◌,
  ◌++◌, Elem, Elem-sort_by, Elem-filter_map, Bool-cases, Option-cases, arith, lookup, assign,
  lookup-assign, filter_map, ==_iff, ◌==◌, list_eq, nat_eq, list_ord, nat_ord,
}
use ovecc.Text.{Text}
use ovecc.Core.Legacy.{ImpactDirection}
use ovecc.Graph.Traversal.{Search}
use ovecc.Graph.Traversal.Invariant.{Walk, here, step}
use ovecc.Graph.Traversal.Correct.{search_sound, search_complete}
use ovecc.Graph.Blast.{BlastNode, BlastEdge, ImpactedNode, BlastResult}
use ovecc.Graph.Blast.Radius.{
  answer, NodeIndex, index_from, add_edges, no_edges, neighbors_in, edge_ends, blast_search,
  blast_radius, report, as_impacted, impacted_entry, impacted_cmp,
}
use ovecc.Graph.Blast.Reach.{Affects, neighbors_in-Affects, blast_search_total}

-- A chain of `n` impact edges that carries a change of the target to `k`.
pub data Chain (edges : List BlastEdge) (direction : ImpactDirection) (target : Text)
    : ℕ → Text → Type 0 where
  start : Chain edges direction target zero target
  extend :
      {n : ℕ} {u : Text} (v : Text)
      → Chain edges direction target n u
      → Affects edges direction u v
      → Chain edges direction target (suc n) v

module _ (edges : List BlastEdge) (direction : ImpactDirection) (target : Text) where
  Walk→Chain :
      {path : List Text} {n : ℕ} {k : Text}
      → Walk target (neighbors_in direction (add_edges no_edges edges)) path n k
      → Chain edges direction target n k
  Walk→Chain here = start
  Walk→Chain (step {k} v w m) =
      extend v (Walk→Chain w) ((neighbors_in-Affects edges direction k v).0 m)

  Chain→Walk :
      {n : ℕ} {k : Text}
      → Chain edges direction target n k
      → (path : List Text) × Walk target
          (neighbors_in direction (add_edges no_edges edges))
          path
          n
          k
  Chain→Walk start = (target ∷ [], here)
  Chain→Walk (extend {u} v c a) =
      let (path, w) = Chain→Walk c in
      (path ++ v ∷ [], step v w ((neighbors_in-Affects edges direction u v).1 a))

-- Another node than the target that a chain of at most `max_depth` impact edges reaches.
abbrev pub IsImpacted : List BlastEdge → ImpactDirection → Text → ℕ → Text → Type 0
IsImpacted edges direction target max_depth k =
    (k ≢ target) × ((n : ℕ) × Chain edges direction target n k × (n ≤ max_depth))

blast_search-visited :
    (edges : List BlastEdge) (target : Text) (direction : ImpactDirection) (max_depth : ℕ)
    (t : Search Text)
    → blast_search edges target direction max_depth ≡ some t
    → (k : Text) → Elem k t.visited ↔ IsImpacted edges direction target max_depth k
unfolding blast_search
blast_search-visited edges target direction max_depth t h k =
    let next = neighbors_in direction (add_edges no_edges edges) in
    (
      λ m.
          let (r, f) = search_sound target next max_depth (edge_ends edges) h k m in
          let (path, n, w, l) = f in (r, (n, Walk→Chain edges direction target w, l)),
      λ (r, f).
          let (n, c, l) = f in
          let (path, w) = Chain→Walk edges direction target c in
          search_complete target next max_depth (edge_ends edges) h w l r,
    )

-- Every node of the graph is in the index under its id, or replaced there by a later one.
index_from-known :
    (index : NodeIndex) (nodes : List BlastNode) (k : Text)
    → ((m : BlastNode) × Elem m nodes × (m.id ≡ k)) ⊎ ((m : BlastNode) × (lookup k index ≡ some m))
    → (m : BlastNode) × (lookup k (index_from index nodes) ≡ some m)
unfolding index_from
index_from-known index [] k (inl (m, i, q)) = absurd i
index_from-known index [] k (inr r) = r
index_from-known index (x ∷ nodes) k (inl (m, inr i, q)) =
    index_from-known (assign x.id x index) nodes k (inl (m, i, q))
index_from-known index (x ∷ nodes) k (inl (m, inl e, q)) =
    index_from-known (assign x.id x index) nodes k (
      inr (
        x,
        rw (lookup-assign x.id k x index)
            (ground (arith, ==_iff k x.id, ap (λ (y : BlastNode). y.id) e)),
      ))
index_from-known index (x ∷ nodes) k (inr (m, l)) = index_from-known (assign x.id x index) nodes k (
    inr (elim (Bool-cases (k == x.id)) [
      | inl same ↦ (x, rw (lookup-assign x.id k x index, same))
      | inr other ↦ (m, rw (lookup-assign x.id k x index, other) l)
    ]))

index_from-Elem :
    (index : NodeIndex) (nodes : List BlastNode) (k : Text) (n : BlastNode)
    → lookup k (index_from index nodes) ≡ some n
    → Elem n nodes × (n.id ≡ k) ⊎ (lookup k index ≡ some n)
unfolding index_from
index_from-Elem index [] k n h = inr h
index_from-Elem index (x ∷ nodes) k n h = elim (index_from-Elem (assign x.id x index) nodes k n h) [
  | inl (m, q) ↦ inl (inr m, q)
  | inr l ↦
      let l' = rw (lookup-assign x.id k x index) at l in
      elim (Bool-cases (k == x.id)) [
        | inl same ↦
            let e : x ≡ n = cc (rw same at l') in
            inl (inl (sym e), ap (λ (y : BlastNode). y.id) (sym e) ∙ sym ((==_iff k x.id).0 same))
        | inr other ↦ inr (rw other at l')
      ]
]

-- A blast radius always comes to an answer: nothing for an id that no node has, and a report for an
-- id that some node has.
pub blast_radius_total :
    (nodes : List BlastNode) (edges : List BlastEdge) (target : Text) (direction : ImpactDirection)
    (max_depth : ℕ)
    → (((n : BlastNode) → Elem n nodes → n.id ≢ target)
        → blast_radius nodes edges target direction max_depth ≡ answer none)
      × ((n : BlastNode)
          → Elem n nodes
          → n.id ≡ target
          → (r : BlastResult) × (blast_radius nodes edges target direction max_depth
              ≡ answer (some r)))
unfolding blast_radius
blast_radius_total nodes edges target direction max_depth = (
  λ absent. elim (Option-cases (lookup target (index_from [] nodes))) [
    | inl unknown ↦ rw (unknown, blast_radius)
    | inr (n, known) ↦ elim (index_from-Elem [] nodes target n known) [
      | inl (m, q) ↦ absurd (absent n m q)
      | inr l ↦ cc l
    ]
  ],
  λ n m q.
      let (node, known) = index_from-known [] nodes target (inl (n, m, q)) in
      let (t, found) = blast_search_total edges target direction max_depth in
      (report (index_from [] nodes) node target t, rw (known, found, blast_radius)),
)

blast_answered :
    (nodes : List BlastNode) (edges : List BlastEdge) (target : Text) (direction : ImpactDirection)
    (max_depth : ℕ) (r : BlastResult)
    → blast_radius nodes edges target direction max_depth ≡ answer (some r)
    → (node : BlastNode) × (t : Search Text) × (blast_search edges target direction max_depth
        ≡ some t)
      × (r ≡ report (index_from [] nodes) node target t)
unfolding blast_radius
blast_answered nodes edges target direction max_depth r h =
    elim (Option-cases (lookup target (index_from [] nodes))) [
      | inl unknown ↦ cc (rw (unknown, blast_radius) at h)
      | inr (node, known) ↦ elim (Option-cases (blast_search edges target direction max_depth)) [
        | inl starved ↦ cc (rw (known, starved, blast_radius) at h)
        | inr (t, found) ↦ (node, t, found, cc (rw (known, found, blast_radius) at h))
      ]
    ]

impacted_entry_iff :
    (index : NodeIndex) (k : Text) (x : ImpactedNode)
    → (impacted_entry index k ≡ some x)
      ↔ ((n : BlastNode) × (lookup k index ≡ some n) × (as_impacted n ≡ x))
impacted_entry_iff index k x = elim (Option-cases (lookup k index)) [
  | inl unknown ↦ (λ h. cc (rw (unknown, impacted_entry) at h), λ (n, l, e). cc (l, unknown))
  | inr (m, known) ↦ (
    λ h. (m, known, cc (rw (known, impacted_entry) at h)),
    λ (n, l, e).
        let same : m ≡ n = cc (l, known) in
        rw (known, impacted_entry) (ap (λ y. some (as_impacted y)) same ∙ ap some e),
  )
]

report-impacted :
    (index : NodeIndex) (node : BlastNode) (target : Text) (t : Search Text) (x : ImpactedNode)
    → Elem x (report index node target t).impacted
      ↔ ((k : Text) × Elem k t.visited × (impacted_entry index k ≡ some x))
unfolding report
report-impacted index node target t x =
    let sorted = Elem-sort_by impacted_cmp x (filter_map (impacted_entry index) t.visited) in
    let mapped = Elem-filter_map (impacted_entry index) x t.visited in
    (λ m. mapped.0 (sorted.0 m), λ k. sorted.1 (mapped.1 k))

-- The entry is the anchor of an impacted node of the graph.
abbrev pub IsListed :
    List BlastNode → List BlastEdge → Text → ImpactDirection → ℕ → ImpactedNode → Type 0
IsListed nodes edges target direction max_depth x =
    (k : Text) × (n : BlastNode) × (lookup k (index_from [] nodes) ≡ some n)
    × (as_impacted n ≡ x)
    × IsImpacted edges direction target max_depth k

-- A report lists an entry exactly if it is the anchor of a node of the graph that a chain of at
-- most `max_depth` impact edges connects to the target, the target itself left out.
pub blast_radius-impacted :
    (nodes : List BlastNode) (edges : List BlastEdge) (target : Text) (direction : ImpactDirection)
    (max_depth : ℕ) (r : BlastResult) (x : ImpactedNode)
    → blast_radius nodes edges target direction max_depth ≡ answer (some r)
    → Elem x r.impacted ↔ IsListed nodes edges target direction max_depth x
blast_radius-impacted nodes edges target direction max_depth r x h =
    let (node, t, found, e) = blast_answered nodes edges target direction max_depth r h in
    let index = index_from [] nodes in
    let listed = report-impacted index node target t x in
    let visited = blast_search-visited edges target direction max_depth t found in
    (
      λ m.
          let (k, v, i) = listed.0 (subst (λ (y : BlastResult). Elem x y.impacted) e m) in
          let (n, l, a) = (impacted_entry_iff index k x).0 i in (k, n, l, a, (visited k).0 v),
      λ (k, n, l, a, reached).
          subst (λ (y : BlastResult). Elem x y.impacted) (sym e)
            (listed.1 (k, (visited k).1 reached, (impacted_entry_iff index k x).1 (n, l, a))),
    )

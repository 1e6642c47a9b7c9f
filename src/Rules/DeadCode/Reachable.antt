-- ===== src/Rules/DeadCode/Reachable.antt =====
-- crates/ovecc-rules/src/deadcode.rs: the files that `bfs_reachable` finds.
use ovecc.Prelude.{
  ◌≡◌, ◌↔◌, inl, inr, ⊎_elim, subst, some, List, [], ◌++◌, map, arith, length, unseen-le, Elem,
  Elem-append, Elem-map, Elem-unmap, Elem-push_all, All-of_Elem, lookup, get_or_nil, list_eq,
  nat_eq,
}
use ovecc.Text.{Text}
use ovecc.Worklist.{nothing_seen, deque}
use ovecc.Worklist.Closed.{Reaches, seed, step, rounds_left-reach_all, grow-reach_all_total}
use ovecc.Rules.DeadCode.{ImportEdge, build_out_edges, bfs_reachable}

-- An import edge leads from the one file to the other.
abbrev pub Imports : List ImportEdge → Text → Text → Type 0
Imports imports file target =
    (edge : ImportEdge) × Elem edge imports
    × (edge.source_file ≡ file)
    × (edge.target_file ≡ target)

-- A chain of imports leads from an entry point to the file.
pub data IsReachable (entry_points : List Text) (imports : List ImportEdge) : Text → Type 0 where
  entry : {file : Text} → Elem file entry_points → IsReachable entry_points imports file
  imported :
      {file target : Text}
      → IsReachable entry_points imports file
      → Imports imports file target
      → IsReachable entry_points imports target

Elem-build_out_edges :
    (imports : List ImportEdge) (file target : Text)
    → Elem target (get_or_nil (lookup file (build_out_edges imports))) ↔ Imports imports file target
unfolding build_out_edges
Elem-build_out_edges imports file target =
    let ends : ImportEdge → Text × Text = λ e. (e.source_file, e.target_file) in
    let law = Elem-push_all file target [] (map ends imports) in
    (
      λ m.
          let (edge, here, q) =
            Elem-unmap ends (file, target) imports (⊎_elim (λ i. i) (λ i. absurd i) (law.0 m)) in
          (edge, here, cc, cc),
      λ (edge, here, s, t).
          law.1
            (inl (subst (λ p. Elem p (map ends imports)) (cc) (Elem-map ends edge imports here))),
    )

module _ (entry_points : List Text) (imports : List ImportEdge) where
  abbrev targets : Text → List Text
  targets file = get_or_nil (lookup file (build_out_edges imports))

  abbrev nodes : List Text
  nodes = entry_points ++ map (λ e. e.target_file) imports

  Elem-nodes : (file target : Text) → Elem target (targets file) → Elem target nodes
  Elem-nodes file target m =
      let (edge, here, _, r) = (Elem-build_out_edges imports file target).0 m in
      (Elem-append target entry_points (map (λ e. e.target_file) imports)).1 (
        inr (
          subst (λ x. Elem x (map (λ e. e.target_file) imports)) r
            (Elem-map (λ e. e.target_file) edge imports here)))

  Reaches-IsReachable :
      (file : Text)
      → Reaches targets (λ f. Elem f entry_points) file
      → IsReachable entry_points imports file
  Reaches-IsReachable file (seed m) = entry m
  Reaches-IsReachable file (step {k = k} r d) =
      imported (Reaches-IsReachable k r) ((Elem-build_out_edges imports k file).0 d)

  IsReachable-Reaches :
      (file : Text)
      → IsReachable entry_points imports file
      → Reaches targets (λ f. Elem f entry_points) file
  IsReachable-Reaches file (entry m) = seed m
  IsReachable-Reaches file (imported {file = k} r d) =
      step (IsReachable-Reaches k r) ((Elem-build_out_edges imports k file).1 d)

-- The search of the imports always ends, and what it leaves are exactly the files to which a chain
-- of imports leads from an entry point.
pub bfs_reachable-exact :
    (entry_points : List Text) (imports : List ImportEdge)
    → (s : List Text) × (bfs_reachable entry_points imports ≡ some s)
      × ((file : Text) → Elem file s ↔ IsReachable entry_points imports file)
unfolding bfs_reachable
bfs_reachable-exact entry_points imports =
    let all_nodes = nodes entry_points imports in
    let (s, done, law) =
      grow-reach_all_total deque (targets entry_points imports) (λ file. Elem file entry_points)
        all_nodes
        (λ file.
          All-of_Elem (λ t. Elem t all_nodes) (targets entry_points imports file)
            (Elem-nodes entry_points imports file))
        entry_points (λ a. (λ m. m, λ m. m)) (length all_nodes)
        (omega (
          arith,
          unseen-le [] all_nodes,
          rounds_left-reach_all deque all_nodes entry_points nothing_seen (
              All-of_Elem (λ t. Elem t all_nodes) entry_points
                (λ t m. (Elem-append t entry_points (map (λ e. e.target_file) imports)).1 (inl m))),
        )) in
    (
      s,
      done,
      λ file. (
        λ m. Reaches-IsReachable entry_points imports file ((law file).0 m),
        λ r. (law file).1 (IsReachable-Reaches entry_points imports file r),
      ),
    )

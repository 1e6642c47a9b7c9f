-- ===== src/Graph/Cycles/Tests.antt =====
-- Runs of the cycle enumeration on small graphs.
use ovecc.Prelude.{◌≡◌, refl, some, [], ◌∷◌}
use ovecc.Text.{codes}
use ovecc.Graph.Cycles.{ModuleAdjacency, from_module_edges, canonical, enumerate_scc_cycles}
use ovecc.Graph.Cycles.Enumerate.{FindsCycles, enumerate_scc_cycles-Elementary}

-- b -> c -> a -> b, and a <-> c.
abbrev triangle : ModuleAdjacency
triangle = record {
  names = codes "b" ∷ codes "c" ∷ codes "a" ∷ [];
  succ = (1 ∷ []) ∷ (2 ∷ []) ∷ (0 ∷ 1 ∷ []) ∷ [];
}

triangle_cycles :
    enumerate_scc_cycles (0 ∷ 1 ∷ 2 ∷ []) triangle ≡ some ((2 ∷ 1 ∷ []) ∷ (2 ∷ 0 ∷ 1 ∷ []) ∷ [])
unfolding enumerate_scc_cycles canonical
triangle_cycles = refl

triangle_built :
    from_module_edges (codes "b" ∷ codes "c" ∷ codes "a" ∷ []) (
      (codes "b", codes "c")
      ∷ (codes "c", codes "a")
      ∷ (codes "a", codes "b")
      ∷ (codes "a", codes "a")
      ∷ (codes "a", codes "c")
      ∷ (codes "a", codes "b")
      ∷ (codes "x", codes "c")
      ∷ [])
    ≡ triangle
unfolding from_module_edges
triangle_built = refl

enumerate_scc_cycles-Elementary_example :
    FindsCycles (0 ∷ 1 ∷ 2 ∷ []) triangle (enumerate_scc_cycles (0 ∷ 1 ∷ 2 ∷ []) triangle)
enumerate_scc_cycles-Elementary_example = enumerate_scc_cycles-Elementary (0 ∷ 1 ∷ 2 ∷ []) triangle

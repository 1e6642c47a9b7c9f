-- ===== src/Graph/Cycles/Enumerate.antt =====
-- `enumerate_scc_cycles` of cycles.rs: it ends within its fuel, and each cycle it reports is one.
use ovecc.Prelude.{
  ℕ, zero, suc, ◌+◌, ◌-◌, ◌≤◌, ◌≡◌, refl, Option, some, List, [], ◌∷◌, Elem, All, arith, length,
  leb, min, Bool-cases, inl, inr, sort_by, Elem-sort_by, All-of_Elem,
}
use ovecc.Graph.Cycles.{
  ModuleAdjacency, Frame, nodes_of, dfs_round, dfs_run, dfs_cycles, from_starts, from_depths,
  enumerate_scc_cycles, by_name, max_cycles_per_scc, max_cycle_depth, dfs_fuel,
}
use ovecc.Graph.Cycles.Rounds.{CyclesOk, PathOk, dfs_round_keeps}
use ovecc.Graph.Cycles.Work.{work, work-dfs_round, work-first}

module _ (scc : List ℕ) (adjacency : ModuleAdjacency) where
  -- An answer, and one that holds elementary cycles only.
  abbrev pub FindsCycles : Option (List (List ℕ)) → Type 0
  FindsCycles o = (cs : List (List ℕ)) × (o ≡ some cs) × CyclesOk scc adjacency cs

  module _ (start depth_limit : ℕ) where
    dfs_run_lem :
        (fuel : ℕ) (levels : List Frame) (cs : List (List ℕ))
        → 2 ≤ depth_limit
        → depth_limit ≤ min (length scc) max_cycle_depth
        → PathOk start depth_limit scc adjacency (nodes_of levels)
        → CyclesOk scc adjacency cs
        → work start depth_limit scc adjacency levels ≤ fuel
        → FindsCycles
            (dfs_run start depth_limit scc adjacency fuel (record { levels = levels; cycles = cs }))
    unfolding dfs_run
    dfs_run_lem zero [] cs low high path ok enough = (cs, refl, ok)
    dfs_run_lem (suc fuel) [] cs low high path ok enough = (cs, refl, ok)
    dfs_run_lem zero (top ∷ below) cs low high path ok enough =
        absurd (omega (arith, work-dfs_round start depth_limit scc adjacency top below cs, enough))
    dfs_run_lem (suc fuel) (top ∷ below) cs low high path ok enough =
        elim (Bool-cases (leb max_cycles_per_scc (length cs))) [
          | inl full ↦ (cs, rw full refl, ok)
          | inr room ↦
              let s = dfs_round start depth_limit scc adjacency top below cs in
              let kept =
                dfs_round_keeps start depth_limit scc adjacency top below cs low high path ok
                  room in
              rw room (
                dfs_run_lem fuel s.levels s.cycles low high kept.path_ok kept.cycles_ok (
                  omega
                    (arith, work-dfs_round start depth_limit scc adjacency top below cs, enough)))
        ]

    dfs_cycles_lem :
        (cs : List (List ℕ))
        → 2 ≤ depth_limit
        → depth_limit ≤ min (length scc) max_cycle_depth
        → Elem start scc
        → CyclesOk scc adjacency cs
        → FindsCycles
            (dfs_cycles start depth_limit scc adjacency (dfs_fuel adjacency depth_limit) cs)
    unfolding dfs_cycles
    dfs_cycles_lem cs low high inner ok =
        dfs_run_lem (dfs_fuel adjacency depth_limit) (record { node = start; pos = 0 } ∷ []) cs low
          high
          (record {
            walk = tt;
            apart = (λ m. m, tt);
            within = (inner, tt);
            begins = refl;
            short = omega (arith, low);
          })
          ok (work-first start depth_limit scc adjacency start (omega (arith, low)))

  from_starts_lem :
      (depth_limit : ℕ) (starts : List ℕ) (cs : List (List ℕ))
      → 2 ≤ depth_limit
      → depth_limit ≤ min (length scc) max_cycle_depth
      → All (λ n. Elem n scc) starts
      → CyclesOk scc adjacency cs
      → FindsCycles (from_starts scc adjacency depth_limit starts cs)
  unfolding from_starts
  from_starts_lem depth_limit [] cs low high inner ok = (cs, refl, ok)
  from_starts_lem depth_limit (start ∷ starts) cs low high inner ok =
      elim (Bool-cases (leb max_cycles_per_scc (length cs))) [
        | inl full ↦ (cs, rw full refl, ok)
        | inr room ↦
            let (found, e, k) = dfs_cycles_lem start depth_limit cs low high inner.0 ok in
            rw (room, e) (from_starts_lem depth_limit starts found low high inner.1 k)
      ]

  from_depths_lem :
      (starts : List ℕ) (depth_limit count : ℕ) (cs : List (List ℕ))
      → 2 ≤ depth_limit
      → (1 ≤ count → depth_limit + count ≤ min (length scc) max_cycle_depth + 1)
      → All (λ n. Elem n scc) starts
      → CyclesOk scc adjacency cs
      → FindsCycles (from_depths scc adjacency starts depth_limit count cs)
  unfolding from_depths
  from_depths_lem starts depth_limit zero cs low high inner ok = (cs, refl, ok)
  from_depths_lem starts depth_limit (suc count) cs low high inner ok =
      elim (Bool-cases (leb max_cycles_per_scc (length cs))) [
        | inl full ↦ (cs, rw full refl, ok)
        | inr room ↦
            let (found, e, k) =
              from_starts_lem depth_limit starts cs low (omega (arith, high (omega arith))) inner
                ok in
            rw (room, e)
              (from_depths_lem starts (depth_limit + 1) count found (omega (arith, low))
                (λ some_left. omega (arith, high (omega arith))) inner k)
      ]

  -- The enumeration comes to an answer: at most 20 cycles, none twice, and each is an elementary
  -- cycle of the component, of 2 up to 12 nodes, with a least name first.
  pub enumerate_scc_cycles-Elementary : FindsCycles (enumerate_scc_cycles scc adjacency)
  unfolding enumerate_scc_cycles
  enumerate_scc_cycles-Elementary =
      from_depths_lem (sort_by (by_name adjacency) scc) 2 (min (length scc) max_cycle_depth - 1) []
        (omega arith) (λ some_left. omega (arith, some_left))
        (All-of_Elem (λ n. Elem n scc) (sort_by (by_name adjacency) scc)
          (λ a m. (Elem-sort_by (by_name adjacency) a scc).0 m))
        (record { elementary = tt; different = tt; few = omega arith })

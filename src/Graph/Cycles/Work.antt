-- ===== src/Graph/Cycles/Work.antt =====
-- The rounds that `dfs_cycles` of cycles.rs can take: every round takes from the work that the
-- levels of its path leave.
use ovecc.Prelude.{
  ℕ, zero, suc, ◌+◌, ◌-◌, ◌≤◌, ◌<◌, ◌≡◌, ap, false, List, [], ◌∷◌, arith, length, get_or, leb,
  Bool-cases, inl, inr, list_eq, nat_eq, length-map,
}
use ovecc.Graph.Cycles.{
  ModuleAdjacency, successors, Frame, extend, dfs_round, widest, level_rounds, rounds,
}

level_rounds_mono : (a b inner : ℕ) → a ≤ b → level_rounds a inner ≤ level_rounds b inner
level_rounds_mono zero zero inner h = omega arith
level_rounds_mono zero (suc b) inner h = omega (arith, level_rounds_mono zero b inner (omega arith))
level_rounds_mono (suc a) zero inner h = omega (arith, h)
level_rounds_mono (suc a) (suc b) inner h =
    omega (arith, level_rounds_mono a b inner (omega (arith, h)))

level_rounds-next :
    (n p inner : ℕ)
    → leb n p ≡ false
    → level_rounds (n - p) inner ≡ level_rounds (n - (p + 1)) inner + inner + 1
level_rounds-next n p inner h =
    let e : n - p ≡ suc (n - (p + 1)) = ground arith in ap (λ r. level_rounds r inner) e

level_rounds_pos : (a inner : ℕ) → 1 ≤ level_rounds a inner
level_rounds_pos zero inner = omega arith
level_rounds_pos (suc a) inner = omega arith

length-get_or-widest : (rows : List (List ℕ)) (n : ℕ) → length (get_or rows n []) ≤ widest rows
length-get_or-widest [] n = omega arith
length-get_or-widest (row ∷ rows) zero = omega arith
length-get_or-widest (row ∷ rows) (suc n) = omega (arith, length-get_or-widest rows n)

module _ (start depth_limit : ℕ) (scc : List ℕ) (adjacency : ModuleAdjacency) where
  abbrev inner_rounds : List Frame → ℕ
  inner_rounds levels = rounds (widest adjacency.succ) (depth_limit - length levels)

  abbrev pub work : List Frame → ℕ
  work [] = 0
  work (f ∷ below) =
      level_rounds (length (successors adjacency f.node) - f.pos) (inner_rounds (f ∷ below))
      + work below

  -- A new level costs no more than the level above it set aside.
  work-fresh :
      (node : ℕ) (levels : List Frame)
      → leb depth_limit (length levels) ≡ false
      → level_rounds
          (length (successors adjacency node) - 0)
          (inner_rounds (record { node = node; pos = 0 } ∷ levels))
        ≤ inner_rounds levels
  work-fresh node levels h =
      let e : depth_limit - length levels ≡ suc (depth_limit - suc (length levels)) =
        ground arith in
      let whole : length (successors adjacency node) - 0 ≡ length (successors adjacency node) =
        omega arith in
      rw (e, whole)
        (level_rounds_mono (length (successors adjacency node)) (widest adjacency.succ)
          (rounds (widest adjacency.succ) (depth_limit - suc (length levels)))
          (length-get_or-widest adjacency.succ node))

  work-extend :
      (levels : List Frame) (cs : List (List ℕ)) (next : ℕ)
      → work (extend start depth_limit scc adjacency levels cs next).levels
        ≤ inner_rounds levels + work levels
  unfolding extend
  work-extend levels cs next =
      ground (arith, work-fresh next levels, length-map levels (λ (f : Frame). f.node))

  pub work-dfs_round :
      (top : Frame) (below : List Frame) (cs : List (List ℕ))
      → work (dfs_round start depth_limit scc adjacency top below cs).levels < work (top ∷ below)
  unfolding dfs_round
  work-dfs_round top below cs =
      let row = successors adjacency top.node in
      let inner = inner_rounds (top ∷ below) in
      elim (Bool-cases (leb (length row) top.pos)) [
        | inl done ↦ rw done (omega (arith, level_rounds_pos (length row - top.pos) inner))
        | inr more ↦ rw more (
            omega (
              arith,
              level_rounds-next (length row) top.pos inner more,
              work-extend (record top { pos = top.pos + 1 } ∷ below) cs (get_or row top.pos 0),
            ))
      ]

  pub work-first :
      (node : ℕ)
      → 1 ≤ depth_limit
      → work (record { node = node; pos = 0 } ∷ []) ≤ rounds (widest adjacency.succ) depth_limit
  work-first node h =
      let whole : depth_limit - 0 ≡ depth_limit = omega arith in
      let first : work (record { node = node; pos = 0 } ∷ []) ≤ inner_rounds [] + 0 =
        omega (arith, work-fresh node [] (ground arith)) in
      omega (arith, first, ap (rounds (widest adjacency.succ)) whole)

-- ===== src/Graph/Cycles/Rounds.antt =====
-- One round of `dfs_cycles` in cycles.rs: what it keeps, and that it takes from the work left.
use ovecc.Prelude.{
  ℕ, zero, suc, ◌+◌, ◌≤◌, ◌≡◌, refl, ◌∙◌, subst, true, false, ◌&&◌, List, [], ◌∷◌, ◌++◌, reverse,
  Elem, All, Distinct, arith, length, length-append, get_or, All-append, Distinct-append,
  All-of_Elem, All-Elem, contains, contains_iff, leb, nat_eqb, min, Bool-cases, inl, inr, ⊎_elim,
  list_eq, nat_eq, nat_ord, if◌then◌else◌,
}
use ovecc.Graph.Cycles.{
  ModuleAdjacency, successors, canonical, Frame, PathSearch, nodes_of, extend, dfs_round,
  max_cycles_per_scc, max_cycle_depth,
}
use ovecc.Graph.Cycles.Loops.{
  Loop, Arrives, LeadsTo-reverse, Begins, first-reverse, Loop-of_LeadsTo, Elem-reverse,
  Distinct-reverse, length-reverse,
}
use ovecc.Graph.Cycles.Canonical.{
  LeastFirst, canonical-LeastFirst, canonical-Loop, canonical-Distinct, canonical-All,
  length-canonical,
}

-- A loop in the component that passes no node twice, of 2 up to 12 nodes, a least name first.
pub record Elementary (scc : List ℕ) (adjacency : ModuleAdjacency) (c : List ℕ) : Type 0 where
  pub loop : Loop adjacency c
  pub distinct : Distinct c
  pub inside : All (λ n. Elem n scc) c
  pub least_first : LeastFirst adjacency c
  pub at_least : 2 ≤ length c
  pub at_most : length c ≤ min (length scc) max_cycle_depth

pub record CyclesOk (scc : List ℕ) (adjacency : ModuleAdjacency) (cs : List (List ℕ)) : Type 0 where
  pub elementary : All (Elementary scc adjacency) cs
  pub different : Distinct cs
  pub few : length cs ≤ max_cycles_per_scc

Elem-get_or : (row : List ℕ) (pos : ℕ) → leb (length row) pos ≡ false → Elem (get_or row pos 0) row
Elem-get_or [] zero h = ground arith
Elem-get_or [] (suc pos) h = ground arith
Elem-get_or (x ∷ row) zero h = inl refl
Elem-get_or (x ∷ row) (suc pos) h = inr (Elem-get_or row pos (ground arith))

module _ (start depth_limit : ℕ) (scc : List ℕ) (adjacency : ModuleAdjacency) where
  abbrev pub Walk : List ℕ → Type 0
  Walk [] = Unit
  Walk (x ∷ xs) = Arrives adjacency xs x

  pub record PathOk (ns : List ℕ) : Type 0 where
    pub walk : Walk ns
    pub apart : Distinct ns
    pub within : All (λ n. Elem n scc) ns
    pub begins : Begins ns start
    pub short : length ns ≤ depth_limit

  pub record SearchOk (s : PathSearch) : Type 0 where
    pub path_ok : PathOk (nodes_of s.levels)
    pub cycles_ok : CyclesOk scc adjacency s.cycles

  PathOk-pop : (x : ℕ) (xs : List ℕ) → PathOk (x ∷ xs) → PathOk xs
  PathOk-pop x [] h = record {
    walk = tt;
    apart = tt;
    within = tt;
    begins = tt;
    short = omega (arith, h.short);
  }
  PathOk-pop x (y ∷ xs) h = record {
    walk = h.walk.1;
    apart = h.apart.1;
    within = h.within.1;
    begins = h.begins;
    short = omega (arith, h.short);
  }

  PathOk-push :
      (next x : ℕ) (xs : List ℕ)
      → PathOk (x ∷ xs)
      → Elem next (successors adjacency x)
      → contains next scc ≡ true
      → contains next (x ∷ xs) ≡ false
      → leb depth_limit (length (x ∷ xs)) ≡ false
      → PathOk (next ∷ x ∷ xs)
  PathOk-push next x xs h edge inner fresh room = record {
    walk = (edge, h.walk);
    apart = (λ m. cc ((contains_iff next (x ∷ xs)).1 m, fresh), h.apart);
    within = ((contains_iff next scc).0 inner, h.within);
    begins = h.begins;
    short = ground arith;
  }

  -- A path that leads back to its start, of the length sought, is an elementary cycle.
  pub closed_Elementary :
      (x : ℕ) (xs : List ℕ)
      → 2 ≤ depth_limit
      → depth_limit ≤ min (length scc) max_cycle_depth
      → PathOk (x ∷ xs)
      → Elem start (successors adjacency x)
      → length (x ∷ xs) ≡ depth_limit
      → Elementary scc adjacency (canonical (reverse (x ∷ xs)) adjacency)
  closed_Elementary x xs low high h edge full =
      let p = reverse (x ∷ xs) in
      let long : length (canonical p adjacency) ≡ depth_limit =
        length-canonical adjacency p ∙ length-reverse (x ∷ xs) ∙ full in
      let closed : Loop adjacency p =
        Loop-of_LeadsTo adjacency p start (first-reverse x xs start h.begins)
          (LeadsTo-reverse adjacency (x ∷ xs) start (edge, h.walk)) in
      record {
        loop = canonical-Loop adjacency p closed;
        distinct = canonical-Distinct adjacency p (Distinct-reverse (x ∷ xs) h.apart);
        inside =
            canonical-All adjacency (λ n. Elem n scc) p
              (All-of_Elem (λ n. Elem n scc) p
                (λ a m.
                  All-Elem (λ n. Elem n scc) (x ∷ xs) h.within ((Elem-reverse a (x ∷ xs)).0 m)));
        least_first = canonical-LeastFirst adjacency p closed;
        at_least = omega (arith, long, low);
        at_most = omega (arith, long, high);
      }

  CyclesOk-push :
      (c : List ℕ) (cs : List (List ℕ))
      → Elementary scc adjacency c
      → CyclesOk scc adjacency cs
      → leb max_cycles_per_scc (length cs) ≡ false
      → CyclesOk scc adjacency (if contains c cs then cs else cs ++ c ∷ [])
  CyclesOk-push c cs good h room = elim (Bool-cases (contains c cs)) [
    | inl old ↦ rw old h
    | inr new ↦ rw new (record {
      elementary = (All-append (Elementary scc adjacency) cs (c ∷ [])).1 (h.elementary, (good, tt));
      different =
          Distinct-append cs (c ∷ []) h.different (λ m. m, tt)
            (λ a m n.
              ⊎_elim (λ e. cc ((contains_iff c cs).1 (subst (λ b. Elem b cs) e m), new)) (λ k. k)
                n);
      few = ground (arith, length-append cs (c ∷ []));
    })
  ]

  extend_keeps :
      (top : Frame) (below : List Frame) (cs : List (List ℕ)) (next : ℕ)
      → 2 ≤ depth_limit
      → depth_limit ≤ min (length scc) max_cycle_depth
      → PathOk (nodes_of (top ∷ below))
      → CyclesOk scc adjacency cs
      → leb max_cycles_per_scc (length cs) ≡ false
      → Elem next (successors adjacency top.node)
      → SearchOk (extend start depth_limit scc adjacency (top ∷ below) cs next)
  unfolding extend
  extend_keeps top below cs next low high h k room edge =
      let ns = nodes_of (top ∷ below) in
      let back = nat_eqb next start && leb 2 (length ns) && nat_eqb (length ns) depth_limit in
      elim (Bool-cases (contains next scc)) [
        | inl inner ↦ elim (Bool-cases back) [
          | inl closes ↦
              let e : next ≡ start = ground arith in
              let full : length ns ≡ depth_limit = ground arith in
              rw (inner, closes)
                (record {
                  path_ok = h;
                  cycles_ok =
                      CyclesOk-push (canonical (reverse ns) adjacency) cs
                        (closed_Elementary top.node (nodes_of below) low high h
                          (subst (λ n. Elem n (successors adjacency top.node)) e edge) full)
                        k room;
                })
          | inr open_end ↦ elim (Bool-cases (contains next ns)) [
            | inl old ↦ rw (inner, open_end, old) (record { path_ok = h; cycles_ok = k })
            | inr fresh ↦ elim (Bool-cases (leb depth_limit (length ns))) [
              | inl deep ↦ rw (inner, open_end, fresh, deep) (record { path_ok = h; cycles_ok = k })
              | inr space ↦
                  rw (inner, open_end, fresh, space)
                    (record {
                      path_ok = PathOk-push next top.node (nodes_of below) h edge inner fresh space;
                      cycles_ok = k;
                    })
            ]
          ]
        ]
        | inr outer ↦ rw outer (record { path_ok = h; cycles_ok = k })
      ]

  pub dfs_round_keeps :
      (top : Frame) (below : List Frame) (cs : List (List ℕ))
      → 2 ≤ depth_limit
      → depth_limit ≤ min (length scc) max_cycle_depth
      → PathOk (nodes_of (top ∷ below))
      → CyclesOk scc adjacency cs
      → leb max_cycles_per_scc (length cs) ≡ false
      → SearchOk (dfs_round start depth_limit scc adjacency top below cs)
  unfolding dfs_round
  dfs_round_keeps top below cs low high h k room =
      let row = successors adjacency top.node in
      elim (Bool-cases (leb (length row) top.pos)) [
        | inl done ↦
            rw done (record { path_ok = PathOk-pop top.node (nodes_of below) h; cycles_ok = k })
        | inr more ↦ rw more (
            extend_keeps (record top { pos = top.pos + 1 }) below cs (get_or row top.pos 0) low high
              h k room (Elem-get_or row top.pos more))
      ]

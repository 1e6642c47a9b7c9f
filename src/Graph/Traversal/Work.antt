-- ===== src/Graph/Traversal/Work.antt =====
-- The loop ends: each round takes an entry off the queue, and one is added only with a node that
-- was not visited.
use ovecc.Prelude.{
  ℕ, zero, suc, ◌+◌, ◌≤◌, ◌≡◌, inl, inr, ◌||◌, some, List, [], ◌∷◌, ◌++◌, Eq, ◌==◌, Ord, contains,
  contains_iff, set_insert, Elem-set_insert, Grows, unseen, unseen_less, unseen-le, length,
  length-append, Elem, All, List-cases, arith, ap,
}
use ovecc.Graph.Traversal.{Entry, Search, offer, offers, round, run, initial, search_from}

module _ {K : Type 0} ⦃e : Eq K⦄ ⦃o : Ord K⦄ where
  contains-set_insert :
      (a b : K) (xs : List K) → contains b (set_insert a xs) ≡ (b == a || contains b xs)
  contains-set_insert a b xs = ground (
    arith,
    contains_iff b (set_insert a xs),
    contains_iff b xs,
    e.eqb_iff b a,
    Elem-set_insert a b xs,
  )

  grows : (a : K) (visited : List K) → Grows visited (set_insert a visited)
  grows a visited u h = ground (arith, contains-set_insert a u visited)

  module _ (nodes : List K) where
    abbrev work : Search K → ℕ
    work s = unseen s.visited nodes + length s.queue

    module _ (start : K) where
      work-offer :
          (path : List K) (depth : ℕ) (s : Search K) (n : K)
          → Elem n nodes
          → work (offer start path depth s n) ≤ work s
      unfolding offer
      work-offer path depth s n m =
          let x : Entry K = record { node = n; path = path ++ n ∷ []; depth = suc depth } in
          ground (
            arith,
            unseen_less n s.visited (set_insert n s.visited) nodes (grows n s.visited),
            contains-set_insert n n s.visited,
            e.eqb_iff n n,
            length-append {A = Entry K} s.queue (x ∷ []),
          )

      work-offers :
          (path : List K) (depth : ℕ) (s : Search K) (ns : List K)
          → All (λ n. Elem n nodes) ns
          → work (offers start path depth s ns) ≤ work s
      unfolding offers
      work-offers path depth s [] h = omega arith
      work-offers path depth s (n ∷ ns) h = omega (
        arith,
        work-offer path depth s n h.0,
        work-offers path depth (offer start path depth s n) ns h.1,
      )

      module _ (neighbors : K → List K) (max_depth : ℕ)
          (closed : (k : K) → All (λ n. Elem n nodes) (neighbors k)) where
        work-round :
            (s : Search K) (x : Entry K) → work (round start neighbors max_depth s x) ≤ work s
        unfolding round
        work-round s x =
            ground (arith, work-offers x.path x.depth s (neighbors x.node) (closed x.node))

        run_total :
            (fuel : ℕ) (s : Search K)
            → work s ≤ fuel
            → (t : Search K) × (run start neighbors max_depth fuel s ≡ some t)
        unfolding run
        run_total zero s h = (s, ground arith)
        run_total (suc fuel) s h = elim (List-cases s.queue) [
          | inl empty ↦ (s, simp (empty, run))
          | inr (x, rest, q) ↦
              let next = round start neighbors max_depth (record s { queue = rest }) x in
              let (t, done) =
                run_total fuel next
                  (omega (arith, work-round (record s { queue = rest }) x, ap length q)) in
              (t, rw (q, run) done)
        ]

        -- The fuel is enough.
        pub search_from_total :
            (t : Search K) × (search_from start neighbors max_depth nodes ≡ some t)
        unfolding search_from
        search_from_total =
            run_total (suc (length nodes)) (initial start neighbors max_depth)
              (omega (arith, unseen-le [] nodes))

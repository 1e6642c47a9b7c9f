-- ===== src/Graph/Traversal/Step.antt =====
-- What one round adds to the search.
use ovecc.Prelude.{
  ℕ, suc, ◌≡◌, ◌⊎◌, inl, inr, ◌↔◌, ◌||◌, List, [], ◌∷◌, ◌++◌, if◌then◌else◌, Eq, ◌==◌, Ord,
  contains, contains_iff, Elem-set_insert, Elem, All, Bool-cases, arith, ap, map, append-nil,
  append_assoc, ◌≢◌, Elem-append, All-append, All-imp, ◌∙◌, sym, ⊎_elim,
}
use ovecc.Prelude.{Distinct, Distinct-append}
use mathlib.Core.List.{map-append}
use ovecc.Graph.Traversal.{Entry, Search, offer, offers}

module _ {K : Type 0} (start : K) where
  abbrev pub IsCovered : Search K → K → Type 0
  IsCovered t n = (n ≡ start) ⊎ Elem n t.visited

module _ {K : Type 0} ⦃e : Eq K⦄ ⦃o : Ord K⦄ (start : K) (path : List K) (depth : ℕ) where
  -- An entry that this round may add.
  abbrev pub IsFresh : List K → Entry K → Type 0
  IsFresh ns x =
      (x.path ≡ path ++ x.node ∷ []) × (x.depth ≡ suc depth) × Elem x.node ns × (x.node ≢ start)

  -- The later state is the earlier one with the `added` entries.
  pub record Adds (ns : List K) (s t : Search K) (added : List (Entry K)) : Type 0 where
    pub queue : t.queue ≡ s.queue ++ added
    pub paths : t.paths ≡ s.paths ++ map (λ x. x.path) added
    pub visited : (k : K) → Elem k t.visited ↔ (Elem k s.visited ⊎ Elem k (map (λ x. x.node) added))
    pub covers : All (IsCovered start t) ns
    pub fresh : All (IsFresh ns) added
    pub apart : Distinct (map (λ x. x.node) added)
    pub unvisited : (k : K) → Elem k (map (λ x. x.node) added) → ¬ Elem k s.visited

  IsFresh-append :
      (ns ms : List K) (x : Entry K) → IsFresh ns x ⊎ IsFresh ms x → IsFresh (ns ++ ms) x
  IsFresh-append ns ms x (inl (p, d, m, r)) = (p, d, (Elem-append x.node ns ms).1 (inl m), r)
  IsFresh-append ns ms x (inr (p, d, m, r)) = (p, d, (Elem-append x.node ns ms).1 (inr m), r)

  Adds-trans :
      (ns ms : List K) (s t u : Search K) (a b : List (Entry K))
      → Adds ns s t a
      → Adds ms t u b
      → Adds (ns ++ ms) s u (a ++ b)
  Adds-trans ns ms s t u a b h k = record {
    queue = k.queue ∙ ap (λ q. q ++ b) h.queue ∙ append_assoc s.queue a b;
    paths =
        k.paths
        ∙ ap (λ q. q ++ map (λ x. x.path) b) h.paths
        ∙ append_assoc s.paths _ _
        ∙ ap (λ q. s.paths ++ q) (sym (map-append (λ (x : Entry K). x.path) a b));
    visited = λ x. rw (map-append (λ (y : Entry K). y.node) a b) (
        ground (
          arith,
          h.visited x,
          k.visited x,
          Elem-append x (map (λ y. y.node) a) (map (λ y. y.node) b),
        ));
    covers = (All-append (IsCovered start u) ns ms).1 (
      All-imp (IsCovered start t) (IsCovered start u) ns
          (λ n c. ⊎_elim inl (λ m. inr ((k.visited n).1 (inl m))) c) h.covers,
      k.covers,
    );
    fresh = (All-append (IsFresh (ns ++ ms)) a b).1 (
      All-imp (IsFresh ns) (IsFresh (ns ++ ms)) a (λ x f. IsFresh-append ns ms x (inl f)) h.fresh,
      All-imp (IsFresh ms) (IsFresh (ns ++ ms)) b (λ x f. IsFresh-append ns ms x (inr f)) k.fresh,
    );
    apart =
        rw (map-append (λ (y : Entry K). y.node) a b) (
          Distinct-append _ _ h.apart k.apart (λ x m n. k.unvisited x n ((h.visited x).1 (inr m))));
    unvisited = λ x m v.
        let parts = rw (map-append (λ (y : Entry K). y.node) a b) at m in
        ⊎_elim (λ old. h.unvisited x old v) (λ new. k.unvisited x new ((h.visited x).1 (inl v)))
          ((Elem-append x (map (λ y. y.node) a) (map (λ y. y.node) b)).0 parts);
  }

  added : Search K → K → List (Entry K)
  added s n =
      if n == start || contains n s.visited
      then []
      else record { node = n; path = path ++ n ∷ []; depth = suc depth } ∷ []

  Adds-offer : (s : Search K) (n : K) → Adds (n ∷ []) s (offer start path depth s n) (added s n)
  unfolding offer added
  Adds-offer s n = elim (Bool-cases (n == start || contains n s.visited)) [
    | inl old ↦ record {
      queue = simp (old, append-nil);
      paths = simp (old, append-nil);
      visited = λ k. ground arith;
      covers = ground (arith, e.eqb_iff n start, contains_iff n s.visited);
      fresh = ground arith;
      apart = ground arith;
      unvisited = λ k. ground arith;
    }
    | inr new ↦ record {
      queue = simp new;
      paths = simp new;
      visited = λ k. ground (arith, Elem-set_insert n k s.visited);
      covers = ground (arith, Elem-set_insert n n s.visited);
      fresh = ground (arith, e.eqb_iff n start);
      apart = ground arith;
      unvisited = λ k. ground (arith, contains_iff k s.visited);
    }
  ]

  -- What the whole `for` loop adds.
  pub Adds-offers :
      (s : Search K) (ns : List K)
      → (added : List (Entry K)) × Adds ns s (offers start path depth s ns) added
  unfolding offers
  Adds-offers s [] = (
    [],
    record {
      queue = rw append-nil;
      paths = rw append-nil;
      visited = λ k. ground arith;
      covers = tt;
      fresh = tt;
      apart = tt;
      unvisited = λ k m. absurd m;
    },
  )
  Adds-offers s (n ∷ ns) =
      let (rest, adds) = Adds-offers (offer start path depth s n) ns in
      (added s n ++ rest, Adds-trans (n ∷ []) ns s _ _ _ rest (Adds-offer s n) adds)

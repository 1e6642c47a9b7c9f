-- ===== src/Worklist/Closed.antt =====
-- The set that a work list grows is the closure of what was put in it, and the loop ends.
use ovecc.Prelude.{
  ℕ, zero, suc, ◌+◌, ◌≤◌, ◌≡◌, ◌↔◌, ◌⊎◌, inl, inr, ⊎_elim, refl, sym, ap, subst, some, List, [],
  ◌∷◌, arith, Eq, contains, contains_iff, length, unseen, unseen_less, Elem, All, List-cases,
  Bool-cases,
}
use ovecc.Worklist.{Discipline, Growth, nothing_seen, reach, reach_all, grow}

-- What the targets lead to from the seeds.
pub data Reaches {K : Type 0} (targets : K → List K) (Seed : K → Type 0) : K → Type 0 where
  seed : {k : K} → Seed k → Reaches targets Seed k
  step : {k j : K} → Reaches targets Seed k → Elem j (targets k) → Reaches targets Seed j

module _ {K : Type 0} ⦃e : Eq K⦄ (discipline : Discipline K) where
  Elem-reach :
      (a k : K) (g : Growth K) → Elem a (reach discipline k g).seen ↔ ((a ≡ k) ⊎ Elem a g.seen)
  unfolding reach
  Elem-reach a k g = ground (arith, contains_iff k g.seen)

  pub Elem-reach_all :
      (a : K) (ks : List K) (g : Growth K)
      → Elem a (reach_all discipline ks g).seen ↔ (Elem a ks ⊎ Elem a g.seen)
  unfolding reach_all
  Elem-reach_all a [] g = ground arith
  Elem-reach_all a (k ∷ ks) g =
      ground (arith, Elem-reach a k g, Elem-reach_all a ks (reach discipline k g))

  -- `reach` keeps a member in the work list, and puts there what it adds.
  Elem-work-reach :
      (a k : K) (g : Growth K)
      → Elem a (reach discipline k g).seen
      → (Elem a (reach discipline k g).work) ⊎ Elem a g.seen
  unfolding reach
  Elem-work-reach a k g = ground (arith, discipline.Elem-push a k g.work)

  keep-work-reach : (a k : K) (g : Growth K) → Elem a g.work → Elem a (reach discipline k g).work
  unfolding reach
  keep-work-reach a k g = ground (arith, discipline.Elem-push a k g.work)

  keep-work-reach_all :
      (a : K) (ks : List K) (g : Growth K) → Elem a g.work → Elem a (reach_all discipline ks g).work
  unfolding reach_all
  keep-work-reach_all a [] g m = m
  keep-work-reach_all a (k ∷ ks) g m =
      keep-work-reach_all a ks (reach discipline k g) (keep-work-reach a k g m)

  Elem-work-reach_all :
      (a : K) (ks : List K) (g : Growth K)
      → Elem a (reach_all discipline ks g).seen
      → Elem a (reach_all discipline ks g).work ⊎ Elem a g.seen
  unfolding reach_all
  Elem-work-reach_all a [] g m = inr m
  Elem-work-reach_all a (k ∷ ks) g m =
      ⊎_elim inl
        (λ i.
          ⊎_elim (λ w. inl (keep-work-reach_all a ks (reach discipline k g) w)) inr
            (Elem-work-reach a k g i))
        (Elem-work-reach_all a ks (reach discipline k g) m)

  within-reach :
      (a k : K) (g : Growth K)
      → (Elem a g.work → Elem a g.seen)
      → Elem a (reach discipline k g).work
      → Elem a (reach discipline k g).seen
  unfolding reach
  within-reach a k g h m = ground (arith, discipline.Elem-push a k g.work)

  pub within-reach_all :
      (a : K) (ks : List K) (g : Growth K)
      → (Elem a g.work → Elem a g.seen)
      → Elem a (reach_all discipline ks g).work
      → Elem a (reach_all discipline ks g).seen
  unfolding reach_all
  within-reach_all a [] g h m = h m
  within-reach_all a (k ∷ ks) g h m =
      within-reach_all a ks (reach discipline k g) (within-reach a k g h) m

  -- The rounds left are at most the members of the work list and the nodes not seen.
  abbrev pub rounds_left : List K → Growth K → ℕ
  rounds_left nodes g = unseen g.seen nodes + length g.work

  rounds_left-reach :
      (nodes : List K) (k : K) (g : Growth K)
      → Elem k nodes
      → rounds_left nodes (reach discipline k g) ≤ rounds_left nodes g
  unfolding reach
  rounds_left-reach nodes k g m = elim (Bool-cases (contains k g.seen)) [
    | inl old ↦ rw old (omega arith)
    | inr new ↦
        let less =
          unseen_less k g.seen (k ∷ g.seen) nodes (λ u h. ground arith) new
            ((contains_iff k (k ∷ g.seen)).1 (inl refl)) m in
        rw new (omega (arith, less, discipline.length-push k g.work))
  ]

  pub rounds_left-reach_all :
      (nodes ks : List K) (g : Growth K)
      → All (λ k. Elem k nodes) ks
      → rounds_left nodes (reach_all discipline ks g) ≤ rounds_left nodes g
  unfolding reach_all
  rounds_left-reach_all nodes [] g h = omega arith
  rounds_left-reach_all nodes (k ∷ ks) g h = omega (
    arith,
    rounds_left-reach nodes k g h.0,
    rounds_left-reach_all nodes ks (reach discipline k g) h.1,
  )

  module _ (targets : K → List K) (Seed : K → Type 0) where
    -- The set in the making: all of it is reached, and what it leads to is in it or is to come.
    record IsGrowing (g : Growth K) : Type 0 where
      within : (a : K) → Elem a g.work → Elem a g.seen
      followed :
          (a : K) → Elem a g.seen → Elem a g.work ⊎ ((t : K) → Elem t (targets a) → Elem t g.seen)
      sound : (a : K) → Elem a g.seen → Reaches targets Seed a
      seeded : (a : K) → Seed a → Elem a g.seen

    -- A round of the loop, which takes the next member off the work list and puts in what it leads
    -- to, keeps the invariant: what waits is in the set; what a member of the set leads to is in
    -- the set, unless the member still waits; and the set holds the seeds, and only what is reached
    -- from them.
    round-IsGrowing :
        (k : K) (rest : List K) (g : Growth K)
        → g.work ≡ k ∷ rest
        → IsGrowing g
        → IsGrowing (reach_all discipline (targets k) (record g { work = rest }))
    round-IsGrowing k rest g q i =
        let g2 : Growth K = record g { work = rest } in
        let next = reach_all discipline (targets k) g2 in
        let taken : Elem k g.work = subst (Elem k) (sym q) (inl refl) in
        let left : (a : K) → Elem a rest → Elem a g.work = λ a m. subst (Elem a) (sym q) (inr m) in
        let more : (a : K) → Elem a g.seen → Elem a next.seen =
          λ a m. (Elem-reach_all a (targets k) g2).1 (inr m) in
        let old : (a : K)
            → Elem a g.seen
            → Elem a next.work ⊎ ((t : K) → Elem t (targets a) → Elem t next.seen) =
          λ a m.
            ⊎_elim
              (λ w.
                ⊎_elim
                  (λ same. inr (λ t d.
                    (Elem-reach_all t (targets k) g2).1
                      (inl (subst (λ x. Elem t (targets x)) same d))))
                  (λ r. inl (keep-work-reach_all a (targets k) g2 r)) (subst (Elem a) q w))
              (λ h. inr (λ t d. more t (h t d))) (i.followed a m) in
        record {
          within = λ a m. within-reach_all a (targets k) g2 (λ r. i.within a (left a r)) m;
          followed = λ a m. ⊎_elim inl (old a) (Elem-work-reach_all a (targets k) g2 m);
          sound = λ a m.
              ⊎_elim (λ d. step (i.sound k (i.within k taken)) d) (i.sound a)
                ((Elem-reach_all a (targets k) g2).0 m);
          seeded = λ a s. more a (i.seeded a s);
        }

    -- At the end the set is closed, so it holds all that is reached.
    closed :
        (g : Growth K)
        → g.work ≡ []
        → IsGrowing g
        → (a : K) → Reaches targets Seed a
        → Elem a g.seen
    closed g q i a (seed s) = i.seeded a s
    closed g q i a (step {k = k} r d) =
        ⊎_elim (λ w. absurd (subst (Elem k) q w)) (λ h. h a d) (i.followed k (closed g q i k r))

    -- With enough fuel the loop leaves exactly what is reached from the seeds.
    grow_total :
        (nodes : List K)
        → ((k : K) → All (λ t. Elem t nodes) (targets k))
        → (fuel : ℕ) (g : Growth K) → rounds_left nodes g ≤ fuel
        → IsGrowing g
        → (s : List K) × (grow discipline targets fuel g ≡ some s)
          × ((a : K) → Elem a s ↔ Reaches targets Seed a)
    unfolding grow
    grow_total nodes bounded zero g h i = elim (List-cases g.work) [
      | inl empty ↦ (g.seen, rw (empty, grow) refl, λ a. (i.sound a, closed g empty i a))
      | inr (k, rest, q) ↦ absurd (omega (arith, ap length q))
    ]
    grow_total nodes bounded (suc fuel) g h i = elim (List-cases g.work) [
      | inl empty ↦ (g.seen, rw (empty, grow) refl, λ a. (i.sound a, closed g empty i a))
      | inr (k, rest, q) ↦
          let (s, done, law) =
            grow_total nodes bounded fuel
              (reach_all discipline (targets k) (record g { work = rest }))
              (omega (
                arith,
                ap length q,
                rounds_left-reach_all nodes (targets k) (record g { work = rest }) (bounded k),
              ))
              (round-IsGrowing k rest g q i) in
          (s, rw (q, grow) done, law)
    ]

    reach_all-IsGrowing :
        (seeds : List K)
        → ((a : K) → Seed a ↔ Elem a seeds)
        → IsGrowing (reach_all discipline seeds nothing_seen)
    reach_all-IsGrowing seeds law =
        let at : (a : K)
            → Elem a (reach_all discipline seeds nothing_seen).seen ↔ (Elem a seeds ⊎ ⊥) =
          λ a. Elem-reach_all a seeds nothing_seen in
        record {
          within = λ a m. within-reach_all a seeds nothing_seen (λ w. w) m;
          followed = λ a m. ⊎_elim inl (λ i. absurd i) (Elem-work-reach_all a seeds nothing_seen m);
          sound = λ a m. seed ((law a).1 (⊎_elim (λ i. i) (λ i. absurd i) ((at a).0 m)));
          seeded = λ a m. (at a).1 (inl ((law a).0 m));
        }

    -- From an empty set into which the seeds were put.
    pub grow-reach_all_total :
        (nodes : List K)
        → ((k : K) → All (λ t. Elem t nodes) (targets k))
        → (seeds : List K) → ((a : K) → Seed a ↔ Elem a seeds)
        → (fuel : ℕ) → rounds_left nodes (reach_all discipline seeds nothing_seen) ≤ fuel
        → (s : List K) × (grow discipline targets fuel (reach_all discipline seeds nothing_seen)
            ≡ some s)
          × ((a : K) → Elem a s ↔ Reaches targets Seed a)
    grow-reach_all_total nodes bounded seeds law fuel h =
        grow_total nodes bounded fuel (reach_all discipline seeds nothing_seen) h
          (reach_all-IsGrowing seeds law)

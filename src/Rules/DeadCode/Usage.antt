-- ===== src/Rules/DeadCode/Usage.antt =====
-- crates/ovecc-rules/src/deadcode.rs: the exports that the usage analysis counts as used.
use ovecc.Prelude.{
  ◌+◌, ◌≡◌, ◌↔◌, ◌⊎◌, inl, inr, ⊎_elim, refl, sym, subst, true, false, some, List, [], ◌++◌, map,
  arith, Elem-flat_map, length, unseen-le, Elem, Elem-append, Elem-map, push_all, Elem-push_all,
  lookup, get_or_nil, list_eq, nat_eq, pair_eq, All-of_Elem,
}
use ovecc.Text.{Text}
use ovecc.Worklist.{nothing_seen, stack, reach_all, grow}
use ovecc.Worklist.Closed.{Reaches, seed, step, grow-reach_all_total}
use ovecc.Rules.DeadCode.{
  Key, ImportEdge, DeadCodeInput, surface, seed_public_surface, propagate_forwards, used_keys,
}
use ovecc.Rules.DeadCode.Conditions.{Elem-surface, Elem-consumed, Elem-passed_on}
use ovecc.Rules.DeadCode.Seeds.{
  Exports, ReExports, consumed, passed_on, all_consumed, all_passed_on, reach_all-append,
  seed_from_imports-enter,
}

module _ (input : DeadCodeInput) (Live : Text → Type 0) where
  -- An import of a reachable file names what it takes from the target.
  abbrev pub TakesByName : ImportEdge → Text → Type 0
  TakesByName edge name =
      Elem edge input.imports
      × Live edge.source_file
      × (edge.is_namespace ≡ false)
      × Elem name edge.imported_names
      × Exports input.exports edge.target_file name

  -- Why an export counts as used: it is an entry point's, a reachable file takes all that its file
  -- exports, or takes it by name for itself, or exports it again and that one is used.
  pub data IsUsed : Key → Type 0 where
    offered :
        {file name : Text}
        → Elem file input.entry_points
        → Exports input.exports file name
        → IsUsed (file, name)
    taken_whole :
        (edge : ImportEdge) {name : Text}
        → Elem edge input.imports
        → Live edge.source_file
        → edge.is_namespace ≡ true
        → Exports input.exports edge.target_file name
        → IsUsed (edge.target_file, name)
    taken :
        (edge : ImportEdge) {name : Text}
        → TakesByName edge name
        → ¬ ReExports input.exports edge.source_file name
        → IsUsed (edge.target_file, name)
    passed :
        (edge : ImportEdge) {name : Text}
        → TakesByName edge name
        → ReExports input.exports edge.source_file name
        → IsUsed (edge.source_file, name)
        → IsUsed (edge.target_file, name)

module _ (input : DeadCodeInput) (reachable : List Text) where
  abbrev seeds : List Key
  seeds =
      surface input.entry_points input.exports ++ all_consumed reachable input.exports input.imports

  abbrev forwards : List (Key × Key)
  forwards = all_passed_on reachable input.exports input.imports

  abbrev targets : Key → List Key
  targets key = get_or_nil (lookup key (push_all [] forwards))

  Elem-targets : (from to : Key) → Elem to (targets from) ↔ Elem (from, to) forwards
  Elem-targets from to =
      let law = Elem-push_all from to [] forwards in
      (λ m. ⊎_elim (λ i. i) (λ i. absurd i) (law.0 m), λ m. law.1 (inl m))

  module _ (Live : Text → Type 0) (law : (file : Text) → Elem file reachable ↔ Live file) where
    Elem-seeds-IsUsed : (key : Key) → Elem key seeds → IsUsed input Live key
    Elem-seeds-IsUsed (file, name) m =
        ⊎_elim
          (λ s.
            let (here, x) = (Elem-surface input.entry_points input.exports file name).0 s in
            offered here x)
          (λ c.
            let (edge, here, k) =
              (Elem-flat_map (consumed reachable input.exports) (file, name) input.imports).0 c in
            let (live, e, x, w) = (Elem-consumed reachable input.exports edge file name).0 k in
            subst (λ f. IsUsed input Live (f, name)) e
              (⊎_elim (λ all. taken_whole edge here ((law edge.source_file).0 live) all x)
                (λ (named, listed, no_hop).
                  taken edge (here, (law edge.source_file).0 live, named, listed, x) no_hop)
                w))
          ((Elem-append (file, name) (surface input.entry_points input.exports)
              (all_consumed reachable input.exports input.imports)).0
            m)

    Reaches-IsUsed : (key : Key) → Reaches targets (λ k. Elem k seeds) key → IsUsed input Live key
    Reaches-IsUsed key (seed m) = Elem-seeds-IsUsed key m
    Reaches-IsUsed key (step {k = k} r d) =
        let (edge, here, h) =
          (Elem-flat_map (passed_on reachable input.exports) (k, key) input.imports).0
            ((Elem-targets k key).0 d) in
        let (live, named, (name, e, f, listed, x, hop)) =
          (Elem-passed_on reachable input.exports edge k key).0 h in
        subst (IsUsed input Live) f (
          passed edge (here, (law edge.source_file).0 live, named, listed, x) hop
            (subst (IsUsed input Live) (sym e) (Reaches-IsUsed k r)))

    consumed-seeds :
        (edge : ImportEdge) (name : Text)
        → Elem edge input.imports
        → Live edge.source_file
        → Exports input.exports edge.target_file name
        → ((edge.is_namespace ≡ true)
            ⊎ ((edge.is_namespace ≡ false)
                × Elem name edge.imported_names
                × (¬ ReExports input.exports edge.source_file name)))
        → Elem (edge.target_file, name) seeds
    consumed-seeds edge name here live x w =
        (Elem-append (edge.target_file, name) (surface input.entry_points input.exports)
            (all_consumed reachable input.exports input.imports)).1
          (inr (
            (Elem-flat_map (consumed reachable input.exports) (edge.target_file, name)
                input.imports).1
              (
                edge,
                here,
                (Elem-consumed reachable input.exports edge edge.target_file name).1
                    ((law edge.source_file).1 live, refl, x, w),
              )))

    IsUsed-Reaches : (key : Key) → IsUsed input Live key → Reaches targets (λ k. Elem k seeds) key
    IsUsed-Reaches key (offered {file = file} {name = name} here x) = seed (
        (Elem-append (file, name) (surface input.entry_points input.exports)
            (all_consumed reachable input.exports input.imports)).1
          (inl ((Elem-surface input.entry_points input.exports file name).1 (here, x))))
    IsUsed-Reaches key (taken_whole edge {name = name} here live all x) =
        seed (consumed-seeds edge name here live x (inl all))
    IsUsed-Reaches key (taken edge {name = name} (here, live, named, listed, x) no_hop) =
        seed (consumed-seeds edge name here live x (inr (named, listed, no_hop)))
    IsUsed-Reaches key (passed edge {name = name} (here, live, named, listed, x) hop u) =
        step (IsUsed-Reaches (edge.source_file, name) u) (
          (Elem-targets (edge.source_file, name) (edge.target_file, name)).1 (
            (Elem-flat_map (passed_on reachable input.exports)
                ((edge.source_file, name), (edge.target_file, name)) input.imports).1
              (
                edge,
                here,
                (Elem-passed_on reachable input.exports edge (edge.source_file, name)
                      (edge.target_file, name)).1
                    ((law edge.source_file).1 live, named, (name, refl, refl, listed, x, hop)),
              )))

-- From the list of the files that are live the usage analysis ends, and the keys it leaves are
-- exactly those that count as used.
pub used_keys-exact :
    (input : DeadCodeInput) (reachable : List Text) (Live : Text → Type 0)
    → ((file : Text) → Elem file reachable ↔ Live file)
    → (s : List Key) × (used_keys input reachable ≡ some s)
      × ((key : Key) → Elem key s ↔ IsUsed input Live key)
unfolding used_keys seed_public_surface propagate_forwards
used_keys-exact input reachable Live live =
    let hops = forwards input reachable in
    let nodes = map (λ f. f.1) hops in
    let start = reach_all stack (seeds input reachable) nothing_seen in
    let (s, done, law) =
      grow-reach_all_total stack (targets input reachable) (λ k. Elem k (seeds input reachable))
        nodes
        (λ key.
          All-of_Elem (λ t. Elem t nodes) (targets input reachable key)
            (λ t m. Elem-map (λ f. f.1) (key, t) hops ((Elem-targets input reachable key t).0 m)))
        (seeds input reachable) (λ a. (λ m. m, λ m. m)) (length start.work + length nodes)
        (omega (arith, unseen-le start.seen nodes)) in
    (
      s,
      rw
          (seed_from_imports-enter reachable input.exports input.imports
            (record { growth = seed_public_surface input nothing_seen; forwards = [] }))
          (subst
            (λ g. grow stack (targets input reachable) (length g.work + length nodes) g ≡ some s)
            (reach_all-append (surface input.entry_points input.exports)
              (all_consumed reachable input.exports input.imports) nothing_seen)
            done),
      λ key. (
        λ m. Reaches-IsUsed input reachable Live live key ((law key).0 m),
        λ u. (law key).1 (IsUsed-Reaches input reachable Live live key u),
      ),
    )

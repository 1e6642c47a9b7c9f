-- ===== src/Rules/DeadCode/Conditions.antt =====
-- crates/ovecc-rules/src/deadcode.rs: which keys the seeds of the usage analysis are, as
-- conditions on the exports and imports.
use ovecc.Prelude.{
  ◌≡◌, ◌↔◌, ◌⊎◌, inl, inr, ⊎_elim, refl, subst, Bool, true, false, not, ◌&&◌, List, map, arith,
  Elem-map-keep_if, Elem, Elem-map, Elem-unmap, contains, contains_iff, lookup, get_or_nil, list_eq,
  nat_eq, pair_eq, Bool-cases,
}
use ovecc.Text.{Text}
use ovecc.Core.Facts.{ExportFact}
use ovecc.Rules.DeadCode.{Key, ImportEdge, surface, index_exports_by_file, re_exports}
use ovecc.Rules.DeadCode.Seeds.{
  Exports, ReExports, own_keys, hops, exported_by, consumed, passed_on, Elem-index_exports,
  exported_by_iff, re_exports_iff,
}

pub Elem-surface :
    (entry_points : List Text) (exports : List (Text × ExportFact)) (file name : Text)
    → Elem (file, name) (surface entry_points exports)
      ↔ (Elem file entry_points × Exports exports file name)
Elem-surface entry_points exports file name =
    let law =
      Elem-map-keep_if (λ e. (e.0, e.1.name)) (λ e. contains e.0 entry_points) (file, name)
        exports in
    (
      λ m.
          let ((f, e), here, p, q) = law.0 m in
          let same : f ≡ file = cc in
          (
            (contains_iff file entry_points).0 (subst (λ x. contains x entry_points ≡ true) same p),
            (e, subst (λ x. Elem (x, e) exports) same here, cc),
          ),
      λ (m, (e, here, q)). law.1 ((file, e), here, (contains_iff file entry_points).1 m, cc),
    )

module _ (reachable : List Text) (exports : List (Text × ExportFact)) where
  abbrev exported : ImportEdge → Text → Bool
  exported edge = exported_by reachable exports edge.target_file

  abbrev again : ImportEdge → Text → Bool
  again edge = re_exports exports edge.source_file

  -- What an import takes for the file itself, and what it passes on.
  Elem-own_keys :
      (edge : ImportEdge) (file name : Text)
      → Elem {A = Key}
          (file, name)
          (own_keys (exported edge) (again edge) edge.target_file edge.imported_names)
        ↔ ((edge.target_file ≡ file)
            × Elem name edge.imported_names
            × Exports exports edge.target_file name
            × (¬ ReExports exports edge.source_file name))
  Elem-own_keys edge file name =
      let law =
        Elem-map-keep_if {B = Key} (λ n. (edge.target_file, n))
          (λ n. exported edge n && not (again edge n)) (file, name) edge.imported_names in
      let there = exported_by_iff reachable exports edge.target_file name in
      let twice = re_exports_iff reachable exports edge.source_file name in
      (
        λ m.
            let (n, here, p, q) = law.0 m in
            let same : n ≡ name = cc in
            let p2 = subst (λ x. (exported edge x && not (again edge x)) ≡ true) same p in
            (
              cc q,
              subst (λ x. Elem x edge.imported_names) same here,
              there.0 (ground (arith, p2)),
              λ r. ground (arith, p2, twice.1 r),
            ),
        λ (e, here, x, no_hop). law.1 (name, here, ground (arith, there.1 x, twice.0, no_hop), cc),
      )

  Elem-hops :
      (edge : ImportEdge) (from to : Key)
      → Elem
          (from, to)
          (hops (exported edge) (again edge) edge.source_file edge.target_file edge.imported_names)
        ↔ ((name : Text) × ((edge.source_file, name) ≡ from)
            × ((edge.target_file, name) ≡ to)
            × Elem name edge.imported_names
            × Exports exports edge.target_file name
            × ReExports exports edge.source_file name)
  Elem-hops edge from to =
      let law =
        Elem-map-keep_if {B = Key × Key} (λ n. ((edge.source_file, n), (edge.target_file, n)))
          (λ n. exported edge n && again edge n) (from, to) edge.imported_names in
      let there = exported_by_iff reachable exports edge.target_file in
      let twice = re_exports_iff reachable exports edge.source_file in
      (
        λ m.
            let (n, here, p, q) = law.0 m in
            (n, cc, cc, here, (there n).0 (ground (arith, p)), (twice n).0 (ground (arith, p))),
        λ (n, e, f, here, x, hop).
            law.1 (n, here, ground (arith, (there n).1 x, (twice n).1 hop), cc),
      )

  Elem-whole :
      (edge : ImportEdge) (file name : Text)
      → Elem {A = Key}
          (file, name)
          (map
            (λ e. (edge.target_file, e.name))
            (get_or_nil (lookup edge.target_file (index_exports_by_file exports))))
        ↔ ((edge.target_file ≡ file) × Exports exports edge.target_file name)
  Elem-whole edge file name =
      let key : ExportFact → Key = λ e. (edge.target_file, e.name) in
      let there = get_or_nil (lookup edge.target_file (index_exports_by_file exports)) in
      (
        λ m.
            let (e, k, q) = Elem-unmap key (file, name) there m in
            (cc q, (e, (Elem-index_exports exports edge.target_file e).0 k, cc q)),
        λ (same, (e, k, q)).
            subst (λ c. Elem c (map key there)) (cc)
              (Elem-map key e there ((Elem-index_exports exports edge.target_file e).1 k)),
      )

  pub Elem-consumed :
      (edge : ImportEdge) (file name : Text)
      → Elem (file, name) (consumed reachable exports edge) ↔ (
          Elem edge.source_file reachable
          × (edge.target_file ≡ file)
          × Exports exports edge.target_file name
          × ((edge.is_namespace ≡ true)
              ⊎ ((edge.is_namespace ≡ false)
                  × Elem name edge.imported_names
                  × (¬ ReExports exports edge.source_file name))))
  Elem-consumed edge file name = elim (Bool-cases (contains edge.source_file reachable)) [
    | inr dead ↦
        rw dead (λ m. absurd m, λ m. cc (dead, (contains_iff edge.source_file reachable).1 m.0))
    | inl live ↦
        let in_it = (contains_iff edge.source_file reachable).0 live in
        elim (Bool-cases edge.is_namespace) [
          | inl all ↦
              rw (live, all)
                (
                  λ m. let (e, x) = (Elem-whole edge file name).0 m in (in_it, e, x, inl refl),
                  λ (_, e, x, _). (Elem-whole edge file name).1 (e, x),
                )
          | inr named ↦
              let law = Elem-own_keys edge file name in
              rw (live, named)
                (
                  λ m.
                      let (e, here, x, no_hop) = law.0 m in (in_it, e, x, inr (refl, here, no_hop)),
                  λ (_, e, x, w).
                      let (_, here, no_hop) = ⊎_elim (λ bad. cc bad) (λ h. h) w in
                      law.1 (e, here, x, no_hop),
                )
        ]
  ]

  pub Elem-passed_on :
      (edge : ImportEdge) (from to : Key)
      → Elem (from, to) (passed_on reachable exports edge) ↔ (
          Elem edge.source_file reachable
          × (edge.is_namespace ≡ false)
          × ((name : Text) × ((edge.source_file, name) ≡ from)
              × ((edge.target_file, name) ≡ to)
              × Elem name edge.imported_names
              × Exports exports edge.target_file name
              × ReExports exports edge.source_file name))
  Elem-passed_on edge from to = elim (Bool-cases (contains edge.source_file reachable)) [
    | inr dead ↦
        rw dead (λ m. absurd m, λ m. cc (dead, (contains_iff edge.source_file reachable).1 m.0))
    | inl live ↦
        let in_it = (contains_iff edge.source_file reachable).0 live in
        elim (Bool-cases edge.is_namespace) [
          | inl all ↦ rw (live, all) (λ m. absurd m, λ m. cc (m.1))
          | inr named ↦
              rw (live, named)
                (
                  λ m. (in_it, refl, (Elem-hops edge from to).0 m),
                  λ (_, _, h). (Elem-hops edge from to).1 h,
                )
        ]
  ]

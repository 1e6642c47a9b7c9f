-- ===== src/Rules/DeadCode/Seeds.antt =====
-- crates/ovecc-rules/src/deadcode.rs: what `seed_public_surface` and `seed_from_imports` put into
-- `used` and `forwards`, as lists and as conditions on the exports and imports.
use ovecc.Prelude.{
  ◌≡◌, ◌↔◌, inl, inr, ⊎_elim, refl, ◌∙◌, subst, Bool, true, not, ◌&&◌, List, [], ◌∷◌, ◌++◌, map,
  append_assoc, append-nil, if◌then◌else◌, arith, keep_if, flat_map, any, any_iff, Elem,
  Elem-push_all, contains, lookup, get_or_nil, list_eq, list_eqb, list_eqb_iff, nat_eq, pair_eq,
  Bool-cases,
}
use ovecc.Text.{Text, is_some}
use ovecc.Core.Facts.{ExportFact}
use ovecc.Worklist.{Growth, stack, reach_all}
use ovecc.Rules.DeadCode.{
  Key, ImportEdge, Seeding, seed_names, seed_edge, seed_from_imports, index_exports_by_file,
  re_exports,
}

pub reach_all-append :
    (xs ys : List Key) (g : Growth Key)
    → reach_all stack (xs ++ ys) g ≡ reach_all stack ys (reach_all stack xs g)
unfolding reach_all
reach_all-append [] ys g = refl
reach_all-append (x ∷ xs) ys g = reach_all-append xs ys _

-- The file has an export of the name; and one that it exports again.
abbrev pub Exports : List (Text × ExportFact) → Text → Text → Type 0
Exports exports file name = (e : ExportFact) × Elem (file, e) exports × (e.name ≡ name)

abbrev pub ReExports : List (Text × ExportFact) → Text → Text → Type 0
ReExports exports file name =
    (e : ExportFact) × Elem (file, e) exports × (is_some e.re_export ≡ true) × (e.name ≡ name)

pub Elem-index_exports :
    (exports : List (Text × ExportFact)) (file : Text) (e : ExportFact)
    → Elem e (get_or_nil (lookup file (index_exports_by_file exports))) ↔ Elem (file, e) exports
unfolding index_exports_by_file
Elem-index_exports exports file e =
    let law = Elem-push_all file e [] exports in
    (λ m. ⊎_elim (λ i. i) (λ i. absurd i) (law.0 m), λ m. law.1 (inl m))

-- The names that an edge consumes, as keys of its target, and those that it passes on.
abbrev pub own_keys : (Text → Bool) → (Text → Bool) → Text → List Text → List Key
own_keys exported forwarded_here target names =
    map (λ n. (target, n)) (keep_if (λ n. exported n && not (forwarded_here n)) names)

abbrev pub hops : (Text → Bool) → (Text → Bool) → Text → Text → List Text → List (Key × Key)
hops exported forwarded_here source target names =
    map (λ n. ((source, n), (target, n))) (keep_if (λ n. exported n && forwarded_here n) names)

module _ (reachable : List Text) (exports : List (Text × ExportFact)) where
  abbrev pub exported_by : Text → Text → Bool
  exported_by file name =
      any (λ e. list_eqb e.name name) (get_or_nil (lookup file (index_exports_by_file exports)))

  -- What an edge puts into `used`, and what into `forwards`.
  abbrev pub consumed : ImportEdge → List Key
  consumed edge =
      if not (contains edge.source_file reachable)
      then []
      else if edge.is_namespace
      then map (λ e. (edge.target_file, e.name))
          (get_or_nil (lookup edge.target_file (index_exports_by_file exports)))
      else own_keys (exported_by edge.target_file) (re_exports exports edge.source_file)
          edge.target_file edge.imported_names

  abbrev pub passed_on : ImportEdge → List (Key × Key)
  passed_on edge =
      if not (contains edge.source_file reachable)
      then []
      else if edge.is_namespace
      then []
      else hops (exported_by edge.target_file) (re_exports exports edge.source_file)
          edge.source_file edge.target_file edge.imported_names

  abbrev pub all_consumed : List ImportEdge → List Key
  all_consumed = flat_map consumed

  abbrev pub all_passed_on : List ImportEdge → List (Key × Key)
  all_passed_on = flat_map passed_on

abbrev pub enter : List Key → List (Key × Key) → Seeding → Seeding
enter keys hops s = record { growth = reach_all stack keys s.growth; forwards = s.forwards ++ hops }

enter-enter :
    (xs ys : List Key) (hs ks : List (Key × Key)) (s : Seeding)
    → enter ys ks (enter xs hs s) ≡ enter (xs ++ ys) (hs ++ ks) s
enter-enter xs ys hs ks s = rw (reach_all-append xs ys s.growth, append_assoc s.forwards hs ks)

seed_names-enter :
    (exported : List ExportFact) (forwarded_here : Text → Bool) (source target : Text)
    (names : List Text) (s : Seeding)
    → seed_names exported forwarded_here source target names s
      ≡ enter
          (own_keys (λ n. any (λ e. list_eqb e.name n) exported) forwarded_here target names)
          (hops (λ n. any (λ e. list_eqb e.name n) exported) forwarded_here source target names)
          s
unfolding seed_names reach_all
seed_names-enter exported forwarded_here source target [] s = rw (append-nil s.forwards)
seed_names-enter exported forwarded_here source target (name ∷ names) s =
    let rest = seed_names-enter exported forwarded_here source target names in
    elim (Bool-cases (any (λ e. list_eqb e.name name) exported)) [
      | inr absent ↦ rw absent (rest s)
      | inl there ↦ elim (Bool-cases (forwarded_here name)) [
        | inr used ↦ rw (there, used) (rest _)
        | inl hop ↦
            rw (there, hop)
              (rest _
                ∙ enter-enter []
                    (own_keys (λ n. any (λ e. list_eqb e.name n) exported) forwarded_here target
                      names)
                    (((source, name), (target, name)) ∷ [])
                    (hops (λ n. any (λ e. list_eqb e.name n) exported) forwarded_here source target
                      names)
                    s)
      ]
    ]

module _ (reachable : List Text) (exports : List (Text × ExportFact)) where
  seed_edge-enter :
      (edge : ImportEdge) (s : Seeding)
      → seed_edge reachable
          (get_or_nil (lookup edge.target_file (index_exports_by_file exports)))
          (re_exports exports edge.source_file)
          edge
          s
        ≡ enter (consumed reachable exports edge) (passed_on reachable exports edge) s
  unfolding seed_edge reach_all
  seed_edge-enter edge s = elim (Bool-cases (contains edge.source_file reachable)) [
    | inr dead ↦ rw (dead, append-nil s.forwards)
    | inl live ↦ elim (Bool-cases edge.is_namespace) [
      | inl all ↦ rw (live, all, append-nil s.forwards)
      | inr named ↦
          rw (live, named)
            (seed_names-enter (get_or_nil (lookup edge.target_file (index_exports_by_file exports)))
              (re_exports exports edge.source_file) edge.source_file edge.target_file
              edge.imported_names s)
    ]
  ]

  pub seed_from_imports-enter :
      (edges : List ImportEdge) (s : Seeding)
      → seed_from_imports reachable exports edges s
        ≡ enter (all_consumed reachable exports edges) (all_passed_on reachable exports edges) s
  unfolding seed_from_imports reach_all
  seed_from_imports-enter [] s = rw (append-nil s.forwards)
  seed_from_imports-enter (edge ∷ edges) s = rw (seed_edge-enter edge s) (
      seed_from_imports-enter edges _
      ∙ enter-enter (consumed reachable exports edge) (all_consumed reachable exports edges)
          (passed_on reachable exports edge) (all_passed_on reachable exports edges) s)

  pub exported_by_iff :
      (file name : Text)
      → (exported_by reachable exports file name ≡ true) ↔ Exports exports file name
  exported_by_iff file name =
      let found =
        any_iff (λ e. list_eqb e.name name)
          (get_or_nil (lookup file (index_exports_by_file exports))) in
      (
        λ h.
            let (e, m, q) = found.0 h in
            (e, (Elem-index_exports exports file e).0 m, (list_eqb_iff e.name name).0 q),
        λ (e, m, q).
            found.1 (e, (Elem-index_exports exports file e).1 m, (list_eqb_iff e.name name).1 q),
      )

  pub re_exports_iff :
      (file name : Text) → (re_exports exports file name ≡ true) ↔ ReExports exports file name
  unfolding re_exports
  re_exports_iff file name =
      let test : Text × ExportFact → Bool =
        λ e. list_eqb e.0 file && is_some e.1.re_export && list_eqb e.1.name name in
      let found = any_iff test exports in
      (
        λ h.
            let ((f, e), m, q) = found.0 h in
            (
              e,
              subst (λ x. Elem (x, e) exports) (ground (arith, list_eqb_iff f file, q)) m,
              ground (arith, q),
              ground (arith, list_eqb_iff e.name name, q),
            ),
        λ (e, m, q, r).
            found.1
              ((file, e), m, ground (arith, list_eqb_iff file file, list_eqb_iff e.name name)),
      )

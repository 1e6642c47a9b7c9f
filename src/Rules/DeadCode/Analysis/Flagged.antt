-- ===== src/Rules/DeadCode/Analysis/Flagged.antt =====
-- crates/ovecc-rules/src/deadcode.rs: which exports and files are flagged, as conditions on the input.
use ovecc.Prelude.{
  ◌≡◌, ◌≢◌, ◌↔◌, inl, inr, ⊎_elim, refl, subst, Bool, true, false, not, ◌||◌, none, List, [], ◌∷◌,
  map, if◌then◌else◌, arith, any, any_iff, keep_if, Elem-keep_if, Elem, Elem-push_all, Elem-unmap,
  push_all, contains, contains_iff, lookup, get_or_nil, list_eqb, list_eqb_iff, list_eq, nat_eq,
  pair_eq, Bool-cases, List-cases,
}
use ovecc.Text.{Text, codes, is_some}
use ovecc.Core.Facts.{ExportFact}
use ovecc.Rules.DeadCode.{Key, ImportEdge, DeadCodeInput, index_exports_by_file}
use ovecc.Rules.DeadCode.Reachable.{IsReachable, entry, imported}
use ovecc.Rules.DeadCode.Seeds.{Elem-index_exports}
use ovecc.Rules.DeadCode.Usage.{IsUsed}
use ovecc.Rules.DeadCode.Flags.{
  is_declaration_file, is_config_file, is_barrel_with_reachable_sources, is_unused_export,
  is_unused_file,
}

off : {b : Bool} → b ≢ true → b ≡ false
off {b} h = ground arith

-- The early `continue`s of a loop.
guards_iff :
    (r p d c b i : Bool)
    → ((if r || p
          then false
          else if d || c
          then false
          else if b
          then false
          else if i
          then false
          else true)
        ≡ true)
      ↔ ((r ≡ false) × (p ≡ false) × (d ≡ false) × (c ≡ false) × (b ≡ false) × (i ≡ false))
guards_iff r p d c b i = ground arith

module _ (input : DeadCodeInput) where
  abbrev pub IsLive : Text → Type 0
  IsLive = IsReachable input.entry_points input.imports

  -- The export of a reachable file that is no entry point, is the file's own and has a name of its
  -- own, and counts as used neither as a value nor as a type of an exported signature.
  abbrev pub IsUnusedExport : Text × ExportFact → Type 0
  IsUnusedExport (file, export) =
      (¬ Elem file input.entry_points)
      × (export.re_export ≡ none)
      × (export.name ≢ codes "default")
      × IsLive file
      × (¬ IsUsed input IsLive (file, export.name))
      × (¬ ((export.is_type_only ≡ true) × Elem (file, export.name) input.signature_types))

  -- A file that only exports what others export, one of which is reachable from it.
  abbrev pub IsBarrel : Text → Type 0
  IsBarrel file =
      ((e : ExportFact) × Elem (file, e) input.exports)
      × ((e : ExportFact) → Elem (file, e) input.exports → is_some e.re_export ≡ true)
      × ((edge : ImportEdge) × Elem edge input.imports
          × (edge.source_file ≡ file)
          × IsLive edge.target_file)

  abbrev pub IsUnusedFile : Text → Type 0
  IsUnusedFile file =
      (¬ IsLive file)
      × (is_declaration_file file ≡ false)
      × (is_config_file file ≡ false)
      × (¬ IsBarrel file)

  module _ (reachable : List Text) (used : List Key)
      (live : (file : Text) → Elem file reachable ↔ IsLive file)
      (law : (key : Key) → Elem key used ↔ IsUsed input IsLive key) where
    pub is_unused_export_iff :
        (at : Text × ExportFact)
        → (is_unused_export input reachable used at ≡ true) ↔ IsUnusedExport at
    unfolding is_unused_export
    is_unused_export_iff (file, export) = ground (
      arith,
      contains_iff file input.entry_points,
      contains_iff file reachable,
      live file,
      list_eqb_iff export.name (codes "default"),
      contains_iff (file, export.name) used,
      law (file, export.name),
      contains_iff (file, export.name) input.signature_types,
    )

    leads_iff :
        (file : Text)
        → (any
              (λ edge. contains edge.target_file reachable)
              (keep_if (λ edge. list_eqb edge.source_file file) input.imports)
            ≡ true)
          ↔ ((edge : ImportEdge) × Elem edge input.imports
              × (edge.source_file ≡ file)
              × IsLive edge.target_file)
    leads_iff file =
        let from : ImportEdge → Bool = λ edge. list_eqb edge.source_file file in
        let found =
          any_iff (λ edge. contains edge.target_file reachable) (keep_if from input.imports) in
        (
          λ h.
              let (edge, m, r) = found.0 h in
              let (here, q) = (Elem-keep_if from edge input.imports).0 m in
              (
                edge,
                here,
                (list_eqb_iff edge.source_file file).0 q,
                (live edge.target_file).0 ((contains_iff edge.target_file reachable).0 r),
              ),
          λ (edge, here, q, r). found.1 (
            edge,
            (Elem-keep_if from edge input.imports).1
                (here, (list_eqb_iff edge.source_file file).1 q),
            (contains_iff edge.target_file reachable).1 ((live edge.target_file).1 r),
          ),
        )

    -- Where the exports of the file are known, one of its own or what it leads to decides.
    IsBarrel-tests :
        (file : Text) (first : ExportFact) (rest : List ExportFact)
        → ((e : ExportFact) → Elem e (first ∷ rest) ↔ Elem (file, e) input.exports)
        → ((if any (λ e. not (is_some e.re_export)) (first ∷ rest)
              then false
              else any
                  (λ edge. contains edge.target_file reachable)
                  (keep_if (λ edge. list_eqb edge.source_file file) input.imports))
            ≡ true)
          ↔ IsBarrel file
    IsBarrel-tests file first rest listed =
        let own : ExportFact → Bool = λ e. not (is_some e.re_export) in
        elim (Bool-cases (any own (first ∷ rest))) [
          | inl mixed ↦
              let (e, m, q) = (any_iff own (first ∷ rest)).0 mixed in
              rw mixed (λ h. cc, λ h. cc (h.1 e ((listed e).0 m), q))
          | inr pure ↦
              let passed : (e : ExportFact)
                  → Elem (file, e) input.exports
                  → is_some e.re_export ≡ true =
                λ e m.
                  let here = (any_iff own (first ∷ rest)).1 in
                  let listed_e = (listed e).1 m in
                  elim (Bool-cases (is_some e.re_export)) [
                    | inl passed ↦ passed
                    | inr missing ↦ cc (pure, here (e, listed_e, ground (arith, missing)))
                  ] in
              rw pure (
                λ h. ((first, (listed first).0 (inl refl)), passed, (leads_iff file).0 h),
                λ h. (leads_iff file).1 h.2,
              )
        ]

    IsBarrel-iff :
        (file : Text)
        → (is_barrel_with_reachable_sources file
              (index_exports_by_file input.exports)
              reachable
              input
            ≡ true)
          ↔ IsBarrel file
    unfolding is_barrel_with_reachable_sources
    IsBarrel-iff file =
        let listed = Elem-index_exports input.exports file in
        elim (List-cases (get_or_nil (lookup file (index_exports_by_file input.exports)))) [
          | inl nothing ↦
              rw (nothing, is_barrel_with_reachable_sources)
                (λ h. cc, λ h. absurd (subst (Elem (h.0.0)) nothing ((listed h.0.0).1 h.0.1)))
          | inr (first, rest, q) ↦
              rw (q, is_barrel_with_reachable_sources)
                (IsBarrel-tests file first rest
                  (λ e. subst (λ l. Elem e l ↔ Elem (file, e) input.exports) q (listed e)))
        ]

    imported-IsLive :
        (file : Text)
        → any
            (λ importer. contains importer reachable)
            (get_or_nil
              (lookup file (push_all [] (map (λ e. (e.target_file, e.source_file)) input.imports))))
          ≡ true
        → IsLive file
    imported-IsLive file h =
        let ends : ImportEdge → Text × Text = λ e. (e.target_file, e.source_file) in
        let importers = get_or_nil (lookup file (push_all [] (map ends input.imports))) in
        let (source, m, r) = (any_iff (λ i. contains i reachable) importers).0 h in
        let (edge, here, q) =
          Elem-unmap ends (file, source) input.imports
            (⊎_elim (λ i. i) (λ i. absurd i)
              ((Elem-push_all file source [] (map ends input.imports)).0 m)) in
        imported ((live source).0 ((contains_iff source reachable).0 r)) (edge, here, cc q, cc q)

    pub is_unused_file_iff :
        (file : Text) → (is_unused_file input reachable file ≡ true) ↔ IsUnusedFile file
    unfolding is_unused_file
    is_unused_file_iff file =
        let importers_of = push_all [] (map (λ e. (e.target_file, e.source_file)) input.imports) in
        let law =
          guards_iff (contains file reachable) (contains file input.entry_points)
            (is_declaration_file file) (is_config_file file)
            (is_barrel_with_reachable_sources file (index_exports_by_file input.exports) reachable
              input)
            (any (λ i. contains i reachable) (get_or_nil (lookup file importers_of))) in
        (
          λ h.
              let (out, _, d, c, b, _) = law.0 h in
              (
                λ r. cc (out, (contains_iff file reachable).1 ((live file).1 r)),
                d,
                c,
                λ r. cc (b, (IsBarrel-iff file).1 r),
              ),
          λ (dead, d, c, b). law.1 (
            off (λ h. dead ((live file).0 ((contains_iff file reachable).0 h))),
            off (λ h. dead (entry ((contains_iff file input.entry_points).0 h))),
            d,
            c,
            off (λ h. b ((IsBarrel-iff file).0 h)),
            off (λ h. dead (imported-IsLive file h)),
          ),
        )

-- ===== src/Graph/Resolution/Exact.antt =====
-- crates/ovecc-graph/src/resolution.rs: which imports `calibrate` finds, and what an answer tells.
use Prim.Native.Nat.{Ordering}
use ovecc.Prelude.{
  ◌&&◌, map, keep_if, Elem-map-keep_if, append_assoc, append-nil, ◌∙◌, subst, sym, ◌≡◌, ◌≢◌, ◌↔◌,
  ◌⊎◌, inl, inr, refl, Bool, true, some, List, [], ◌∷◌, ◌++◌, not, arith, contains, contains_iff,
  list_eqb, list_eqb_iff, list_eq, nat_eq, Elem, Elem-sort_by, by_key-IsPreorder, Ordered,
  sort_by-Ordered, nat_ord, list_ord, pair_ord, List-cases, Bool-cases, sort_by,
}
use ovecc.Text.{Text}
use ovecc.Core.Architecture.{slashed}
use ovecc.Core.Legacy.{DependencyRecord, is_unresolved}
use ovecc.Graph.Resolution.{
  Blindspot, Calibration, of, none_, could_not_resolve, specifier_stem, target_names, spot_of,
  by_line, by_site, site, gather, calibrate,
}

-- An unresolved import of the file; and one of another file, whose stem is a name of the target.
abbrev pub Outgoing : Text → DependencyRecord → Type 0
Outgoing target d = (is_unresolved d ≡ true) × ((spot_of d).file ≡ target)

abbrev pub Incoming : Text → DependencyRecord → Type 0
Incoming target d =
    (is_unresolved d ≡ true)
    × ((spot_of d).file ≢ target)
    × Elem (specifier_stem d.specifier) (target_names target)

abbrev pub Spots : (DependencyRecord → Type 0) → List DependencyRecord → Blindspot → Type 0
Spots P ds s = (d : DependencyRecord) × Elem d ds × P d × (spot_of d ≡ s)

abbrev bears_out : Text → DependencyRecord → Bool
bears_out target d = is_unresolved d && list_eqb (spot_of d).file target

abbrev bears_in : Text → DependencyRecord → Bool
bears_in target d =
    is_unresolved d
    && not (list_eqb (spot_of d).file target)
    && contains (specifier_stem d.specifier) (target_names target)

gather-keep_if :
    (target : Text) (ds : List DependencyRecord) (c : Calibration)
    → gather target (target_names target) ds c ≡ record {
      outgoing = c.outgoing ++ map spot_of (keep_if (bears_out target) ds);
      incoming = c.incoming ++ map spot_of (keep_if (bears_in target) ds);
    }
unfolding gather
gather-keep_if target [] c = rw (append-nil c.outgoing, append-nil c.incoming)
gather-keep_if target (d ∷ ds) c = elim (Bool-cases (is_unresolved d)) [
  | inr known ↦ rw known (gather-keep_if target ds c)
  | inl lost ↦ elim (Bool-cases (list_eqb (spot_of d).file target)) [
    | inl own ↦
        rw (lost, own)
          (gather-keep_if target ds (record c { outgoing = c.outgoing ++ spot_of d ∷ [] })
            ∙ rw (
                append_assoc c.outgoing (spot_of d ∷ [])
                  (map spot_of (keep_if (bears_out target) ds))))
    | inr other ↦ elim (Bool-cases (contains (specifier_stem d.specifier) (target_names target))) [
      | inl named ↦
          rw (lost, other, named)
            (gather-keep_if target ds (record c { incoming = c.incoming ++ spot_of d ∷ [] })
              ∙ rw (
                  append_assoc c.incoming (spot_of d ∷ [])
                    (map spot_of (keep_if (bears_in target) ds))))
      | inr unnamed ↦ rw (lost, other, unnamed) (gather-keep_if target ds c)
    ]
  ]
]

Spots-keep_if :
    (P : DependencyRecord → Type 0) (p : DependencyRecord → Bool)
    → ((d : DependencyRecord) → (p d ≡ true) ↔ P d)
    → (cmp : Blindspot → Blindspot → Ordering) → (ds : List DependencyRecord) (s : Blindspot)
    → Elem s (sort_by cmp (map spot_of (keep_if p ds))) ↔ Spots P ds s
Spots-keep_if P p law cmp ds s =
    let sorted = Elem-sort_by cmp s (map spot_of (keep_if p ds)) in
    let kept = Elem-map-keep_if spot_of p s ds in
    (
      λ m. let (d, here, q, e) = kept.0 (sorted.0 m) in (d, here, (law d).0 q, e),
      λ (d, here, q, e). sorted.1 (kept.1 (d, here, (law d).1 q, e)),
    )

-- Of a target with a file, the blind spots are exactly the unresolved imports of that file, in the
-- order of their lines, and the unresolved imports of other files whose stem is a name of the
-- target, in the order of their files and lines.
pub calibrate-Spots :
    (ds : List DependencyRecord) (path : Text)
    → ((s : Blindspot)
        → Elem s (calibrate ds (some path)).outgoing ↔ Spots (Outgoing (slashed path)) ds s)
      × Ordered by_line (calibrate ds (some path)).outgoing
      × ((s : Blindspot)
          → Elem s (calibrate ds (some path)).incoming ↔ Spots (Incoming (slashed path)) ds s)
      × Ordered by_site (calibrate ds (some path)).incoming
unfolding calibrate
calibrate-Spots ds path =
    let target = slashed path in
    rw (gather-keep_if target ds (record { outgoing = []; incoming = [] })) (
      Spots-keep_if (Outgoing target) (bears_out target)
          (λ d. ground (arith, list_eqb_iff (spot_of d).file target)) by_line ds,
      sort_by-Ordered by_line (by_key-IsPreorder (λ s. s.line))
          (map spot_of (keep_if (bears_out target) ds)),
      Spots-keep_if (Incoming target) (bears_in target)
          (λ d. ground (
            arith,
            list_eqb_iff (spot_of d).file target,
            contains_iff (specifier_stem d.specifier) (target_names target),
          ))
          by_site ds,
      sort_by-Ordered by_site (by_key-IsPreorder site) (map spot_of (keep_if (bears_in target) ds)),
    )

-- Where nothing was found to depend on a target with a file, the answer is `none` exactly if no
-- unresolved import of another file could have meant it; else it is `could_not_resolve`.
pub of-calibrate :
    (ds : List DependencyRecord) (path : Text)
    → ((of 0 (calibrate ds (some path)).incoming ≡ none_)
        ↔ ((d : DependencyRecord) → Elem d ds → ¬ Incoming (slashed path) d))
      × ((of 0 (calibrate ds (some path)).incoming ≡ none_)
          ⊎ (of 0 (calibrate ds (some path)).incoming ≡ could_not_resolve))
unfolding of
of-calibrate ds path =
    let (_, _, law, _) = calibrate-Spots ds path in
    elim (List-cases (calibrate ds (some path)).incoming) [
      | inl nothing ↦
          rw (nothing, of)
            (
              (
                λ _ d m i. subst (Elem (spot_of d)) nothing ((law (spot_of d)).1 (d, m, i, refl)),
                λ _. refl,
              ),
              inl refl,
            )
      | inr (s, rest, q) ↦
          let (d, m, i, _) = (law s).0 (subst (Elem s) (sym q) (inl refl)) in
          rw (q, of) ((λ h. cc, λ h. absurd (h d m i)), inr refl)
    ]

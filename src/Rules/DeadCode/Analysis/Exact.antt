-- ===== src/Rules/DeadCode/Analysis/Exact.antt =====
-- crates/ovecc-rules/src/deadcode.rs: what `analyze` reports.
use ovecc.Prelude.{
  ℕ, ◌≡◌, ◌≢◌, ◌⊎◌, ◌↔◌, inl, inr, ⊎_elim, refl, sym, ◌∙◌, subst, some, List, [], ◌∷◌, ◌++◌, map,
  Elem, Elem-append, Elem-map-keep_if, Elem-sort_dedup, kept-sort_dedup, Increasing,
  Increasing-sort_dedup, list_eq, list_ord, nat_eq, nat_ord, List-cases,
}
use ovecc.Text.{Text}
use ovecc.Core.Facts.{ExportFact}
use ovecc.Core.Findings.{FindingRecord}
use ovecc.Rules.DeadCode.{Key, DeadCodeInput, bfs_reachable, used_keys}
use ovecc.Rules.DeadCode.Reachable.{bfs_reachable-exact}
use ovecc.Rules.DeadCode.Usage.{IsUsed, used_keys-exact}
use ovecc.Rules.DeadCode.Flags.{
  is_unused_export, export_finding, flag_unused_exports, is_unused_file, file_finding,
  flag_unused_files,
}
use ovecc.Rules.DeadCode.Analysis.{findings, collect, analyze}
use ovecc.Rules.DeadCode.Analysis.Flagged.{
  IsLive, IsUnusedExport, IsUnusedFile, is_unused_export_iff, is_unused_file_iff,
}

module _ (sha256 : Text → List ℕ) (input : DeadCodeInput) (reachable : List Text) where
  -- A finding is that of an unused export of the input, or of an unused file.
  abbrev pub IsJustified : FindingRecord → Type 0
  IsJustified f =
      ((at : Text × ExportFact) × Elem at input.exports
        × IsUnusedExport input at
        × (export_finding sha256 input at ≡ f))
      ⊎ ((file : Text) × Elem file input.files
          × IsUnusedFile input file
          × (file_finding sha256 input reachable file ≡ f))

  -- Each id once and in order, of what is unused and of all that is unused.
  pub record IsReport (fs : List FindingRecord) : Type 0 where
    pub sorted : Increasing (map (λ f. f.id) fs)
    pub justified : (f : FindingRecord) → Elem f fs → IsJustified f
    pub complete :
        (f : FindingRecord) → IsJustified f → (g : FindingRecord) × Elem g fs × (g.id ≡ f.id)

  findings-IsReport :
      (used : List Key)
      → ((file : Text) → Elem file reachable ↔ IsLive input file)
      → ((key : Key) → Elem key used ↔ IsUsed input (IsLive input) key)
      → IsReport (findings sha256 input reachable used)
  unfolding findings flag_unused_exports flag_unused_files
  findings-IsReport used live law =
      let exports = flag_unused_exports sha256 input reachable used in
      let files = flag_unused_files sha256 input reachable in
      let of_export = is_unused_export_iff input reachable used live law in
      let of_file = is_unused_file_iff input reachable used live law in
      let all_iff : (f : FindingRecord) → Elem f (exports ++ files) ↔ IsJustified f = λ f.
        let e =
          Elem-map-keep_if (export_finding sha256 input) (is_unused_export input reachable used) f
            input.exports in
        let g =
          Elem-map-keep_if (file_finding sha256 input reachable) (is_unused_file input reachable) f
            input.files in
        (
          λ m.
              ⊎_elim (λ k. let (at, here, p, q) = e.0 k in inl (at, here, (of_export at).0 p, q))
                (λ k. let (file, here, p, q) = g.0 k in inr (file, here, (of_file file).0 p, q))
                ((Elem-append f exports files).0 m),
          λ m. (Elem-append f exports files).1 (
              ⊎_elim (λ (at, here, p, q). inl (e.1 (at, here, (of_export at).1 p, q)))
                (λ (file, here, p, q). inr (g.1 (file, here, (of_file file).1 p, q))) m),
        ) in
      record {
        sorted = Increasing-sort_dedup (λ f. f.id) (exports ++ files);
        justified = λ f m. (all_iff f).0 (Elem-sort_dedup (λ f. f.id) f (exports ++ files) m);
        complete = λ f m. kept-sort_dedup (λ f. f.id) f (exports ++ files) ((all_iff f).1 m);
      }

pub analyze-collect :
    (sha256 : Text → List ℕ) (input : DeadCodeInput)
    → input.entry_points ≢ []
    → analyze sha256 input ≡ collect sha256 input
unfolding analyze
analyze-collect sha256 input some_entry = elim (List-cases input.entry_points) [
  | inl nothing ↦ absurd (some_entry nothing)
  | inr (first, rest, q) ↦
      subst (λ l. (elim l [ [] ↦ some [] | _ ∷ _ ↦ collect sha256 input ]) ≡ collect sha256 input)
        (sym q) refl
]

pub analyze-nil :
    (sha256 : Text → List ℕ) (input : DeadCodeInput)
    → input.entry_points ≡ []
    → analyze sha256 input ≡ some []
unfolding analyze
analyze-nil sha256 input nothing =
    subst (λ l. (elim l [ [] ↦ some [] | _ ∷ _ ↦ collect sha256 input ]) ≡ some []) (sym nothing)
      refl

collect-some :
    (sha256 : Text → List ℕ) (input : DeadCodeInput) (reachable : List Text) (used : List Key)
    → bfs_reachable input.entry_points input.imports ≡ some reachable
    → used_keys input reachable ≡ some used
    → collect sha256 input ≡ some (findings sha256 input reachable used)
unfolding collect
collect-some sha256 input reachable used found done = rw (found, done, collect)

-- With an entry point the analysis always has a result: findings in increasing order of their ids,
-- none twice; each is that of an export or a file of the input that is unused, and to each unused
-- export and file there is one with the id of its finding. An export is unused where its file is
-- live, no entry point and not the mere passer-on of the export, its name is not `default`, it is
-- not used and is no type that an exported signature names. A file is unused where it is not live,
-- no declaration, no configuration and no barrel in front of a live file.
pub analyze-exact :
    (sha256 : Text → List ℕ) (input : DeadCodeInput)
    → input.entry_points ≢ []
    → (reachable : List Text) × (fs : List FindingRecord) × ((file : Text)
        → Elem file reachable ↔ IsLive input file)
      × (analyze sha256 input ≡ some fs)
      × IsReport sha256 input reachable fs
analyze-exact sha256 input some_entry =
    let (reachable, found, live) = bfs_reachable-exact input.entry_points input.imports in
    let (used, done, law) = used_keys-exact input reachable (IsLive input) live in
    (
      reachable,
      findings sha256 input reachable used,
      live,
      analyze-collect sha256 input some_entry ∙ collect-some sha256 input reachable used found done,
      findings-IsReport sha256 input reachable used live law,
    )

-- ===== src/Graph/Resolution/Tests.antt =====
-- Broken imports around a guard: its own, one that may have meant it, and one that did not.
use ovecc.Prelude.{ℕ, ◌≡◌, ◌↔◌, ◌⊎◌, refl, false, none, some, List, [], ◌∷◌, Elem, Ordered, map}
use ovecc.Text.{Text, codes}
use ovecc.Core.Architecture.{slashed}
use ovecc.Core.Legacy.{DependencyRecord}
use ovecc.Graph.Resolution.{
  Blindspot, of, none_, could_not_resolve, specifier_stem, target_names, by_line, by_site,
  calibrate,
}
use ovecc.Graph.Resolution.Exact.{Outgoing, Incoming, Spots, calibrate-Spots, of-calibrate}

stems :
    (specifier_stem (codes "../auth/guard.ts?raw") ≡ codes "guard")
    × (specifier_stem (codes ".") ≡ codes ".")
    × (target_names (codes "src/auth/index.ts") ≡ codes "index" ∷ codes "auth" ∷ [])
unfolding specifier_stem target_names
stems = (refl, refl, refl)

abbrev broken : Text → ℕ → Text → DependencyRecord
broken file line specifier = record {
  id = [];
  repository_id = [];
  source_file_id = [];
  target_file_id = none;
  source_file_path = file;
  target_file_path = none;
  source_module_id = [];
  target_module_id = [];
  source_module = [];
  target_module = codes "unresolved:x";
  specifier = specifier;
  dependency_kind = codes "import";
  is_external = false;
  evidence_line = line;
}

abbrev guard : Text
guard = codes "src/auth/guard.ts"

abbrev imports : List DependencyRecord
imports =
    broken guard 9 (codes "./gone")
    ∷ broken (codes "src/api.ts") 4 (codes "./auth/guard")
    ∷ broken guard 2 (codes "./lost")
    ∷ broken (codes "src/api.ts") 5 (codes "./other")
    ∷ []

calibrate_run :
    (map (λ s. s.line) (calibrate imports (some guard)).outgoing ≡ 2 ∷ 9 ∷ [])
    × (map (λ s. s.line) (calibrate imports (some guard)).incoming ≡ 4 ∷ [])
unfolding calibrate
calibrate_run = (refl, refl)

calibrate-Spots_example :
    ((s : Blindspot)
      → Elem s (calibrate imports (some guard)).outgoing
        ↔ Spots (Outgoing (slashed guard)) imports s)
    × Ordered by_line (calibrate imports (some guard)).outgoing
    × ((s : Blindspot)
        → Elem s (calibrate imports (some guard)).incoming
          ↔ Spots (Incoming (slashed guard)) imports s)
    × Ordered by_site (calibrate imports (some guard)).incoming
calibrate-Spots_example = calibrate-Spots imports guard

of-calibrate_example :
    ((of 0 (calibrate imports (some guard)).incoming ≡ none_)
      ↔ ((d : DependencyRecord) → Elem d imports → ¬ Incoming (slashed guard) d))
    × ((of 0 (calibrate imports (some guard)).incoming ≡ none_)
        ⊎ (of 0 (calibrate imports (some guard)).incoming ≡ could_not_resolve))
of-calibrate_example = of-calibrate imports guard

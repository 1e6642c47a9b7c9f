-- ===== src/Rules/DeadCode/Flags.antt =====
-- crates/ovecc-rules/src/deadcode.rs: what is flagged, and the findings.
use ovecc.Prelude.{
  ℕ, Bool, true, false, not, ◌&&◌, ◌||◌, Option, none, some, List, [], ◌∷◌, ◌++◌, map,
  if◌then◌else◌, contains, lookup, push_all, get_or_nil, any, keep_if, list_eqb, list_eq, nat_eq,
  pair_eq, value_or, nat_eqb,
}
use ovecc.Text.{Text, codes, is_some, ends_with, last_piece, decimal}
use ovecc.Core.Facts.{ExportFact, Severity}
use ovecc.Core.Ids.{stable_id}
use ovecc.Core.Findings.{FindingKind, NodeKind, FindingRecord}
use ovecc.Rules.DeadCode.{Key, DeadCodeInput, index_exports_by_file}
use ovecc.Rules.DeadCode.Literals.{LiteralReference, index_literals_by_name, literal_reference}

unfoldable pub is_declaration_file : Text → Bool
is_declaration_file path = ends_with (codes ".d.ts") path

unfoldable pub is_config_file : Text → Bool
is_config_file path =
    let name = last_piece (λ c. nat_eqb c b'/') path in
    ends_with (codes ".config.ts") name
    || ends_with (codes ".config.js") name
    || ends_with (codes ".config.mjs") name
    || contains name (
        codes "vite.config.ts"
        ∷ codes "next.config.js"
        ∷ codes "jest.config.js"
        ∷ codes "rollup.config.js"
        ∷ [])

unfoldable pub is_barrel_with_reachable_sources :
    Text → List (Text × List ExportFact) → List Text → DeadCodeInput → Bool
is_barrel_with_reachable_sources file exports_by_file reachable input =
    elim (get_or_nil (lookup file exports_by_file)) [
      | [] ↦ false
      | export ∷ exports ↦
          if any (λ e. not (is_some e.re_export)) (export ∷ exports)
          then false
          else any (λ edge. contains edge.target_file reachable)
              (keep_if (λ edge. list_eqb edge.source_file file) input.imports)
    ]

abbrev pub kind_slug : FindingKind → Text
kind_slug FindingKind.unused_export = codes "unused-export"
kind_slug _ = codes "unused-file"

unfoldable pub finding :
    (Text → List ℕ)
    → DeadCodeInput
    → FindingKind
    → Severity
    → Text
    → ℕ
    → Text
    → Text
    → Option Text
    → Text
    → Option Text
    → FindingRecord
unfolding stable_id
finding sha256 input kind severity file line title description symbol rule detail = record {
  id = stable_id sha256 (codes "finding") (
      input.repository_id
      ∷ codes "deadcode"
      ∷ kind_slug kind
      ∷ file
      ∷ value_or [] symbol
      ∷ decimal line
      ∷ []);
  repository_id = input.repository_id;
  snapshot_id = input.snapshot_id;
  kind = kind;
  severity = severity;
  rule_name = some rule;
  target = some (record { kind = NodeKind.file; id = file });
  title = title;
  description = description;
  evidence = record { file_path = file; line = some line; symbol = symbol; detail = detail } ∷ [];
}

-- The export passes the guards of the loop.
unfoldable pub is_unused_export : DeadCodeInput → List Text → List Key → Text × ExportFact → Bool
is_unused_export input reachable used (file, export) =
    if contains file input.entry_points
      || is_some export.re_export
      || list_eqb export.name (codes "default")
      || not (contains file reachable)
    then false
    else if contains (file, export.name) used
    then false
    else if export.is_type_only && contains (file, export.name) input.signature_types
    then false
    else true

unfoldable pub export_finding : (Text → List ℕ) → DeadCodeInput → Text × ExportFact → FindingRecord
unfolding finding
export_finding sha256 input (file, export) =
    if export.is_type_only
    then finding sha256 input FindingKind.unused_export Severity.low file export.line
        (codes "Unused type export: " ++ export.name ++ codes " in " ++ file)
        (codes "type '"
          ++ export.name
          ++ codes "' is exported from "
          ++ file
          ++ codes " but never imported by a reachable module."
          ++ codes " Safe to remove — types have no runtime effect.")
        (some export.name) (codes "unused-type") (some (codes "type-only"))
    else finding sha256 input FindingKind.unused_export Severity.low file export.line
        (codes "Unused export: " ++ export.name ++ codes " in " ++ file)
        (codes "'"
          ++ export.name
          ++ codes "' is exported from "
          ++ file
          ++ codes " but never imported by a reachable module."
          ++ codes " Candidate for removal (verify it is not a public API surface).")
        (some export.name) (codes "unused-export") none

unfoldable pub flag_unused_exports :
    (Text → List ℕ) → DeadCodeInput → List Text → List Key → List FindingRecord
unfolding is_unused_export export_finding
flag_unused_exports sha256 input reachable used =
    map (export_finding sha256 input)
      (keep_if (is_unused_export input reachable used) input.exports)

-- The file passes the guards of the loop.
unfoldable pub is_unused_file : DeadCodeInput → List Text → Text → Bool
unfolding is_declaration_file is_config_file is_barrel_with_reachable_sources
is_unused_file input reachable path =
    let importers_of = push_all [] (map (λ e. (e.target_file, e.source_file)) input.imports) in
    if contains path reachable || contains path input.entry_points
    then false
    else if is_declaration_file path || is_config_file path
    then false
    else if is_barrel_with_reachable_sources path (index_exports_by_file input.exports) reachable
        input
    then false
    else if any (λ importer. contains importer reachable) (get_or_nil (lookup path importers_of))
    then false
    else true

abbrev pub by_reference :
    (Text → List ℕ) → DeadCodeInput → Text → Option LiteralReference → FindingRecord
by_reference sha256 input file (some reference) =
    finding sha256 input FindingKind.unused_file Severity.low file 1
      (codes "Possibly unused file: " ++ file)
      (codes "No import reaches "
        ++ file
        ++ codes ", but "
        ++ reference.file
        ++ codes " names \""
        ++ reference.literal.value
        ++ codes "\" at line "
        ++ decimal reference.literal.line
        ++ codes
            ". A task runner, a config, or a path passed as a string leaves no import edge, so "
        ++ codes "this file may well be live — confirm before removing it. "
        ++ codes "`fix --delete-files` will not touch it.")
      none (codes "possibly-unused-file") (some (codes "referenced-by-literal"))
by_reference sha256 input file none =
    finding sha256 input FindingKind.unused_file Severity.low file 1 (codes "Unused file: " ++ file)
      (codes "Nothing in the index references "
        ++ file
        ++ codes
            ": no import reaches it and no string literal names it. Verify nothing outside the "
        ++ codes "index runs it (a CI step, a container command) before removing it.")
      none (codes "unused-file") none

unfoldable pub file_finding : (Text → List ℕ) → DeadCodeInput → List Text → Text → FindingRecord
unfolding finding literal_reference index_literals_by_name
file_finding sha256 input reachable file =
    by_reference sha256 input file
      (literal_reference (index_literals_by_name input.path_literals) reachable file)

unfoldable pub flag_unused_files : (Text → List ℕ) → DeadCodeInput → List Text → List FindingRecord
unfolding is_unused_file file_finding
flag_unused_files sha256 input reachable =
    map (file_finding sha256 input reachable) (keep_if (is_unused_file input reachable) input.files)

-- ===== src/Core/Coverage/Lcov.antt =====
-- crates/ovecc-core/src/coverage.rs: `parse_lcov`, and from util.rs `normalize_path`. Whether a path
-- has a root is the platform's, and an argument.
use ovecc.Prelude.{
  Bool, Option, none, some, List, [], ◌∷◌, ◌++◌, map, if◌then◌else◌, list_eqb, nat_eq, nat_eqb,
  nat_ord, list_ord, map_entry,
}
use ovecc.Text.{
  Text, codes, strip_prefix, split, split_at, trim, trim_start, trim_start_matches, replace_byte,
  empty,
}
use ovecc.Core.Coverage.Records.{Section, empty_section, merge, total_of, read_record}
use ovecc.Core.Coverage.{FileCoverage}

abbrev drop_dots : Text → Text
drop_dots = trim_start_matches (codes "./")

abbrev drop_slashes : Text → Text
drop_slashes = trim_start (λ c. nat_eqb c b'/')

unfoldable pub normalize_path : Text → Text
normalize_path raw = replace_byte b'\\' b'/' (elim (strip_prefix (codes "\\\\?\\UNC\\") raw) [
  | some rest ↦ codes "\\\\" ++ rest
  | none ↦ elim (strip_prefix (codes "\\\\?\\") raw) [ none ↦ raw | some rest ↦ rest ]
])

abbrev named : Text → Option Text
named relative = if empty relative then none else some relative

unfoldable pub relative_to_root : (Text → Bool) → Text → Text → Option Text
unfolding normalize_path
relative_to_root has_root root raw =
    let normalized = normalize_path (trim raw) in
    elim (strip_prefix (normalize_path root) normalized) [
      | some rest ↦ named (drop_dots (drop_slashes rest))
      | none ↦ if has_root normalized then none else named (drop_dots normalized)
    ]

-- The sections by their paths, and the open one.
pub record Trace : Type 0 where
  pub files : List (Text × Section)
  pub current : Option (Text × Section)

-- `current.take()`, merged into its file.
abbrev pub close_section : List (Text × Section) → Option (Text × Section) → List (Text × Section)
close_section files none = files
close_section files (some (path, section)) =
    map_entry path empty_section (λ entry. merge entry section) files

abbrev pub open_at : Option Text → Option (Text × Section)
open_at none = none
open_at (some path) = some (path, empty_section)

abbrev pub extend : Text → Text → Option (Text × Section) → Option (Text × Section)
extend tag value none = none
extend tag value (some (path, section)) = some (path, read_record tag value section)

abbrev drop_last_empty : List Text → List Text
drop_last_empty [] = []
drop_last_empty (t ∷ []) = if empty t then [] else t ∷ []
drop_last_empty (t ∷ u ∷ ts) = t ∷ drop_last_empty (u ∷ ts)

-- `str::lines`, each trimmed, which takes the carriage returns too.
abbrev pub trimmed_lines : Text → List Text
trimmed_lines content = map trim (drop_last_empty (split (λ c. nat_eqb c b'\n') content))

module _ (has_root : Text → Bool) (root : Text) where
  -- A line that is not `end_of_record`, by its tag and its value.
  unfoldable pub read_tagged : Option (Text × Text) → Trace → Trace
  unfolding read_record relative_to_root merge
  read_tagged none trace = trace
  read_tagged (some (tag, value)) trace =
      if list_eqb tag (codes "SF")
      then record {
        files = close_section trace.files trace.current;
        current = open_at (relative_to_root has_root root value);
      }
      else record { files = trace.files; current = extend tag value trace.current }

  unfoldable pub read_line : Text → Trace → Trace
  unfolding read_tagged merge
  read_line line trace =
      if list_eqb line (codes "end_of_record")
      then record { files = close_section trace.files trace.current; current = none }
      else read_tagged (split_at (λ c. nat_eqb c b':') line) trace

  unfoldable pub read_lines : List Text → Trace → Trace
  unfolding read_line
  read_lines [] trace = trace
  read_lines (line ∷ lines) trace = read_lines lines (read_line line trace)

  -- The sections of all files, after the loop.
  unfoldable pub sections_of : Text → List (Text × Section)
  unfolding read_lines merge
  sections_of content =
      let trace = read_lines (trimmed_lines content) (record { files = []; current = none }) in
      close_section trace.files trace.current

  abbrev pub file_coverage : Text × Section → FileCoverage
  file_coverage (path, section) =
      let lines = total_of section.declared_lines section.lines in
      let functions = total_of section.declared_functions section.functions in
      record {
        path = path;
        lines_found = lines.0;
        lines_hit = lines.1;
        functions_found = functions.0;
        functions_hit = functions.1;
      }

  unfoldable pub parse_lcov : Text → List FileCoverage
  unfolding sections_of
  parse_lcov content = map file_coverage (sections_of content)

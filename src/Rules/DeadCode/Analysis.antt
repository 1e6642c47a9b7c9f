-- ===== src/Rules/DeadCode/Analysis.antt =====
-- crates/ovecc-rules/src/deadcode.rs: `analyze`. It has no result only where a work list ran out of
-- fuel, which none does.
pub mod Flagged
pub mod Exact
pub mod Safe
use ovecc.Prelude.{
  ℕ, Option, none, some, List, [], ◌∷◌, ◌++◌, list_eq, list_ord, nat_eq, nat_ord, sort_dedup,
}
use ovecc.Text.{Text}
use ovecc.Core.Findings.{FindingRecord}
use ovecc.Rules.DeadCode.{Key, DeadCodeInput, bfs_reachable, used_keys}
use ovecc.Rules.DeadCode.Flags.{flag_unused_exports, flag_unused_files}

-- What is flagged, sorted by id, and each id once.
unfoldable pub findings :
    (Text → List ℕ) → DeadCodeInput → List Text → List Key → List FindingRecord
unfolding flag_unused_exports flag_unused_files
findings sha256 input reachable used =
    sort_dedup (λ f. f.id)
      (flag_unused_exports sha256 input reachable used ++ flag_unused_files sha256 input reachable)

unfoldable pub collect : (Text → List ℕ) → DeadCodeInput → Option (List FindingRecord)
unfolding bfs_reachable used_keys findings
collect sha256 input = elim (bfs_reachable input.entry_points input.imports) [
  | none ↦ none
  | some reachable ↦ elim (used_keys input reachable) [
    | none ↦ none
    | some used ↦ some (findings sha256 input reachable used)
  ]
]

unfoldable pub analyze : (Text → List ℕ) → DeadCodeInput → Option (List FindingRecord)
unfolding collect
analyze sha256 input = elim input.entry_points [ [] ↦ some [] | _ ∷ _ ↦ collect sha256 input ]

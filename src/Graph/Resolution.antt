-- ===== src/Graph/Resolution.antt =====
-- crates/ovecc-graph/src/resolution.rs: the unresolved imports that bear on a target, and how an
-- answer of nothing is to be read.
pub mod Exact
mod Tests
use Prim.Native.Nat.{Ordering}
use ovecc.Prelude.{
  ℕ, zero, suc, ◌+◌, ◌%◌, ◌^◌, Option, none, some, List, [], ◌∷◌, ◌++◌, if◌then◌else◌, not, Bool,
  true, false, ◌||◌, nat_eqb, contains, list_eqb, list_eq, nat_eq, nat_ord, list_ord, pair_ord,
  sort_by, by_key,
}
use ovecc.Text.{
  Text, codes, is_separator, first_piece, last_piece, split_at, rsplit_at, trim_end, replace_byte,
}
use ovecc.Core.Architecture.{slashed}
use ovecc.Core.Legacy.{DependencyRecord, is_unresolved}

pub record Blindspot : Type 0 where
  pub file : Text
  pub line : ℕ
  pub specifier : Text

pub record Calibration : Type 0 where
  pub outgoing : List Blindspot
  pub incoming : List Blindspot

pub data Answer : Type 0 where
  resolved none_ could_not_resolve : Answer

unfoldable pub of : ℕ → List Blindspot → Answer
of zero (_ ∷ _) = could_not_resolve
of zero [] = none_
of (suc found) blindspots = resolved

unfoldable pub answer_str : Answer → Text
answer_str resolved = codes "resolved"
answer_str none_ = codes "none"
answer_str could_not_resolve = codes "could_not_resolve"

-- A text up to its first dot, or the whole of it where it starts with one.
abbrev up_to_dot : Text → Text
up_to_dot last = elim (split_at (λ c. nat_eqb c b'.') last) [
  | none ↦ last
  | some ([], _) ↦ last
  | some (c ∷ stem, _) ↦ c ∷ stem
]

unfoldable pub specifier_stem : Text → Text
specifier_stem specifier =
    up_to_dot
      (first_piece (λ c. nat_eqb c b'?' || nat_eqb c b'#') (last_piece is_separator specifier))

unfoldable pub target_names : Text → List Text
unfolding specifier_stem
target_names path =
    let normalized = trim_end (λ c. nat_eqb c b'/') path in
    let stem = specifier_stem normalized in
    stem
    ∷ (if contains stem (codes "index" ∷ codes "mod" ∷ codes "__init__" ∷ [])
        then elim (rsplit_at is_separator normalized) [
          | none ↦ []
          | some (parent, _) ↦ last_piece is_separator parent ∷ []
        ]
        else [])

abbrev pub spot_of : DependencyRecord → Blindspot
spot_of d = record {
  file = slashed d.source_file_path;
  line = d.evidence_line % 2 ^ 32;
  specifier = d.specifier;
}

-- The loop of `calibrate`, for the target's file and names.
unfoldable pub gather : Text → List Text → List DependencyRecord → Calibration → Calibration
unfolding is_unresolved specifier_stem
gather target_file names [] c = c
gather target_file names (d ∷ ds) c = gather target_file names ds (
    if not (is_unresolved d)
    then c
    else if list_eqb (spot_of d).file target_file
    then record c { outgoing = c.outgoing ++ spot_of d ∷ [] }
    else if contains (specifier_stem d.specifier) names
    then record c { incoming = c.incoming ++ spot_of d ∷ [] }
    else c)

abbrev pub by_line : Blindspot → Blindspot → Ordering
by_line = by_key (λ s. s.line)

abbrev pub site : Blindspot → Text × ℕ
site s = (s.file, s.line)

abbrev pub by_site : Blindspot → Blindspot → Ordering
by_site = by_key site

unfoldable pub calibrate : List DependencyRecord → Option Text → Calibration
unfolding gather target_names
calibrate dependencies none = record { outgoing = []; incoming = [] }
calibrate dependencies (some path) =
    let c =
      gather (slashed path) (target_names (slashed path)) dependencies
        (record { outgoing = []; incoming = [] }) in
    record { outgoing = sort_by by_line c.outgoing; incoming = sort_by by_site c.incoming }

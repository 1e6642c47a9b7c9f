-- ===== src/Rules/DeadCode.antt =====
-- crates/ovecc-rules/src/deadcode.rs: which exports and files nothing uses. A hash set or map is a
-- list that is only asked for its members; the entry points stand in the order in which their set
-- happens to be read, and no result depends on it.
pub mod Reachable
pub mod Seeds
pub mod Conditions
pub mod Usage
pub mod Literals
pub mod Flags
pub mod Analysis
mod Tests
use ovecc.Prelude.{
  ℕ, suc, ◌+◌, Bool, true, false, not, ◌&&◌, Option, none, some, List, [], ◌∷◌, ◌++◌, map,
  if◌then◌else◌, contains, lookup, push_all, get_or_nil, any, keep_if, list_eqb, list_eq, nat_eq,
  pair_eq, length,
}
use ovecc.Text.{Text, is_some}
use ovecc.Core.Facts.{ExportFact, PathLiteralFact}
use ovecc.Worklist.{Growth, nothing_seen, deque, stack, reach, reach_all, grow}

pub record ImportEdge : Type 0 where
  pub source_file : Text
  pub target_file : Text
  pub imported_names : List Text
  pub is_namespace : Bool

pub record DeadCodeInput : Type 0 where
  pub repository_id : Text
  pub snapshot_id : Option Text
  pub files : List Text
  pub entry_points : List Text
  pub exports : List (Text × ExportFact)
  pub imports : List ImportEdge
  pub path_literals : List (Text × PathLiteralFact)
  pub signature_types : List (Text × Text)

-- A file, and the name of an export of it.
abbrev pub Key : Type 0
Key = Text × Text

unfoldable pub index_exports_by_file : List (Text × ExportFact) → List (Text × List ExportFact)
index_exports_by_file exports = push_all [] exports

unfoldable pub build_out_edges : List ImportEdge → List (Text × List Text)
build_out_edges imports = push_all [] (map (λ e. (e.source_file, e.target_file)) imports)

-- The map of the names that each file exports again, by whether it holds the name.
unfoldable pub re_exports : List (Text × ExportFact) → Text → Text → Bool
re_exports exports file name =
    any (λ e. list_eqb e.0 file && is_some e.1.re_export && list_eqb e.1.name name) exports

-- `bfs_reachable`. The files of the edges bound the rounds.
unfoldable pub bfs_reachable : List Text → List ImportEdge → Option (List Text)
unfolding grow build_out_edges
bfs_reachable entry_points imports =
    let out_edges = build_out_edges imports in
    grow deque (λ file. get_or_nil (lookup file out_edges))
      (length (entry_points ++ map (λ e. e.target_file) imports))
      (reach_all deque entry_points nothing_seen)

-- The keys of the exports of the entry points.
abbrev pub surface : List Text → List (Text × ExportFact) → List Key
surface entry_points exports =
    map (λ e. (e.0, e.1.name)) (keep_if (λ e. contains e.0 entry_points) exports)

unfoldable pub seed_public_surface : DeadCodeInput → Growth Key → Growth Key
unfolding reach_all
seed_public_surface input g = reach_all stack (surface input.entry_points input.exports) g

-- What `seed_from_imports` changes: `used` with `worklist`, and `forwards`.
pub record Seeding : Type 0 where
  pub growth : Growth Key
  pub forwards : List (Key × Key)

-- The loop over the imported names of an edge.
unfoldable pub seed_names :
    List ExportFact → (Text → Bool) → Text → Text → List Text → Seeding → Seeding
unfolding reach
seed_names exported forwarded_here source target [] s = s
seed_names exported forwarded_here source target (name ∷ names) s =
    seed_names exported forwarded_here source target names (
      if not (any (λ e. list_eqb e.name name) exported)
      then s
      else if forwarded_here name
      then record s { forwards = s.forwards ++ ((source, name), (target, name)) ∷ [] }
      else record s { growth = reach stack (target, name) s.growth })

-- One edge, by the exports of its target.
unfoldable pub seed_edge :
    List Text → List ExportFact → (Text → Bool) → ImportEdge → Seeding → Seeding
unfolding seed_names reach_all
seed_edge reachable exported forwarded_here edge s =
    if not (contains edge.source_file reachable)
    then s
    else if edge.is_namespace
    then record s {
      growth = reach_all stack (map (λ e. (edge.target_file, e.name)) exported) s.growth;
    }
    else seed_names exported forwarded_here edge.source_file edge.target_file edge.imported_names s

unfoldable pub seed_from_imports :
    List Text → List (Text × ExportFact) → List ImportEdge → Seeding → Seeding
unfolding seed_edge index_exports_by_file re_exports
seed_from_imports reachable exports [] s = s
seed_from_imports reachable exports (edge ∷ edges) s = seed_from_imports reachable exports edges (
    seed_edge reachable (get_or_nil (lookup edge.target_file (index_exports_by_file exports)))
      (re_exports exports edge.source_file) edge s)

-- The work list holds at most what is used, and a round adds only ends of forwards.
unfoldable pub propagate_forwards : List (Key × Key) → Growth Key → Option (List Key)
unfolding grow
propagate_forwards forwards g =
    let forward_index = push_all [] forwards in
    grow stack (λ key. get_or_nil (lookup key forward_index))
      (length g.work + length (map (λ f. f.1) forwards)) g

-- The set `used` of `analyze`, from the reachable files.
unfoldable pub used_keys : DeadCodeInput → List Text → Option (List Key)
unfolding seed_public_surface seed_from_imports propagate_forwards
used_keys input reachable =
    let seeded =
      seed_from_imports reachable input.exports input.imports
        (record { growth = seed_public_surface input nothing_seen; forwards = [] }) in
    propagate_forwards seeded.forwards seeded.growth

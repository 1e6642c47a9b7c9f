-- ===== src/Graph/Cycles.antt =====
-- The module graph and the enumeration of its cycles: crates/ovecc-graph/src/cycles.rs.
pub mod Loops
pub mod Canonical
pub mod Rounds
pub mod Work
pub mod Enumerate
mod Tests
use ovecc.Prelude.{
  ℕ, zero, suc, ◌+◌, Bool, not, ◌&&◌, ◌||◌, Option, none, some, List, [], ◌∷◌, ◌++◌, map, reverse,
  if◌then◌else◌, length, get_or, set, take, drop, replicate, list_eqb, list_eq, nat_eq, nat_ord,
  nat_eqb, ltb, leb, list_cmp, contains, lookup, assign, keep_if, sort_by, min, max, ◌-◌,
}
use Prim.Native.Nat.{Ordering}
use ovecc.Text.{Text, codes}
use ovecc.Core.Legacy.{DependencyRecord}

abbrev pub max_cycles_per_scc : ℕ
max_cycles_per_scc = 20

abbrev pub max_cycle_depth : ℕ
max_cycle_depth = 12

-- Nodes are the positions of the names; row `i` of `succ` holds the successors of node `i`.
pub record ModuleAdjacency : Type 0 where
  pub names : List Text
  pub succ : List (List ℕ)

unfoldable pub is_runtime_edge : DependencyRecord → Bool
is_runtime_edge dependency = not (list_eqb dependency.dependency_kind (codes "type_import"))

-- `enumerate().map(|(i, name)| (name, i)).collect()`, from position `i` on.
index_from : List (Text × ℕ) → ℕ → List Text → List (Text × ℕ)
index_from index i [] = index
index_from index i (name ∷ names) = index_from (assign name i index) (i + 1) names

abbrev add_successor : List (List ℕ) → ℕ → ℕ → List (List ℕ)
add_successor succ source target =
    let row = get_or succ source [] in
    if contains target row then succ else set succ source (row ++ target ∷ [])

-- The body of the loop over the edges. `seen[source]` holds what row `source` of `succ` holds.
add_module_edge : List (Text × ℕ) → List (List ℕ) → Text × Text → List (List ℕ)
add_module_edge index succ edge =
    if list_eqb edge.0 edge.1 then succ else elim (lookup edge.0 index) [
      | none ↦ succ
      | some source ↦ elim (lookup edge.1 index) [
        | none ↦ succ
        | some target ↦ add_successor succ source target
      ]
    ]

add_module_edges : List (Text × ℕ) → List (List ℕ) → List (Text × Text) → List (List ℕ)
add_module_edges index succ [] = succ
add_module_edges index succ (edge ∷ edges) =
    add_module_edges index (add_module_edge index succ edge) edges

unfoldable pub from_module_edges : List Text → List (Text × Text) → ModuleAdjacency
unfolding index_from add_module_edges add_module_edge
from_module_edges modules edges = record {
  names = modules;
  succ = add_module_edges (index_from [] 0 modules) (replicate (length modules) []) edges;
}

unfoldable pub build : List Text → List DependencyRecord → ModuleAdjacency
unfolding is_runtime_edge
build modules dependencies = from_module_edges modules (
    map (λ d. (d.source_module, d.target_module))
      (keep_if (λ d. not d.is_external && is_runtime_edge d) dependencies))

abbrev pub successors : ModuleAdjacency → ℕ → List ℕ
successors adjacency node = get_or adjacency.succ node []

abbrev pub name_of : ModuleAdjacency → ℕ → Text
name_of adjacency node = get_or adjacency.names node []

abbrev pub by_name : ModuleAdjacency → ℕ → ℕ → Ordering
by_name adjacency a b = list_cmp (name_of adjacency a) (name_of adjacency b)

-- `min_by`: the position of the first least member, `best` being that of `node` so far.
unfoldable pub min_position : ModuleAdjacency → ℕ → ℕ → ℕ → List ℕ → ℕ
min_position adjacency best node i [] = best
min_position adjacency best node i (next ∷ rest) = elim (by_name adjacency next node) [
  | Ordering.lt ↦ min_position adjacency i next (i + 1) rest
  | _ ↦ min_position adjacency best node (i + 1) rest
]

unfoldable pub canonical : List ℕ → ModuleAdjacency → List ℕ
unfolding min_position
canonical [] adjacency = []
canonical (x ∷ xs) adjacency =
    let position = min_position adjacency 0 x 1 xs in
    drop position (x ∷ xs) ++ take position (x ∷ xs)

-- A level of the search path: a node and the position of its next successor.
pub record Frame : Type 0 where
  pub node : ℕ
  pub pos : ℕ

-- `path` and `frames`, which are kept in lockstep, from the last node to the first, and the cycles
-- found, which are what `seen` holds.
pub record PathSearch : Type 0 where
  pub levels : List Frame
  pub cycles : List (List ℕ)

abbrev pub nodes_of : List Frame → List ℕ
nodes_of = map (λ f. f.node)

module _ (start depth_limit : ℕ) (scc_set : List ℕ) (adjacency : ModuleAdjacency) where
  -- The rest of a round: `next` follows on the node of the last of `levels`.
  unfoldable pub extend : List Frame → List (List ℕ) → ℕ → PathSearch
  extend levels cycles next =
      let path = nodes_of levels in
      let canon = canonical (reverse path) adjacency in
      if not (contains next scc_set)
      then record { levels = levels; cycles = cycles }
      else if nat_eqb next start && leb 2 (length path) && nat_eqb (length path) depth_limit
      then record {
        levels = levels;
        cycles = if contains canon cycles then cycles else cycles ++ canon ∷ [];
      }
      else if contains next path || leb depth_limit (length path)
      then record { levels = levels; cycles = cycles }
      else record { levels = record { node = next; pos = 0 } ∷ levels; cycles = cycles }

  -- A round of the `while` loop that has not found enough cycles.
  unfoldable pub dfs_round : Frame → List Frame → List (List ℕ) → PathSearch
  unfolding extend
  dfs_round top below cycles =
      let row = successors adjacency top.node in
      if leb (length row) top.pos
      then record { levels = below; cycles = cycles }
      else extend (record top { pos = top.pos + 1 } ∷ below) cycles (get_or row top.pos 0)

  -- The `while` loop, on fuel; it leaves the cycles.
  unfoldable pub dfs_run : ℕ → PathSearch → Option (List (List ℕ))
  dfs_run zero s = elim s.levels [ [] ↦ some s.cycles | _ ∷ _ ↦ none ]
  dfs_run (suc fuel) s = elim s.levels [
    | [] ↦ some s.cycles
    | top ∷ below ↦
        if leb max_cycles_per_scc (length s.cycles)
        then some s.cycles
        else dfs_run fuel (dfs_round top below s.cycles)
  ]

  unfoldable pub dfs_cycles : ℕ → List (List ℕ) → Option (List (List ℕ))
  unfolding dfs_run dfs_round extend
  dfs_cycles fuel cycles =
      dfs_run fuel (record { levels = record { node = start; pos = 0 } ∷ []; cycles = cycles })

-- The longest row of successors.
abbrev pub widest : List (List ℕ) → ℕ
widest [] = 0
widest (row ∷ rows) = max (length row) (widest rows)

-- The rounds that a level with `left` successors takes, each of which opens at most `inner` rounds.
abbrev pub level_rounds : ℕ → ℕ → ℕ
level_rounds zero inner = 1
level_rounds (suc left) inner = level_rounds left inner + inner + 1

-- The rounds that `k` more levels can take.
abbrev pub rounds : ℕ → ℕ → ℕ
rounds width zero = 0
rounds width (suc k) = level_rounds width (rounds width k)

abbrev dfs_fuel : ModuleAdjacency → ℕ → ℕ
dfs_fuel adjacency depth_limit = rounds (widest adjacency.succ) depth_limit

module _ (scc : List ℕ) (adjacency : ModuleAdjacency) where
  -- The loop over the start nodes.
  unfoldable pub from_starts : ℕ → List ℕ → List (List ℕ) → Option (List (List ℕ))
  unfolding dfs_cycles
  from_starts depth_limit [] cycles = some cycles
  from_starts depth_limit (start ∷ starts) cycles =
      if leb max_cycles_per_scc (length cycles)
      then some cycles
      else elim (dfs_cycles start depth_limit scc adjacency (dfs_fuel adjacency depth_limit)
          cycles) [ none ↦ none | some found ↦ from_starts depth_limit starts found ]

  -- `depth_limit..depth_limit + count`
  unfoldable pub from_depths : List ℕ → ℕ → ℕ → List (List ℕ) → Option (List (List ℕ))
  unfolding from_starts
  from_depths starts depth_limit zero cycles = some cycles
  from_depths starts depth_limit (suc count) cycles =
      if leb max_cycles_per_scc (length cycles)
      then some cycles
      else elim (from_starts depth_limit starts cycles) [
        | none ↦ none
        | some found ↦ from_depths starts (depth_limit + 1) count found
      ]

  unfoldable pub enumerate_scc_cycles : Option (List (List ℕ))
  unfolding from_depths
  enumerate_scc_cycles =
      from_depths (sort_by (by_name adjacency) scc) 2 (min (length scc) max_cycle_depth - 1) []

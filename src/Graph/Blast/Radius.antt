-- ===== src/Graph/Blast/Radius.antt =====
-- `blast_radius` of blast.rs. Its search is that of Traversal, over the impact edges.
use Prim.Native.Nat.{Ordering, compare}
use ovecc.Prelude.{
  ℕ, ◌+◌, Bool, false, Option, none, some, List, [], ◌∷◌, ◌++◌, map, if◌then◌else◌, take, contains,
  list_eq, nat_eq, list_ord, nat_ord, list_cmp, sort_by, then_with, filter_map, dedup, push_entry,
  get_or_nil, lookup, assign,
}
use ovecc.Text.{Text}
use ovecc.Core.Legacy.{ImpactDirection, looks_down, looks_up}
use ovecc.Graph.Traversal.{Search, search_from}
use ovecc.Graph.Blast.{
  BlastNode, BlastEdge, ImpactedNode, BlastResult, impact_edge_kinds, Category, module_kind, api,
  table, symbol, file_kind, other, categorize, risk_score,
}

-- A search that cannot end within its fuel is told from an answer.
pub data Outcome (A : Type 0) : Type 0 where
  answer : A → Outcome A
  out_of_fuel : Outcome A

-- `nodes.iter().map(|node| (node.id, node)).collect()`: a later node replaces an earlier one.
abbrev pub NodeIndex : Type 0
NodeIndex = List (Text × BlastNode)

unfoldable pub index_from : NodeIndex → List BlastNode → NodeIndex
index_from index [] = index
index_from index (n ∷ ns) = index_from (assign n.id n index) ns

unfoldable pub is_impact_edge : BlastEdge → Bool
is_impact_edge edge = contains edge.kind impact_edge_kinds

abbrev pub Adjacency : Type 0
Adjacency = List (Text × List Text)

pub record Adjacencies : Type 0 where
  pub predecessors : Adjacency
  pub successors : Adjacency

-- The body of the loop over the edges.
unfoldable pub add_edge : Adjacencies → BlastEdge → Adjacencies
unfolding is_impact_edge
add_edge a edge =
    if is_impact_edge edge
    then record {
      predecessors = push_entry edge.target edge.source a.predecessors;
      successors = push_entry edge.source edge.target a.successors;
    }
    else a

unfoldable pub add_edges : Adjacencies → List BlastEdge → Adjacencies
add_edges a [] = a
add_edges a (edge ∷ edges) = add_edges (add_edge a edge) edges

abbrev pub no_edges : Adjacencies
no_edges = record { predecessors = []; successors = [] }

-- `neighbors` of a node: extended by the maps, sorted and without duplicates.
unfoldable pub neighbors_in : ImpactDirection → Adjacencies → Text → List Text
neighbors_in direction a current =
    let down = if looks_down direction then get_or_nil (lookup current a.predecessors) else [] in
    let up = if looks_up direction then get_or_nil (lookup current a.successors) else [] in
    dedup (sort_by list_cmp (down ++ up))

-- All ends of edges: they bound the rounds of the search.
abbrev pub edge_ends : List BlastEdge → List Text
edge_ends [] = []
edge_ends (edge ∷ edges) = edge.source ∷ edge.target ∷ edge_ends edges

unfoldable pub blast_search : List BlastEdge → Text → ImpactDirection → ℕ → Option (Search Text)
blast_search edges target_id direction max_depth =
    search_from target_id (neighbors_in direction (add_edges no_edges edges)) max_depth
      (edge_ends edges)

label_of : NodeIndex → Text → Text
label_of index id = elim (lookup id index) [ none ↦ id | some node ↦ node.label ]

label_path : NodeIndex → List Text → List Text
unfolding label_of
label_path index = map (label_of index)

pub record Tally : Type 0 where
  pub modules : ℕ
  pub apis : ℕ
  pub tables : ℕ
  pub symbols : ℕ
  pub files : ℕ

count_category : Category → Tally → Tally
count_category module_kind c = record c { modules = c.modules + 1 }
count_category api c = record c { apis = c.apis + 1 }
count_category table c = record c { tables = c.tables + 1 }
count_category symbol c = record c { symbols = c.symbols + 1 }
count_category file_kind c = record c { files = c.files + 1 }
count_category other c = c

count_node : NodeIndex → Text → Tally → Tally
unfolding count_category
count_node index id c = elim (lookup id index) [
  | none ↦ c
  | some node ↦ count_category (categorize node.kind) c
]

tally_from : NodeIndex → Tally → List Text → Tally
tally_from index c [] = c
tally_from index c (id ∷ ids) = tally_from index (count_node index id c) ids

abbrev zero_tally : Tally
zero_tally = record { modules = 0; apis = 0; tables = 0; symbols = 0; files = 0 }

abbrev pub as_impacted : BlastNode → ImpactedNode
as_impacted node = record { label = node.label; file = node.file; line = node.line }

abbrev pub impacted_entry : NodeIndex → Text → Option ImpactedNode
impacted_entry index id = elim (lookup id index) [ none ↦ none | some n ↦ some (as_impacted n) ]

-- `Ord` for `Option`: none first.
abbrev pub option_cmp : {A : Type 0} → (A → A → Ordering) → Option A → Option A → Ordering
option_cmp cmp none none = Ordering.eq
option_cmp cmp none (some b) = Ordering.lt
option_cmp cmp (some a) none = Ordering.gt
option_cmp cmp (some a) (some b) = cmp a b

abbrev pub impacted_cmp : ImpactedNode → ImpactedNode → Ordering
impacted_cmp a b =
    then_with (list_cmp a.label b.label)
      (then_with (option_cmp list_cmp a.file b.file) (option_cmp compare a.line b.line))

-- The report, once the search is over.
unfoldable pub report : NodeIndex → BlastNode → Text → Search Text → BlastResult
unfolding label_path tally_from count_node count_category
report index target target_id found =
    let c = tally_from index zero_tally found.visited in
    let risk = risk_score c.modules c.apis c.tables (c.symbols + c.files) false in
    record {
      target_id = target_id;
      target_label = target.label;
      impacted_modules = c.modules;
      impacted_apis = c.apis;
      impacted_tables = c.tables;
      impacted_symbols = c.symbols;
      impacted_files = c.files;
      impacted = sort_by impacted_cmp (filter_map (impacted_entry index) found.visited);
      paths = take 20 (sort_by list_cmp (map (label_path index) found.paths));
      risk_value = risk.0;
      risk = risk.1;
    }

-- `None` for an unknown target.
unfoldable pub blast_radius :
    List BlastNode → List BlastEdge → Text → ImpactDirection → ℕ → Outcome (Option BlastResult)
unfolding report
blast_radius nodes edges target_id direction max_depth =
    let index = index_from [] nodes in
    elim (lookup target_id index) [
      | none ↦ answer none
      | some target ↦ elim (blast_search edges target_id direction max_depth) [
        | none ↦ out_of_fuel
        | some found ↦ answer (some (report index target target_id found))
      ]
    ]

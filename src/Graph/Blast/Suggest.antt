-- ===== src/Graph/Blast/Suggest.antt =====
-- `closest_targets` and `label_distance` of blast.rs.
mod Least
pub mod Nearest
use Prim.Native.Nat.{Ordering}
use ovecc.Prelude.{
  ℕ, ◌+◌, ◌/◌, ◌≤◌, ◌≡◌, ◌↔◌, Option, none, some, List, [], ◌∷◌, map, if◌then◌else◌, leb, min, take,
  length, subst, list_eq, nat_eq, list_ord, nat_ord, sort_by, filter_map, bump, count_of, Elem,
  Elem-sort_by, Elem-filter_map, by_key, by_key-IsPreorder, reversed, reversed-IsPreorder, then_by,
  then_by-IsPreorder, Ordered, sort_by-Ordered, arith,
}
use ovecc.Text.{Text, codes, strip_prefix, lower, rsplit_once}
use ovecc.Graph.Blast.{BlastNode, BlastEdge}
use ovecc.Graph.Blast.Radius.{is_impact_edge}
use ovecc.Graph.Blast.Distance.{levenshtein}

-- The leaf of the label behind the last separator competes with the best distance so far.
unfoldable pub leaf_distance : Text → Text → Text → ℕ → ℕ
leaf_distance separator needle label best = elim (rsplit_once separator label) [
  | none ↦ best
  | some (front, leaf) ↦ min best (levenshtein needle leaf)
]

unfoldable pub label_distance : Text → Text → ℕ
unfolding leaf_distance
label_distance needle label =
    let folded = lower label in
    leaf_distance (codes "::") needle folded
      (leaf_distance (codes "/") needle folded (levenshtein needle folded))

pub record Scored : Type 0 where
  pub distance : ℕ
  pub references : ℕ
  pub label : Text
  pub node : BlastNode

unfoldable pub count_incoming : List (Text × ℕ) → List BlastEdge → List (Text × ℕ)
count_incoming incoming [] = incoming
count_incoming incoming (edge ∷ edges) =
    count_incoming (if is_impact_edge edge then bump edge.target incoming else incoming) edges

unfoldable pub bare_needle : Text → Text
bare_needle input = elim (strip_prefix (codes "table:") input) [
  | some rest ↦ lower rest
  | none ↦ elim (strip_prefix (codes "api:") input) [ some rest ↦ lower rest | none ↦ lower input ]
]

unfoldable pub budget : Text → ℕ
budget needle = 1 + length needle / 4

abbrev score : Text → List (Text × ℕ) → BlastNode → Option Scored
score needle incoming node =
    if leb (label_distance needle node.label) (budget needle)
    then some record {
      distance = label_distance needle node.label;
      references = count_of node.id incoming;
      label = node.label;
      node = node;
    }
    else none

-- Nearest first; of those the most referenced; of those by label.
abbrev pub closer : Scored → Scored → Ordering
closer =
    then_by (by_key (λ (s : Scored). s.distance)) (
      then_by (reversed (by_key (λ (s : Scored). s.references))) (by_key (λ (s : Scored). s.label)))

unfoldable pub scored_targets : Text → List BlastNode → List BlastEdge → List Scored
unfolding bare_needle
scored_targets input nodes edges =
    let needle = bare_needle input in
    sort_by closer (filter_map (score needle (count_incoming [] edges)) nodes)

unfoldable pub closest_targets : Text → List BlastNode → List BlastEdge → ℕ → List BlastNode
closest_targets input nodes edges limit =
    map (λ s. s.node) (take limit (scored_targets input nodes edges))

closer-IsOrdered : (xs : List Scored) → Ordered closer (sort_by closer xs)
closer-IsOrdered = sort_by-Ordered closer (
    then_by-IsPreorder (by_key-IsPreorder (λ (s : Scored). s.distance)) (
      then_by-IsPreorder (reversed-IsPreorder (by_key-IsPreorder (λ (s : Scored). s.references)))
        (by_key-IsPreorder (λ (s : Scored). s.label))))

abbrev IsScore : Text → List (Text × ℕ) → Scored → Type 0
IsScore needle incoming s =
    (s.distance ≡ label_distance needle s.node.label)
    × (s.distance ≤ budget needle)
    × (s.references ≡ count_of s.node.id incoming)
    × (s.label ≡ s.node.label)

score-some :
    (needle : Text) (incoming : List (Text × ℕ)) (node : BlastNode) (s : Scored)
    → score needle incoming node ≡ some s
    → (node ≡ s.node) × IsScore needle incoming s
score-some needle incoming node s h = ground arith

score_of :
    (needle : Text) (incoming : List (Text × ℕ)) (s : Scored)
    → IsScore needle incoming s
    → score needle incoming s.node ≡ some s
score_of needle incoming s h = ground arith

-- The pool of suggestions holds exactly the nodes whose label, or a leaf of it, lies within the
-- edit budget, each with its distance, its count of incoming impact edges and its label; and it is
-- in order: nearest first, then the most referenced, then by label.
pub scored_targets_lem :
    (input : Text) (nodes : List BlastNode) (edges : List BlastEdge)
    → Ordered closer (scored_targets input nodes edges)
      × ((s : Scored)
          → Elem s (scored_targets input nodes edges) ↔ (
              Elem s.node nodes
              × (s.distance ≡ label_distance (bare_needle input) s.node.label)
              × (s.distance ≤ budget (bare_needle input))
              × (s.references ≡ count_of s.node.id (count_incoming [] edges))
              × (s.label ≡ s.node.label)))
unfolding scored_targets
scored_targets_lem input nodes edges = (
  closer-IsOrdered (filter_map (score (bare_needle input) (count_incoming [] edges)) nodes),
  λ s.
      let needle = bare_needle input in
      let incoming = count_incoming [] edges in
      let sorted = Elem-sort_by closer s (filter_map (score needle incoming) nodes) in
      let mapped = Elem-filter_map (score needle incoming) s nodes in
      (
        λ m.
            let (node, i, e) = mapped.0 (sorted.0 m) in
            let (q, d) = score-some needle incoming node s e in
            (subst (λ n. Elem n nodes) q i, d.0, d.1, d.2, d.3),
        λ (i, d, b, r, l). sorted.1 (mapped.1 (s.node, i, score_of needle incoming s (d, b, r, l))),
      ),
)

-- ===== src/Graph/Blast/Suggest/Nearest.antt =====
-- `closest_targets` of blast.rs: which nodes are suggested for an input, and in which order.
use Prim.Native.Nat.{Ordering}
use ovecc.Prelude.{
  ℕ, ◌+◌, ◌/◌, ◌≤◌, ◌<◌, ◌≡◌, ◌≢◌, ◌↔◌, ◌⊎◌, inl, inr, refl, sym, ◌∙◌, subst, ◌&&◌, none, some,
  List, [], ◌∷◌, ◌++◌, length, contains, list_eqb, list_cmp, list_eq, nat_eq, list_ord, nat_ord,
  bump, count_of, count_of-bump, Elem, All, All-imp, keep_if, Ordered, Option-cases, Bool-cases,
  arith,
}
use ovecc.Text.{Text, codes, strip_prefix, lower}
use ovecc.Text.Laws.{strip_prefix-append, strip_prefix-eq-some}
use ovecc.Graph.Blast.{BlastNode, BlastEdge, impact_edge_kinds}
use ovecc.Graph.Blast.Radius.{is_impact_edge}
use ovecc.Graph.Blast.Suggest.Least.{IsSpelling, IsLeast, label_distance-IsLeast, least_unique}
use ovecc.Graph.Blast.Suggest.{
  Scored, closer, scored_targets, scored_targets_lem, label_distance, bare_needle, budget,
  count_incoming,
}

-- The input without its category, in lower case.
abbrev pub IsNeedle : Text → Text → Type 0
IsNeedle input needle =
    ((rest : Text) × (input ≡ codes "table:" ++ rest) × (needle ≡ lower rest))
    ⊎ ((rest : Text) × (input ≡ codes "api:" ++ rest) × (needle ≡ lower rest))
    ⊎ (((rest : Text) → input ≢ codes "table:" ++ rest)
        × ((rest : Text) → input ≢ codes "api:" ++ rest)
        × (needle ≡ lower input))

unprefixed : (p input : Text) → strip_prefix p input ≡ none → (rest : Text) → input ≢ p ++ rest
unprefixed p input none_at rest e =
    let there : strip_prefix p input ≡ some rest =
      subst (λ t. strip_prefix p t ≡ some rest) (sym e) (strip_prefix-append p rest) in
    cc

bare_needle-IsNeedle : (input : Text) → IsNeedle input (bare_needle input)
unfolding bare_needle
bare_needle-IsNeedle input = elim (Option-cases (strip_prefix (codes "table:") input)) [
  | inr (rest, e) ↦
      rw (e, bare_needle) (inl (rest, strip_prefix-eq-some (codes "table:") input rest e, refl))
  | inl no_table ↦ elim (Option-cases (strip_prefix (codes "api:") input)) [
    | inr (rest, e) ↦
        rw (no_table, e, bare_needle)
          (inr (inl (rest, strip_prefix-eq-some (codes "api:") input rest e, refl)))
    | inl no_api ↦
        rw (no_table, no_api, bare_needle)
          (inr (
            inr (
              unprefixed (codes "table:") input no_table,
              unprefixed (codes "api:") input no_api,
              refl,
            )))
  ]
]

-- How many impact edges lead to the node.
abbrev pub references_to : Text → List BlastEdge → ℕ
references_to id edges =
    length (keep_if (λ edge. contains edge.kind impact_edge_kinds && list_eqb id edge.target) edges)

count_incoming-references :
    (id : Text) (edges : List BlastEdge) (incoming : List (Text × ℕ))
    → count_of id (count_incoming incoming edges) ≡ count_of id incoming + references_to id edges
unfolding count_incoming is_impact_edge
count_incoming-references id [] incoming = omega arith
count_incoming-references id (edge ∷ edges) incoming =
    elim (Bool-cases (contains edge.kind impact_edge_kinds)) [
      | inl counts ↦
          let rest = count_incoming-references id edges (bump edge.target incoming) in
          let here = count_of-bump edge.target id incoming in
          rw (counts, count_incoming) (ground (arith, rest, here))
      | inr other ↦ rw (other, count_incoming) (count_incoming-references id edges incoming)
    ]

-- Nearer, or as near and more referenced, or as much and not after it by label.
abbrev pub NotAfter : Scored → Scored → Type 0
NotAfter a b =
    (a.distance < b.distance)
    ⊎ ((a.distance ≡ b.distance)
        × ((b.references < a.references)
            ⊎ ((a.references ≡ b.references) × (list_cmp a.label b.label ≢ Ordering.gt))))

closer-NotAfter : (a b : Scored) → closer a b ≢ Ordering.gt → NotAfter a b
closer-NotAfter a b h = ground arith

abbrev pub InOrder : List Scored → Type 0
InOrder [] = Unit
InOrder (s ∷ ss) = All (NotAfter s) ss × InOrder ss

Ordered-InOrder : (ss : List Scored) → Ordered closer ss → InOrder ss
Ordered-InOrder [] h = tt
Ordered-InOrder (s ∷ ss) h =
    (All-imp _ _ ss (λ b k. closer-NotAfter s b k) h.0, Ordered-InOrder ss h.1)

-- What is known of a suggestion: the node, how near its label comes to the needle, within one edit
-- for each four characters of it and one more, and how many impact edges lead to the node.
abbrev pub IsSuggestion : Text → List BlastNode → List BlastEdge → Scored → Type 0
IsSuggestion needle nodes edges s =
    Elem s.node nodes
    × IsLeast (IsSpelling s.node.label) needle s.distance
    × (s.distance ≤ 1 + length needle / 4)
    × (s.references ≡ references_to s.node.id edges)
    × (s.label ≡ s.node.label)

-- The pool of suggestions for an input holds exactly the nodes whose label comes near enough: the
-- needle is the input without `table:` or `api:`, in lower case; the distance is the cost of a
-- cheapest edit script from it to the label in lower case, or to what follows the last `/` or the
-- last `::` of that; and it may be at most one more than a quarter of the needle's length. Each is
-- listed with this distance, its label and the number of impact edges into the node. Nearer ones
-- come first, then those with more such edges, then those with the smaller label.
pub scored_targets-IsSuggestion :
    (input : Text) (nodes : List BlastNode) (edges : List BlastEdge)
    → (needle : Text) × IsNeedle input needle
      × InOrder (scored_targets input nodes edges)
      × ((s : Scored)
          → Elem s (scored_targets input nodes edges) ↔ IsSuggestion needle nodes edges s)
unfolding budget
scored_targets-IsSuggestion input nodes edges =
    let needle = bare_needle input in
    let (ordered, law) = scored_targets_lem input nodes edges in
    let references : (s : Scored)
        → count_of s.node.id (count_incoming [] edges) ≡ references_to s.node.id edges =
      λ s. omega (arith, count_incoming-references s.node.id edges []) in
    let distance : (s : Scored)
        → IsLeast (IsSpelling s.node.label) needle (label_distance needle s.node.label) =
      λ s. label_distance-IsLeast needle s.node.label in
    (
      needle,
      bare_needle-IsNeedle input,
      Ordered-InOrder (scored_targets input nodes edges) ordered,
      λ s. (
        λ m.
            let (i, d, b, r, l) = (law s).0 m in
            let least = subst (IsLeast (IsSpelling s.node.label) needle) (sym d) (distance s) in
            (i, least, b, r ∙ references s, l),
        λ (i, d, b, r, l).
            let same = least_unique (IsSpelling s.node.label) needle s.distance _ d (distance s) in
            (law s).1 (i, same, b, r ∙ sym (references s), l),
      ),
    )

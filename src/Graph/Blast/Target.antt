-- ===== src/Graph/Blast/Target.antt =====
-- `resolve_target`, `api_needles` and `target_syntax` of blast.rs.
pub mod Laws
use ovecc.Prelude.{
  ℕ, Bool, true, false, ◌&&◌, ◌||◌, not, Option, none, some, List, [], ◌∷◌, ◌++◌, map,
  if◌then◌else◌, nat_eqb, list_eqb, nat_eq, any, find, keep_if,
}
use ovecc.Text.{
  Text, codes, strip_prefix, split_at, trim, lower, eq_ignore_case, contains_text, is_alphabetic,
  all, empty,
}
use ovecc.Graph.Blast.{BlastNode, Category, api, table, category_eqb, categorize}

unfoldable pub api_needles : Text → List Text
api_needles rest = elim (split_at (λ c. nat_eqb c b':') rest) [
  | none ↦ rest ∷ []
  | some (method, path) ↦
      if not (empty method) && all is_alphabetic method
      then rest ∷ trim (method ++ codes " " ++ path) ∷ []
      else rest ∷ []
]

-- The category filter and the spellings to look for.
pub record Wanted : Type 0 where
  pub kind_filter : Option Category
  pub needles : List Text

unfoldable pub wanted : Text → Wanted
unfolding api_needles
wanted input = elim (strip_prefix (codes "table:") input) [
  | some rest ↦ record { kind_filter = some table; needles = rest ∷ [] }
  | none ↦ elim (strip_prefix (codes "api:") input) [
    | some rest ↦ record { kind_filter = some api; needles = api_needles rest }
    | none ↦ record { kind_filter = none; needles = input ∷ [] }
  ]
]

unfoldable pub in_category : Wanted → BlastNode → Bool
in_category w node = elim (w.kind_filter) [
  | none ↦ true
  | some category ↦ category_eqb (categorize node.kind) category
]

unfoldable pub exact : Wanted → BlastNode → Bool
exact w node = any (eq_ignore_case node.label) w.needles

unfoldable pub matches : Wanted → BlastNode → Bool
unfolding in_category exact
matches w node =
    in_category w node
    && (exact w node
        || any (λ needle. contains_text needle (lower node.label)) (map lower w.needles))

unfoldable pub preferred : Wanted → BlastNode → Bool
unfolding in_category exact
preferred w node = in_category w node && exact w node

-- One match is the answer; among several the first exact one, else the first.
unfoldable pub choose : Wanted → List BlastNode → List BlastNode → Option BlastNode
unfolding preferred
choose w nodes [] = none
choose w nodes (first ∷ []) = some first
choose w nodes (first ∷ second ∷ more) = elim (find (preferred w) nodes) [
  | none ↦ some first
  | some node ↦ some node
]

unfoldable pub resolve_target : Text → List BlastNode → Option BlastNode
unfolding choose matches wanted
resolve_target input nodes = elim (find (λ node. list_eqb node.id input) nodes) [
  | some node ↦ some node
  | none ↦ choose (wanted input) nodes (keep_if (matches (wanted input)) nodes)
]

unfoldable pub target_syntax : BlastNode → Text
target_syntax node = elim (categorize node.kind) [
  | table ↦ codes "table:" ++ node.label
  | api ↦ codes "api:" ++ node.label
  | _ ↦ node.label
]

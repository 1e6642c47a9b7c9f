-- ===== src/Graph/Blast/Tests.antt =====
-- Runs of blast.rs on a small graph, and its theorems there.
use ovecc.Prelude.{
  ℕ, ◌≤◌, ◌≡◌, ◌≢◌, ◌↔◌, refl, true, false, none, some, List, [], ◌∷◌, Elem, arith, nat_eq, list_eq,
}
use ovecc.Text.{Text, codes}
use ovecc.Core.Legacy.{downstream, low, critical, rank}
use ovecc.Graph.Traversal.{Search, search_from}
use ovecc.Graph.Blast.{BlastNode, BlastEdge, ImpactedNode, BlastResult, categorize, risk_score}
use ovecc.Graph.Blast.Radius.{
  answer, blast_radius, blast_search, index_from, is_impact_edge, add_edge, add_edges, neighbors_in,
  report,
}
use ovecc.Graph.Blast.Impacted.{IsListed, blast_radius-impacted, blast_radius_total}
use ovecc.Graph.Blast.Risk.{risk_score_mono, risk_score_bands}
use ovecc.Graph.Blast.Distance.{levenshtein, Script}
use ovecc.Graph.Blast.Distance.Optimal.{levenshtein_minimal}
use ovecc.Graph.Blast.Suggest.{Scored, scored_targets, label_distance, budget, count_incoming}
use ovecc.Graph.Blast.Suggest.Nearest.{IsNeedle, InOrder, IsSuggestion, scored_targets-IsSuggestion}

abbrev node : Text → Text → Text → BlastNode
node id kind label = record { id = id; kind = kind; label = label; file = none; line = none }

abbrev edge : Text → Text → Text → BlastEdge
edge source target kind = record { source = source; target = target; kind = kind }

abbrev nodes : List BlastNode
nodes =
    node (codes "m:a") (codes "module") (codes "alpha")
    ∷ node (codes "m:b") (codes "module") (codes "beta")
    ∷ node (codes "t:c") (codes "table") (codes "Customers")
    ∷ []

-- beta depends on alpha, and alpha reads the table; the last edge is no impact edge.
abbrev edges : List BlastEdge
edges =
    edge (codes "m:b") (codes "m:a") (codes "depends_on")
    ∷ edge (codes "m:a") (codes "t:c") (codes "reads")
    ∷ edge (codes "m:b") (codes "t:c") (codes "owns")
    ∷ []

abbrev entry : Text → ImpactedNode
entry label = record { label = label; file = none; line = none }

abbrev result : BlastResult
result = record {
  target_id = codes "t:c";
  target_label = codes "Customers";
  impacted_modules = 2;
  impacted_apis = 0;
  impacted_tables = 0;
  impacted_symbols = 0;
  impacted_files = 0;
  impacted = entry (codes "alpha") ∷ entry (codes "beta") ∷ [];
  paths =
      (codes "Customers" ∷ codes "alpha" ∷ [])
      ∷ (codes "Customers" ∷ codes "alpha" ∷ codes "beta" ∷ [])
      ∷ [];
  risk_value = 10;
  risk = low;
}

runs : Unit {0}
unfolding blast_radius blast_search search_from index_from add_edge add_edges neighbors_in report
    categorize risk_score
runs = tt

blast_radius-run : blast_radius nodes edges (codes "t:c") downstream 3 ≡ answer (some result)
unfolding runs
blast_radius-run = refl

blast_radius-impacted_example :
    Elem (entry (codes "beta")) result.impacted
    ↔ IsListed nodes edges (codes "t:c") downstream 3 (entry (codes "beta"))
blast_radius-impacted_example =
    blast_radius-impacted nodes edges (codes "t:c") downstream 3 result (entry (codes "beta"))
      blast_radius-run

blast_radius_total_example :
    (((n : BlastNode) → Elem n nodes → n.id ≢ codes "m:a")
      → blast_radius nodes edges (codes "m:a") downstream 3 ≡ answer none)
    × ((n : BlastNode)
        → Elem n nodes
        → n.id ≡ codes "m:a"
        → (r : BlastResult) × (blast_radius nodes edges (codes "m:a") downstream 3
            ≡ answer (some r)))
blast_radius_total_example = blast_radius_total nodes edges (codes "m:a") downstream 3

abbrev found : Search Text
found = record {
  visited = codes "m:a" ∷ codes "m:b" ∷ [];
  paths = (codes "t:c" ∷ codes "m:a" ∷ []) ∷ (codes "t:c" ∷ codes "m:a" ∷ codes "m:b" ∷ []) ∷ [];
  queue = [];
}

risk_score_mono_example :
    ((risk_score 2 0 1 3 false).0 ≤ (risk_score 9 1 1 3 false).0)
    × (rank (risk_score 2 0 1 3 false).1 ≤ rank (risk_score 9 1 1 3 false).1)
risk_score_mono_example =
    risk_score_mono 2 0 1 3 9 1 1 3 false (omega arith) (omega arith) (omega arith) (omega arith)

risk_score_bands_example :
    ((risk_score 9 1 1 3 true).0 ≤ 100)
    × ((1 ≤ rank (risk_score 9 1 1 3 true).1) ↔ (25 ≤ (risk_score 9 1 1 3 true).0))
    × ((2 ≤ rank (risk_score 9 1 1 3 true).1) ↔ (50 ≤ (risk_score 9 1 1 3 true).0))
    × ((3 ≤ rank (risk_score 9 1 1 3 true).1) ↔ (75 ≤ (risk_score 9 1 1 3 true).0))
risk_score_bands_example = risk_score_bands 9 1 1 3 true

risk_score-run : risk_score 9 1 1 3 true ≡ (75, critical)
unfolding risk_score
risk_score-run = refl

levenshtein-run : levenshtein (codes "kitten") (codes "sitting") ≡ 3
unfolding levenshtein
levenshtein-run = refl

levenshtein_minimal_example :
    Script (codes "beta") (codes "beat") (levenshtein (codes "beta") (codes "beat"))
    × ((n : ℕ)
        → Script (codes "beta") (codes "beat") n
        → levenshtein (codes "beta") (codes "beat") ≤ n)
levenshtein_minimal_example = levenshtein_minimal (codes "beta") (codes "beat")

abbrev customers : BlastNode
customers = node (codes "t:c") (codes "table") (codes "Customers")

abbrev suggestion : Scored
suggestion = record {
  distance = 1;
  references = 1;
  label = codes "alpha";
  node = node (codes "m:a") (codes "module") (codes "alpha");
}

scored_targets-IsSuggestion_example :
    (needle : Text) × IsNeedle (codes "alpa") needle
    × InOrder (scored_targets (codes "alpa") nodes edges)
    × ((s : Scored)
        → Elem s (scored_targets (codes "alpa") nodes edges) ↔ IsSuggestion needle nodes edges s)
scored_targets-IsSuggestion_example = scored_targets-IsSuggestion (codes "alpa") nodes edges

scored_targets-run : scored_targets (codes "alpa") nodes edges ≡ suggestion ∷ []
unfolding scored_targets label_distance levenshtein budget count_incoming is_impact_edge
scored_targets-run = refl

-- ===== src/Graph/Blast/Target/Laws.antt =====
-- What `resolve_target` finds, and that it reads back what `target_syntax` writes.
use ovecc.Prelude.{◌≡◌, ◌≢◌, ◌⊎◌, none, nat_eq}
use ovecc.Text.{Text, codes, strip_prefix}
use ovecc.Graph.Blast.{BlastNode, api, table, categorize}

-- A node whose label could not be taken for another kind of target.
abbrev pub IsTypable : BlastNode → Type 0
IsTypable n =
    (categorize n.kind ≡ table)
    ⊎ (categorize n.kind ≡ api)
    ⊎ (categorize n.kind ≢ table)
      × (categorize n.kind ≢ api)
      × (strip_prefix (codes "table:") n.label ≡ none)
      × (strip_prefix (codes "api:") n.label ≡ none)

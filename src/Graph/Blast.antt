-- ===== src/Graph/Blast.antt =====
-- crates/ovecc-graph/src/blast.rs: the nodes and edges of the persisted graph, their categories
-- and the risk score. The children hold target resolution, the edit distance behind its
-- suggestions, and the blast radius itself.
pub mod Target
pub mod Distance
pub mod Suggest
pub mod Radius
pub mod Reach
pub mod Impacted
pub mod Risk
mod Tests
use ovecc.Prelude.{
  ℕ, ◌+◌, ◌*◌, Bool, true, false, Option, none, some, List, [], ◌∷◌, ◌++◌, if◌then◌else◌, leb,
  contains, list_eq, nat_eq, min,
}
use ovecc.Text.{Text, codes}
use ovecc.Core.Legacy.{RiskLevel, low, medium, high, critical}

pub record BlastNode : Type 0 where
  pub id : Text
  pub kind : Text
  pub label : Text
  pub file : Option Text
  pub line : Option ℕ

pub record BlastEdge : Type 0 where
  pub source : Text
  pub target : Text
  pub kind : Text

pub record ImpactedNode : Type 0 where
  pub label : Text
  pub file : Option Text
  pub line : Option ℕ

pub record BlastResult : Type 0 where
  pub target_id : Text
  pub target_label : Text
  pub impacted_modules : ℕ
  pub impacted_apis : ℕ
  pub impacted_tables : ℕ
  pub impacted_symbols : ℕ
  pub impacted_files : ℕ
  pub impacted : List ImpactedNode
  pub paths : List (List Text)
  pub risk_value : ℕ
  pub risk : RiskLevel

abbrev pub impact_edge_kinds : List Text
impact_edge_kinds =
    codes "depends_on"
    ∷ codes "calls"
    ∷ codes "reads"
    ∷ codes "writes"
    ∷ codes "exposes"
    ∷ codes "handles"
    ∷ []

pub data Category : Type 0 where
  module_kind api table symbol file_kind other : Category

unfoldable pub categorize : Text → Category
categorize kind =
    if contains kind (codes "module" ∷ codes "namespace" ∷ [])
    then module_kind
    else if contains kind (codes "api" ∷ codes "route" ∷ codes "rpc_method" ∷ codes "event" ∷ [])
    then api
    else if contains kind (codes "table" ∷ codes "view" ∷ codes "column" ∷ [])
    then table
    else if contains kind (
        codes "symbol"
        ∷ codes "function"
        ∷ codes "class"
        ∷ codes "trait"
        ∷ codes "interface"
        ∷ codes "type"
        ∷ [])
    then symbol
    else if contains kind (codes "file" ∷ [])
    then file_kind
    else other

-- The derived equality of `Category`.
abbrev pub category_eqb : Category → Category → Bool
category_eqb module_kind module_kind = true
category_eqb api api = true
category_eqb table table = true
category_eqb symbol symbol = true
category_eqb file_kind file_kind = true
category_eqb other other = true
category_eqb _ _ = false

abbrev pub risk_raw : ℕ → ℕ → ℕ → ℕ → Bool → ℕ
risk_raw modules apis tables symbols in_cycle =
    modules * 5 + apis * 6 + tables * 6 + symbols + (if in_cycle then 15 else 0)

unfoldable pub risk_score : ℕ → ℕ → ℕ → ℕ → Bool → ℕ × RiskLevel
risk_score modules apis tables symbols in_cycle =
    let raw = risk_raw modules apis tables symbols in_cycle in
    let level : RiskLevel =
      if leb raw 24
      then low
      else if leb raw 49
      then medium
      else if leb raw 74
      then high
      else critical in
    (min raw 100, level)

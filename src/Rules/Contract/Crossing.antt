-- ===== src/Rules/Contract/Crossing.antt =====
-- Which dependencies contract.rs judges as imports from one component into another, and where
-- `classify_edge` puts them.
use ovecc.Prelude.{
  ◌≡◌, ◌≢◌, ◌↔◌, inl, inr, refl, Bool, true, false, Option, none, some, List, arith, if◌then◌else◌,
  list_eqb, list_eqb_iff, nat_eq, list_eq, lookup, Bool-cases,
}
use ovecc.Text.{Text}
use ovecc.Core.Legacy.{DependencyRecord}
use ovecc.Rules.Contract.{ContractInput, Pair, EdgeGroups}
use ovecc.Rules.Contract.Classify.{
  prohibition, classify_crossing, classify_ends, classify_internal, classify_from, classify_edge,
  classify_external_capability, classify_external,
}

module _ {F : Type 0} (architecture : ContractInput F) where
  -- A dependency of this repository from a file of the first component to the file, of the second.
  abbrev pub Crosses : DependencyRecord → Pair → Text → Type 0
  Crosses d pair path =
      (d.is_external ≡ false)
      × (d.target_file_path ≡ some path)
      × (lookup d.source_file_path architecture.component_of ≡ some pair.0)
      × (lookup path architecture.component_of ≡ some pair.1)
      × (pair.0 ≢ pair.1)

  -- The pair and the file, if there are such.
  abbrev pub crossing_to : Text → Option Text → Option Text → Option (Pair × Text)
  crossing_to path none target = none
  crossing_to path (some s) none = none
  crossing_to path (some s) (some t) = if list_eqb s t then none else some ((s, t), path)

  abbrev crossing_path : Option Text → Option Text → Option (Pair × Text)
  crossing_path source none = none
  crossing_path source (some path) = crossing_to path source (lookup path architecture.component_of)

  pub crossing : DependencyRecord → Option (Pair × Text)
  crossing d =
      if d.is_external
      then none
      else crossing_path (lookup d.source_file_path architecture.component_of) d.target_file_path

  crossing_to-some :
      (path : Text) (source target : Option Text) (pair : Pair) (to : Text)
      → (crossing_to path source target ≡ some (pair, to))
        ↔ ((path ≡ to) × (source ≡ some pair.0) × (target ≡ some pair.1) × (pair.0 ≢ pair.1))
  crossing_to-some path none target pair to = ground arith
  crossing_to-some path (some s) none pair to = ground arith
  crossing_to-some path (some s) (some t) pair to = ground (arith, list_eqb_iff s t)

  crossing_path-some :
      (source target : Option Text) (pair : Pair) (to : Text)
      → (crossing_path source target ≡ some (pair, to)) ↔ (
          (target ≡ some to)
          × (source ≡ some pair.0)
          × (lookup to architecture.component_of ≡ some pair.1)
          × (pair.0 ≢ pair.1))
  crossing_path-some source none pair to = ground arith
  crossing_path-some source (some path) pair to =
      ground (arith, crossing_to-some path source (lookup path architecture.component_of) pair to)

  pub crossing-some :
      (d : DependencyRecord) (pair : Pair) (path : Text)
      → (crossing d ≡ some (pair, path)) ↔ Crosses d pair path
  unfolding crossing
  crossing-some d pair path = ground (
    arith,
    crossing_path-some (lookup d.source_file_path architecture.component_of) d.target_file_path pair
        path,
  )

  -- What `classify_edge` makes of a dependency that crosses, in the groups for such.
  abbrev pub crossed :
      List (Text × List Text)
      → DependencyRecord
      → EdgeGroups F
      → Option (Pair × Text)
      → EdgeGroups F
  crossed interfaces d groups none = groups
  crossed interfaces d groups (some (pair, path)) =
      classify_crossing architecture interfaces (prohibition architecture.contract pair) pair path d
        groups

  -- The groups that only crossing dependencies change.
  pub record SameCrossings (g k : EdgeGroups F) : Type 0 where
    pub divergences : g.divergences ≡ k.divergences
    pub restricted : g.restricted ≡ k.restricted
    pub forbidden : g.forbidden ≡ k.forbidden
    pub bypasses : g.bypasses ≡ k.bypasses
    pub deprecated : g.deprecated ≡ k.deprecated
    pub observed : g.observed ≡ k.observed

  SameCrossings-refl : (g : EdgeGroups F) → SameCrossings g g
  SameCrossings-refl g = record {
    divergences = refl;
    restricted = refl;
    forbidden = refl;
    bypasses = refl;
    deprecated = refl;
    observed = refl;
  }

  module _ (interfaces : List (Text × List Text)) (d : DependencyRecord)
      (groups : EdgeGroups F) where
    ends_crossed :
        (path : Text) (source target : Option Text)
        → SameCrossings
            (classify_ends architecture interfaces source target path d groups)
            (crossed interfaces d groups (crossing_to path source target))
    unfolding classify_ends
    ends_crossed path none target = SameCrossings-refl groups
    ends_crossed path (some s) none = SameCrossings-refl groups
    ends_crossed path (some s) (some t) = elim (Bool-cases (list_eqb s t)) [
      | inl same ↦
          rw (same, crossing_to)
            (record {
              divergences = refl;
              restricted = refl;
              forbidden = refl;
              bypasses = refl;
              deprecated = refl;
              observed = refl;
            })
      | inr apart ↦ rw (apart, crossing_to) (SameCrossings-refl _)
    ]

    internal_crossed :
        (source target : Option Text)
        → SameCrossings
            (classify_internal architecture interfaces source target d groups)
            (crossed interfaces d groups (crossing_path source target))
    unfolding classify_internal
    internal_crossed source none = SameCrossings-refl groups
    internal_crossed source (some path) =
        ends_crossed path source (lookup path architecture.component_of)

    capability_crossed :
        (source : Text) (g : EdgeGroups F)
        → SameCrossings (classify_external_capability architecture source d g) g
    unfolding classify_external_capability
    capability_crossed source g = ground arith

    abbrev crossing_from : Bool → Option Text → Option (Pair × Text)
    crossing_from external source =
        if external then none else crossing_path source d.target_file_path

    from_crossed :
        (external : Bool) (source : Option Text)
        → SameCrossings
            (classify_from architecture interfaces external source d groups)
            (crossed interfaces d groups (crossing_from external source))
    unfolding classify_from
    from_crossed true none = SameCrossings-refl groups
    from_crossed true (some source) =
        let s =
          capability_crossed source
            (record groups { banned = classify_external architecture source d groups.banned }) in
        record {
          divergences = s.divergences;
          restricted = s.restricted;
          forbidden = s.forbidden;
          bypasses = s.bypasses;
          deprecated = s.deprecated;
          observed = s.observed;
        }
    from_crossed false source = internal_crossed source d.target_file_path

    pub edge_crossed :
        SameCrossings
          (classify_edge architecture interfaces d groups)
          (crossed interfaces d groups (crossing d))
    unfolding classify_edge crossing
    edge_crossed = from_crossed d.is_external (lookup d.source_file_path architecture.component_of)

-- ===== src/Rules/Contract/Sums.antt =====
-- `classify_coverage` of contract.rs: the floors of the components, and the sums of their coverage.
use ovecc.Prelude.{
  ◌≡◌, refl, sym, ap, ◌∙◌, subst, inl, inr, Bool, true, false, Option, none, some, List, [], ◌∷◌,
  if◌then◌else◌, lookup, map_insert, lookup-map_insert, map_entry, lookup-map_entry,
  lookup-map_entry_other, Ascending, Ascending-map_entry, value_or, list_eqb, list_eqb_iff, list_eq,
  nat_eq, list_ord, nat_ord, Bool-cases, Option-cases,
}
use ovecc.Text.{Text, is_some}
use ovecc.Core.Coverage.{FileCoverage, CoverageTotals, no_coverage, add}
use ovecc.Core.Architecture.{ComponentSpec}
use ovecc.Rules.Contract.{ContractInput}
use ovecc.Rules.Contract.Measures.{floors_from, measured_from}

module _ {F : Type 0} (architecture : ContractInput F) where
  -- The floor that the last component of the name with a floor declares.
  abbrev pub floor_of : Text → Option F → List (ComponentSpec F) → Option F
  floor_of name found [] = found
  floor_of name found (c ∷ cs) =
      floor_of name
        (elim c.min_coverage [
          | none ↦ found
          | some floor ↦ if list_eqb name c.name then some floor else found
        ])
        cs

  abbrev owned : Text → Option Text → Bool
  owned name none = false
  owned name (some owner) = list_eqb name owner

  -- The coverage of the component's files, summed.
  abbrev pub sum_of : Text → CoverageTotals → List FileCoverage → CoverageTotals
  sum_of name totals [] = totals
  sum_of name totals (file ∷ files) =
      sum_of name
        (if owned name (lookup file.path architecture.component_of)
          then add totals file
          else totals)
        files

  pub lookup-floors_from :
      (name : Text) (floors : List (Text × F)) (cs : List (ComponentSpec F))
      → lookup name (floors_from architecture floors cs) ≡ floor_of name (lookup name floors) cs
  lookup-floors_from name floors [] = refl
  lookup-floors_from name floors (c ∷ cs) = elim (Option-cases c.min_coverage) [
    | inl nowhere ↦ rw nowhere (lookup-floors_from name floors cs)
    | inr (floor, there) ↦ rw there (
        lookup-floors_from name (map_insert c.name floor floors) cs
        ∙ ap (λ found. floor_of name found cs) (lookup-map_insert c.name name floor floors))
  ]

  value-map_entry :
      (name owner : Text) (file : FileCoverage) (m : List (Text × CoverageTotals))
      → Ascending m
      → value_or no_coverage (lookup name (map_entry owner no_coverage (λ t. add t file) m)) ≡ (
          if list_eqb name owner
          then add (value_or no_coverage (lookup name m)) file
          else value_or no_coverage (lookup name m))
  value-map_entry name owner file m up = elim (Bool-cases (list_eqb name owner)) [
    | inl same ↦ rw same (
        subst
          (λ k.
            value_or no_coverage (lookup k (map_entry owner no_coverage (λ t. add t file) m))
            ≡ add (value_or no_coverage (lookup k m)) file)
          (sym ((list_eqb_iff name owner).0 same))
          (ap (value_or no_coverage) (lookup-map_entry owner no_coverage (λ t. add t file) m up)))
    | inr apart ↦ rw apart (
        ap (value_or no_coverage) (
          lookup-map_entry_other owner name no_coverage (λ t. add t file) m
            (λ e. cc (apart, (list_eqb_iff name owner).1 e))))
  ]

  pub Ascending-measured_from :
      (floors : List (Text × F)) (m : List (Text × CoverageTotals)) (files : List FileCoverage)
      → Ascending m
      → Ascending (measured_from architecture floors m files)
  Ascending-measured_from floors m [] up = up
  Ascending-measured_from floors m (file ∷ files) up =
      elim (Option-cases (lookup file.path architecture.component_of)) [
        | inl nobody ↦ rw nobody (Ascending-measured_from floors m files up)
        | inr (owner, at) ↦ elim (Bool-cases (is_some (lookup owner floors))) [
          | inr without ↦ rw (at, without) (Ascending-measured_from floors m files up)
          | inl floored ↦
              rw (at, floored)
                (Ascending-measured_from floors (map_entry owner no_coverage (λ t. add t file) m)
                  files (Ascending-map_entry owner no_coverage (λ t. add t file) m up))
        ]
      ]

  pub lookup-measured_from :
      (name : Text) (floors : List (Text × F)) (m : List (Text × CoverageTotals))
      (files : List FileCoverage)
      → Ascending m
      → is_some (lookup name floors) ≡ true
      → value_or no_coverage (lookup name (measured_from architecture floors m files))
        ≡ sum_of name (value_or no_coverage (lookup name m)) files
  lookup-measured_from name floors m [] up has = refl
  lookup-measured_from name floors m (file ∷ files) up has =
      elim (Option-cases (lookup file.path architecture.component_of)) [
        | inl nobody ↦ rw nobody (lookup-measured_from name floors m files up has)
        | inr (owner, at) ↦ elim (Bool-cases (is_some (lookup owner floors))) [
          | inr without ↦
              rw (at, without)
                (let apart : list_eqb name owner ≡ false = elim (Bool-cases (list_eqb name owner)) [
                  | inl same ↦ cc (
                    has,
                    without,
                    ap (λ k. is_some (lookup k floors)) ((list_eqb_iff name owner).0 same),
                  )
                  | inr apart ↦ apart
                ] in
                  rw apart (lookup-measured_from name floors m files up has))
          | inl floored ↦
              rw (at, floored)
                (lookup-measured_from name floors (map_entry owner no_coverage (λ t. add t file) m)
                    files (Ascending-map_entry owner no_coverage (λ t. add t file) m up) has
                  ∙ ap (λ totals. sum_of name totals files) (value-map_entry name owner file m up))
        ]
      ]

-- ===== src/Rules/Contract/Coupling.antt =====
-- `classify_coupling` of contract.rs: which components are reported as coupled, by which files.
pub mod Keys
pub mod Strangers
use ovecc.Prelude.{
  ◌≡◌, refl, sym, ap, ◌∙◌, Bool, true, false, Option, none, some, List, [], ◌∷◌, ◌++◌, append_assoc,
  append-nil, arith, if◌then◌else◌, ◌==◌, leb, length, lookup, keep_if, Ascending,
  Ascending-push_group, lookup-push_group, lookup-retain, value_or, pair_ord, pair_eq, list_ord,
  list_eq, nat_ord, nat_eq, Bool-cases, Option-cases, inl, inr,
}
use ovecc.Text.{is_some}
use ovecc.Core.Legacy.{DependencyRecord}
use ovecc.Core.Facts.{CoChangedPair, FunctionMetricsRow}
use ovecc.Core.Coverage.{Floats}
use ovecc.Core.Architecture.{severity}
use ovecc.Rules.Contract.{ContractInput, Pair, EdgeGroups, no_groups}
use ovecc.Rules.Contract.Classify.{classify_dependencies, declared_interfaces}
use ovecc.Rules.Contract.Requirements.{classify_required}
use ovecc.Rules.Contract.Measures.{
  classify_capability_facts, classify_budgets, classify_coverage, classify_coupling, classify_edges,
  key_of, owner_of, push_coupled, couple, connected_by, min_coupled_file_pairs,
}
use ovecc.Rules.Contract.Edges.{coupling_keeps}
use ovecc.Rules.Contract.Leaves.{dependencies_leave, capabilities_leave}

abbrev pub is_key : Pair → Option Pair → Bool
is_key q none = false
is_key q (some key) = q == key

module _ {F : Type 0} (architecture : ContractInput F) where
  -- The co-changed files, in order, whose components are those two and not connected.
  abbrev strangers : List Pair → Pair → List (CoChangedPair F)
  strangers connected q =
      keep_if (λ pair. is_key q (key_of architecture connected pair)) architecture.co_changes

  push_coupled_lem :
      (o : Option Pair) (pair : CoChangedPair F) (m : List (Pair × List (CoChangedPair F)))
      (q : Pair)
      → Ascending m
      → Ascending (push_coupled architecture o pair m)
        × (value_or [] (lookup q (push_coupled architecture o pair m))
            ≡ value_or [] (lookup q m) ++ (if is_key q o then pair ∷ [] else []))
  push_coupled_lem none pair m q up = (up, sym (append-nil (value_or [] (lookup q m))))
  push_coupled_lem (some key) pair m q up =
      (Ascending-push_group key pair m up, lookup-push_group key q pair m up)

  joined :
      (b : Bool) (pair : CoChangedPair F) (kept : List (CoChangedPair F))
      → (if b then pair ∷ [] else []) ++ kept ≡ (if b then pair ∷ kept else kept)
  joined true pair kept = refl
  joined false pair kept = refl

  couple_lem :
      (connected : List Pair) (pairs : List (CoChangedPair F))
      (m : List (Pair × List (CoChangedPair F))) (q : Pair)
      → Ascending m
      → Ascending (couple architecture connected pairs m)
        × (value_or [] (lookup q (couple architecture connected pairs m))
            ≡ value_or [] (lookup q m)
              ++ keep_if (λ pair. is_key q (key_of architecture connected pair)) pairs)
  couple_lem connected [] m q up = (up, sym (append-nil (value_or [] (lookup q m))))
  couple_lem connected (pair ∷ pairs) m q up =
      let o = key_of architecture connected pair in
      let (next, step) = push_coupled_lem o pair m q up in
      let (last, rest) = couple_lem connected pairs (push_coupled architecture o pair m) q next in
      let kept = keep_if (λ pair. is_key q (key_of architecture connected pair)) pairs in
      (
        last,
        rest
            ∙ ap (λ vs. vs ++ kept) step
            ∙ append_assoc (value_or [] (lookup q m)) (if is_key q o then pair ∷ [] else []) kept
            ∙ ap (λ vs. value_or [] (lookup q m) ++ vs) (joined (is_key q o) pair kept),
      )

  required_uncoupled :
      (ds : List DependencyRecord) (g : EdgeGroups F)
      → (classify_required architecture ds g).coupling ≡ g.coupling
  unfolding classify_required
  required_uncoupled ds g = ground arith

  budgets_uncoupled :
      (rows : List FunctionMetricsRow) (g : EdgeGroups F)
      → (classify_budgets architecture rows g).coupling ≡ g.coupling
  unfolding classify_budgets
  budgets_uncoupled [] g = refl
  budgets_uncoupled (row ∷ rows) g = elim (Option-cases (owner_of architecture row.file_path)) [
    | inl nobody ↦ rw (nobody, classify_budgets) (budgets_uncoupled rows g)
    | inr ((name, spec), owned) ↦ rw (owned, classify_budgets) (budgets_uncoupled rows _ ∙ refl)
  ]

  coverage_uncoupled :
      (n : Floats F) (g : EdgeGroups F) → (classify_coverage architecture n g).coupling ≡ g.coupling
  unfolding classify_coverage
  coverage_uncoupled n g = refl

  -- What is reported of two components, by the files that couple them.
  abbrev reported : List (CoChangedPair F) → Option (List (CoChangedPair F))
  reported pairs = if leb min_coupled_file_pairs (length pairs) then some pairs else none

  coupling_lem :
      (g : EdgeGroups F) (q : Pair)
      → g.coupling ≡ []
      → lookup q (classify_coupling architecture g).coupling ≡ (
          if is_some (severity architecture.contract.coupling)
          then reported (strangers (connected_by architecture g) q)
          else none)
  unfolding classify_coupling
  coupling_lem g q before =
      let coupled = couple architecture (connected_by architecture g) architecture.co_changes [] in
      let (up, all) = couple_lem (connected_by architecture g) architecture.co_changes [] q tt in
      elim (Bool-cases (is_some (severity architecture.contract.coupling))) [
        | inl judged ↦
            rw (judged, before)
              (lookup-retain min_coupled_file_pairs q coupled (ground arith) up ∙ ap reported all)
        | inr silenced ↦ rw (silenced, before) refl
      ]

  -- If the contract reports coupling, two components are reported with the co-changed files whose
  -- key they are, and only if there are at least two such pairs of files; and if not, none are.
  pub classify_edges-coupling :
      (n : Floats F) (ds : List DependencyRecord) (q : Pair)
      → lookup q (classify_edges architecture n ds).coupling ≡ (
          if is_some (severity architecture.contract.coupling)
          then reported (strangers (connected_by architecture (classify_edges architecture n ds)) q)
          else none)
  unfolding classify_edges
  classify_edges-coupling n ds q =
      let interfaces = declared_interfaces architecture.contract in
      let edges = classify_dependencies architecture interfaces ds no_groups in
      let required = classify_required architecture ds edges in
      let uses = classify_capability_facts architecture architecture.capability_uses required in
      let budgets = classify_budgets architecture architecture.functions uses in
      let covered = classify_coverage architecture n budgets in
      let before : covered.coupling ≡ [] =
        coverage_uncoupled n budgets
        ∙ budgets_uncoupled architecture.functions uses
        ∙ (capabilities_leave architecture architecture.capability_uses required).coupling
        ∙ required_uncoupled ds edges
        ∙ (dependencies_leave architecture interfaces ds no_groups).coupling in
      let kept = coupling_keeps architecture covered in
      let same : connected_by architecture covered
          ≡ connected_by architecture (classify_edges architecture n ds) =
        cc (kept.observed, kept.divergences, kept.bypasses) in
      coupling_lem covered q before
      ∙ ap
          (λ connected.
            if is_some (severity architecture.contract.coupling)
            then reported (strangers connected q)
            else none)
          same

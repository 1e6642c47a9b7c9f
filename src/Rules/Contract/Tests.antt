-- ===== src/Rules/Contract/Tests.antt =====
-- Runs of the contract check on a small repository, and its theorems there.
mod Measured
mod External
use ovecc.Prelude.{
  ℕ, ◌≡◌, ◌≢◌, refl, inl, inr, false, none, some, [], ◌∷◌, ok, Elem, ⊎_elim, Holds, Distinct, map,
  ◌↔◌, lookup, if◌then◌else◌, pair_eq, list_eq, nat_eq,
}
use ovecc.Text.{Text, codes, is_some}
use ovecc.Core.Legacy.{DependencyRecord}
use ovecc.Core.Architecture.{
  ComponentSpec, EnforcementMode, severity, component, target_of, baseline_entry, is_deprecated,
}
use ovecc.Core.Architecture.Validate.{validate}
use ovecc.Core.Architecture.Validity.{Declares}
use ovecc.Core.Architecture.Samples.{
  contract_of, component_at, percent, compile_glob, store, api, open_contract,
}
use ovecc.Core.Facts.{FunctionMetricsRow, CoChangedPair}
use ovecc.Rules.Contract.Budgets.{Reported, classify_edges-Reported}
use ovecc.Rules.Contract.Required.{Omits, classify_edges-Omits}
use ovecc.Rules.Contract.{ContractInput}
use ovecc.Rules.Contract.Classify.{prohibition, classify_bypass}
use ovecc.Rules.Contract.Measures.{classify_edges, over_budget, connected_by}
use ovecc.Rules.Contract.Baseline.{violation_entries, prune_baselined, judged_groups}
use ovecc.Rules.Contract.Freeze.{accepted, Recorded, judged_groups-violation_entries}
use ovecc.Rules.Contract.Prune.{Pruned, prune_baselined-Pruned}
use ovecc.Rules.Contract.Prohibitions.{prohibition-Declares}
use ovecc.Rules.Contract.Collected.{Verdicts, classify_edges-Verdicts}

abbrev pub import : Text → Text → Text → DependencyRecord
import source target specifier = record {
  id = [];
  repository_id = [];
  source_file_id = [];
  target_file_id = none;
  source_file_path = source;
  target_file_path = some target;
  source_module_id = [];
  target_module_id = [];
  source_module = [];
  target_module = [];
  specifier = specifier;
  dependency_kind = codes "static_import";
  is_external = false;
  evidence_line = 1;
}

-- `api` may reach `store`, but not the other way round.
abbrev pub allowed_import : DependencyRecord
allowed_import = import (codes "src/a.ts") (codes "src/store/db.ts") (codes "./store/db")

abbrev pub back_import : DependencyRecord
back_import = import (codes "src/store/db.ts") (codes "src/a.ts") (codes "../a")

abbrev pub repository : ContractInput ℕ
repository = record {
  contract = open_contract;
  component_of = (codes "src/a.ts", codes "api") ∷ (codes "src/store/db.ts", codes "store") ∷ [];
  files = codes "src/a.ts" ∷ codes "src/store/db.ts" ∷ [];
  baseline = [];
  slice_of = [];
  capability_uses = [];
  functions = [];
  co_changes = [];
  coverage = [];
}

abbrev back_line : Text
back_line = codes "divergence\tsrc/store/db.ts\t../a"

classify_edges-run :
    ((classify_edges repository percent (allowed_import ∷ back_import ∷ [])).divergences
      ≡ ((codes "store", codes "api"), back_import ∷ []) ∷ [])
    × ((classify_edges repository percent (allowed_import ∷ back_import ∷ [])).observed
        ≡ (codes "api", codes "store") ∷ [])
unfolding classify_edges component target_of
classify_edges-run = (refl, refl)

violation_entries-run :
    violation_entries percent repository (allowed_import ∷ back_import ∷ [])
    ≡ (codes "store", back_line ∷ []) ∷ []
unfolding violation_entries classify_edges component target_of baseline_entry is_deprecated
    classify_bypass
violation_entries-run = refl

open_contract-accepted : validate percent compile_glob open_contract ≡ ok tt
unfolding validate target_of
open_contract-accepted = refl

api-Declares : Declares api (codes "store")
unfolding target_of
api-Declares = inl (inl refl)

prohibition-Declares_example : prohibition open_contract (codes "api", codes "store") ≡ none
prohibition-Declares_example =
    prohibition-Declares percent compile_glob open_contract api (store (codes "api" ∷ []))
      open_contract-accepted (inl refl) (inr (inl refl)) names_differ api-Declares
  where
    names_differ : api.name ≢ (store (codes "api" ∷ [])).name
    names_differ e = cc

classify_edges-Verdicts_example :
    Verdicts repository
      (allowed_import ∷ back_import ∷ [])
      (classify_edges repository percent (allowed_import ∷ back_import ∷ []))
classify_edges-Verdicts_example =
    classify_edges-Verdicts repository percent (allowed_import ∷ back_import ∷ [])

prune_baselined-Pruned_example :
    Pruned
      (back_line ∷ [])
      (classify_edges repository percent (back_import ∷ []))
      (prune_baselined (classify_edges repository percent (back_import ∷ [])) (back_line ∷ []))
prune_baselined-Pruned_example =
    prune_baselined-Pruned (classify_edges repository percent (back_import ∷ [])) (back_line ∷ [])

-- The same repository in new-violations mode, with that import accepted.
abbrev frozen : ContractInput ℕ
frozen = record repository {
  contract = record open_contract { mode = EnforcementMode.new_violations };
  baseline = back_line ∷ [];
}

violation_entries-frozen :
    violation_entries percent frozen (allowed_import ∷ back_import ∷ [])
    ≡ (codes "store", back_line ∷ []) ∷ []
unfolding violation_entries classify_edges component target_of baseline_entry is_deprecated
    classify_bypass
violation_entries-frozen = refl

recorded :
    (l : Text)
    → Recorded l (violation_entries percent frozen (allowed_import ∷ back_import ∷ []))
    → Elem l frozen.baseline
recorded l m =
    let m2 : Recorded l ((codes "store", back_line ∷ []) ∷ []) = rw violation_entries-frozen at m in
    ⊎_elim (λ h. h) (λ x. absurd x) m2

judged_groups-violation_entries_example :
    judged_groups percent frozen (allowed_import ∷ back_import ∷ [])
    ≡ some (accepted (classify_edges frozen percent (allowed_import ∷ back_import ∷ [])))
judged_groups-violation_entries_example =
    judged_groups-violation_entries percent frozen (allowed_import ∷ back_import ∷ []) (λ e. cc)
      recorded

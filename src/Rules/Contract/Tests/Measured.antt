-- ===== src/Rules/Contract/Tests/Measured.antt =====
-- Runs of the verdicts that need more than one dependency, and the theorems on them there.
use ovecc.Prelude.{
  ℕ, ◌≡◌, refl, none, some, [], ◌∷◌, Elem, ⊎_elim, Holds, Distinct, map, ◌↔◌, lookup, if◌then◌else◌,
  leb, length, List, pair_eq, list_eq, nat_eq,
}
use ovecc.Text.{Text, codes, is_some}
use ovecc.Core.Legacy.{DependencyRecord}
use ovecc.Core.Architecture.{target_of, ComponentSpec, severity, component}
use ovecc.Core.Architecture.Samples.{store, contract_of, component_at, percent}
use ovecc.Core.Facts.{FunctionMetricsRow, CoChangedPair}
use ovecc.Rules.Contract.Coupling.Strangers.{Selected, IsStranger, classify_edges-IsStranger}
use ovecc.Core.Coverage.{no_coverage}
use ovecc.Rules.Contract.Sums.{floor_of, sum_of}
use ovecc.Rules.Contract.Floors.{verdict, classify_edges-verdict}
use ovecc.Rules.Contract.Budgets.{Reported, classify_edges-Reported}
use ovecc.Rules.Contract.Required.{Omits, classify_edges-Omits}
use ovecc.Rules.Contract.{ContractInput}
use ovecc.Rules.Contract.Measures.{classify_edges, over_budget}
use ovecc.Rules.Contract.Tests.{import, allowed_import, back_import, repository}

abbrev long_function : FunctionMetricsRow
long_function = record {
  file_path = codes "src/a.ts";
  qualified_name = codes "run";
  line = 3;
  cyclomatic = 12;
  cognitive = 4;
}

-- Each function has a budget of ten, and `api` must import `store`.
abbrev measured : ContractInput ℕ
measured = record repository {
  contract = contract_of (
      record (component_at (codes "api") (codes "src/**")) { must_depend_on = codes "store" ∷ [] }
      ∷ component_at (codes "store") (codes "src/store/**")
      ∷ []);
  functions = long_function ∷ [];
  co_changes = [];
}

classify_edges-budgets :
    (classify_edges measured percent (back_import ∷ [])).budgets
    ≡ ((codes "api", codes "cyclomatic"), (long_function, 10) ∷ []) ∷ []
unfolding classify_edges component over_budget
classify_edges-budgets = refl

abbrev own_import : DependencyRecord
own_import = import (codes "src/a.ts") (codes "src/a.ts") (codes "./a")

classify_edges-required :
    (classify_edges measured percent (own_import ∷ [])).required
    ≡ ((codes "api", codes "store"), codes "src/a.ts" ∷ []) ∷ []
unfolding classify_edges component over_budget
classify_edges-required = refl

classify_edges-Reported_example :
    Holds
      (codes "api", codes "cyclomatic")
      (long_function, 10)
      (classify_edges measured percent (back_import ∷ [])).budgets
    ↔ (Elem long_function measured.functions
        × Reported measured long_function (codes "api", codes "cyclomatic") 10)
classify_edges-Reported_example =
    classify_edges-Reported measured percent (back_import ∷ []) (codes "api", codes "cyclomatic")
      long_function 10

measured-Distinct : Distinct (map (λ (c : ComponentSpec ℕ). c.name) measured.contract.components)
measured-Distinct = (λ m. ⊎_elim (λ e. cc) (λ x. absurd x) m, (λ m. absurd m, tt))

classify_edges-Omits_example :
    Holds
      (codes "api", codes "store")
      (codes "src/a.ts")
      (classify_edges measured percent (own_import ∷ [])).required
    ↔ Omits measured (own_import ∷ []) (codes "src/a.ts") (codes "api") (codes "store")
classify_edges-Omits_example =
    classify_edges-Omits measured (own_import ∷ []) percent (codes "src/a.ts") (codes "api")
      (codes "store") measured-Distinct

abbrev change : Text → Text → CoChangedPair ℕ
change left right = record {
  left = left;
  right = right;
  support = 5;
  jaccard = 60;
  lift = 3;
  confidence_left_to_right = 80;
  confidence_right_to_left = 70;
  commits = [];
}

abbrev first_change : CoChangedPair ℕ
first_change = change (codes "src/a.ts") (codes "src/store/db.ts")

abbrev second_change : CoChangedPair ℕ
second_change = change (codes "src/store/db.ts") (codes "src/b.ts")

-- Two components that change together, though neither declares or imports the other.
abbrev coupled : ContractInput ℕ
coupled = record repository {
  contract = contract_of (
      component_at (codes "api") (codes "src/**")
      ∷ component_at (codes "store") (codes "src/store/**")
      ∷ []);
  component_of =
      (codes "src/a.ts", codes "api")
      ∷ (codes "src/b.ts", codes "api")
      ∷ (codes "src/store/db.ts", codes "store")
      ∷ [];
  co_changes = first_change ∷ second_change ∷ [];
}

classify_edges-coupled :
    lookup (codes "api", codes "store") (classify_edges coupled percent []).coupling
    ≡ some (first_change ∷ second_change ∷ [])
unfolding classify_edges component severity
classify_edges-coupled = refl

classify_edges-IsStranger_example :
    (pairs : List (CoChangedPair ℕ)) × Selected
      (IsStranger coupled (classify_edges coupled percent []) (codes "api", codes "store"))
      coupled.co_changes
      pairs
    × (lookup (codes "api", codes "store") (classify_edges coupled percent []).coupling ≡ (
        if is_some (severity coupled.contract.coupling)
        then (if leb 2 (length pairs) then some pairs else none)
        else none))
classify_edges-IsStranger_example =
    classify_edges-IsStranger coupled percent [] (codes "api", codes "store")

-- The same with a store that admits nobody, and an import of it: restricted, and coupled as well.
abbrev closed : ContractInput ℕ
closed = record coupled {
  contract =
      contract_of (component_at (codes "api") (codes "src/**") ∷ store (codes "web" ∷ []) ∷ []);
}

classify_edges-closed :
    ((classify_edges closed percent (allowed_import ∷ [])).restricted
      ≡ ((codes "api", codes "store"), allowed_import ∷ []) ∷ [])
    × (lookup
          (codes "api", codes "store")
          (classify_edges closed percent (allowed_import ∷ [])).coupling
        ≡ some (first_change ∷ second_change ∷ []))
unfolding classify_edges component severity over_budget target_of
classify_edges-closed = (refl, refl)

-- Of ten lines of `api` seven are covered, against a floor of eighty percent.
abbrev covered : ContractInput ℕ
covered = record measured {
  coverage =
      record {
        path = codes "src/a.ts";
        lines_found = 10;
        lines_hit = 7;
        functions_found = 1;
        functions_hit = 1;
      }
      ∷ [];
}

classify_edges-coverage :
    lookup (codes "api") (classify_edges covered percent []).coverage
    ≡ some (record { lines_found = 10; lines_hit = 7 }, 80)
unfolding classify_edges component over_budget
classify_edges-coverage = refl

classify_edges-verdict_example :
    lookup (codes "api") (classify_edges covered percent []).coverage
    ≡ verdict covered percent
        (floor_of covered (codes "api") none covered.contract.components)
        (sum_of covered (codes "api") no_coverage covered.coverage)
classify_edges-verdict_example = classify_edges-verdict covered percent [] (codes "api")

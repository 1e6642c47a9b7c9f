-- ===== src/Rules/Contract/Tests/External.antt =====
-- Runs of the check of external imports, and the theorem on them there.
use ovecc.Prelude.{ℕ, ◌≡◌, ◌↔◌, refl, true, false, none, [], ◌∷◌, Elem, Holds}
use ovecc.Text.{codes}
use ovecc.Core.Legacy.{DependencyRecord, is_external_package}
use ovecc.Core.Facts.{of_module_specifier}
use ovecc.Core.Architecture.{component}
use ovecc.Rules.Specifier.{specifier_matches}
use ovecc.Core.Architecture.Samples.{percent, component_at, contract_of}
use ovecc.Rules.Contract.{ContractInput}
use ovecc.Rules.Contract.Measures.{classify_edges}
use ovecc.Rules.Contract.Banned.{IsBanned, classify_edges-IsBanned}
use ovecc.Rules.Contract.Tests.{import, repository}

abbrev package_import : DependencyRecord
package_import = record (import (codes "src/a.ts") [] (codes "lodash/fp")) { is_external = true }

abbrev denying : ContractInput ℕ
denying = record repository {
  contract = contract_of (
      record (component_at (codes "api") (codes "src/**")) {
        external_deny = codes "lodash*" ∷ codes "axios" ∷ [];
      }
      ∷ []);
}

classify_edges-banned :
    (classify_edges denying percent (package_import ∷ [])).banned
    ≡ ((codes "api", codes "lodash*"), package_import ∷ []) ∷ []
unfolding classify_edges component of_module_specifier specifier_matches
classify_edges-banned = refl

-- A path that resolves to no file is marked external as well.
abbrev missing_import : DependencyRecord
missing_import = record (import (codes "src/a.ts") [] (codes "./gen/pg")) {
  target_file_path = none;
  target_module = codes "unresolved:./gen/pg";
  is_external = true;
}

abbrev denying_infix : ContractInput ℕ
denying_infix = record repository {
  contract = contract_of (
      record (component_at (codes "api") (codes "src/**")) { external_deny = codes "*pg" ∷ [] }
      ∷ []);
}

classify_edges-missing :
    (is_external_package missing_import ≡ false)
    × ((classify_edges denying_infix percent (missing_import ∷ [])).banned
        ≡ ((codes "api", codes "*pg"), missing_import ∷ []) ∷ [])
unfolding classify_edges component of_module_specifier specifier_matches is_external_package
classify_edges-missing = (refl, refl)

classify_edges-IsBanned_example :
    Holds
      (codes "api", codes "lodash*")
      package_import
      (classify_edges denying percent (package_import ∷ [])).banned
    ↔ (Elem package_import (package_import ∷ [])
        × IsBanned denying package_import (codes "api", codes "lodash*"))
classify_edges-IsBanned_example =
    classify_edges-IsBanned denying percent (package_import ∷ []) (codes "api", codes "lodash*")
      package_import

-- ===== src/Core/Tests.antt =====
-- Runs of the record types of ovecc-core, and their theorems there.
use ovecc.Prelude.{◌≡◌, ◌↔◌, refl, true, false, none, some, [], ◌∷◌}
use ovecc.Text.{codes, trim}
use ovecc.Core.Ids.{hashed, hashed_iff}
use ovecc.Core.Query.{unquote, parse_target, api}
use ovecc.Core.Query.Laws.{written, parse_target-written}
use ovecc.Core.Legacy.{
  DependencyRecord, type_import, as_str, from_kind_str, external_module_name,
  unresolved_module_name, unindexed_module_name, is_unresolved, is_unindexed, is_external_package,
}
use ovecc.Core.Legacy.Laws.{from_kind_str_iff, is_external_package-target}

from_kind_str_iff_example :
    (from_kind_str (codes "type_import") ≡ some type_import)
    ↔ (codes "type_import" ≡ as_str type_import)
from_kind_str_iff_example = from_kind_str_iff (codes "type_import") type_import

abbrev react : DependencyRecord
react = record {
  id = [];
  repository_id = [];
  source_file_id = [];
  target_file_id = none;
  source_file_path = codes "src/a.ts";
  target_file_path = none;
  source_module_id = [];
  target_module_id = [];
  source_module = codes "src";
  target_module = codes "external:@scope/react";
  specifier = codes "@scope/react/dom";
  dependency_kind = codes "static_import";
  is_external = true;
  evidence_line = 1;
}

external_module_name-run :
    (external_module_name react.specifier ≡ react.target_module)
    × (is_external_package react ≡ true)
unfolding external_module_name is_external_package
external_module_name-run = (refl, refl)

is_external_package-target_example :
    (react.target_module ≡ external_module_name react.specifier
      → is_external_package react ≡ react.is_external)
    × (react.target_module ≡ unresolved_module_name react.specifier
        → (is_unresolved react ≡ true)
          × (is_unindexed react ≡ false)
          × (is_external_package react ≡ false))
    × (react.target_module ≡ unindexed_module_name react.specifier
        → (is_unresolved react ≡ false)
          × (is_unindexed react ≡ true)
          × (is_external_package react ≡ false))
is_external_package-target_example = is_external_package-target react react.specifier

parse_target-run :
    parse_target (codes " 'api:GET:/users/{id}' ") ≡ api (some (codes "GET")) (codes "/users/{id}")
unfolding parse_target
parse_target-run = refl

parse_target-written_example :
    written (parse_target (codes " 'api:GET:/users/{id}' "))
    ≡ unquote (trim (codes " 'api:GET:/users/{id}' "))
parse_target-written_example = parse_target-written (codes " 'api:GET:/users/{id}' ")

-- `ab`, `c` and `a`, `bc`.
hashed_iff_example :
    (hashed (codes "ab" ∷ codes "c" ∷ []) ≡ hashed (codes "a" ∷ codes "bc" ∷ []))
    ↔ (codes "ab" ∷ codes "c" ∷ [] ≡ codes "a" ∷ codes "bc" ∷ [])
hashed_iff_example =
    hashed_iff (codes "ab" ∷ codes "c" ∷ []) (codes "a" ∷ codes "bc" ∷ [])
      ((λ e. cc, (λ e. cc, tt)), ((λ e. cc, tt), tt))
      ((λ e. cc, tt), ((λ e. cc, (λ e. cc, tt)), tt))

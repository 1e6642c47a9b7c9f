-- ===== src/Core/Architecture/Tests.antt =====
-- Runs of the architecture contract on a small one, and its theorems there.
use ovecc.Core.Architecture.Samples.{
  percent, compile_glob, is_match, contract_of, store, api, open_contract,
}
use ovecc.Prelude.{◌≡◌, ◌↔◌, refl, true, false, List, [], ◌∷◌, ok, err}
use ovecc.Text.{Text, codes}
use ovecc.Core.Architecture.{target_of}
use ovecc.Core.Architecture.Validate.{validate, not_admitted, contested_file, names_unknown}
use ovecc.Core.Architecture.Validity.{IsValid}
use ovecc.Core.Architecture.Validity.Decides.{validate_iff}
use ovecc.Core.Architecture.Assign.{assign_components, assign_slices, x_notation_allows}
use ovecc.Core.Architecture.Assign.Owners.{Assigned, assign_components-Assigned}

validate-run :
    (validate percent compile_glob open_contract ≡ ok tt)
    × (validate percent compile_glob (contract_of (api ∷ store [] ∷ []))
        ≡ err (not_admitted (codes "api") (codes "store")))
    × (validate percent compile_glob (contract_of (api ∷ []))
        ≡ err (names_unknown (codes "api") (codes "store") (codes "depends_on")))
unfolding validate target_of
validate-run = (refl, refl, refl)

abbrev sources : List Text
sources =
    codes "src/a.ts" ∷ codes "src\\store\\db.ts" ∷ codes "docs/x.md" ∷ codes "src/cart/b.ts" ∷ []

assign_components-run :
    (assign_components compile_glob is_match open_contract sources
      ≡ ok (
          (codes "src/a.ts", codes "api")
          ∷ (codes "src/cart/b.ts", codes "api")
          ∷ (codes "src\\store\\db.ts", codes "store")
          ∷ []))
    × (assign_components compile_glob is_match
          (contract_of (api ∷ record api { name = codes "app" } ∷ []))
          sources
        ≡ err (
            contested_file
              (codes "src/a.ts")
              (codes "api")
              (codes "src/**")
              (codes "app")
              (codes "src/**")))
unfolding assign_components is_match
assign_components-run = (refl, refl)

assign_slices-run :
    assign_slices open_contract (
      (codes "src/a.ts", codes "api")
      ∷ (codes "src/cart/b.ts", codes "api")
      ∷ (codes "src/store/db.ts", codes "store")
      ∷ [])
    ≡ (codes "src/cart/b.ts", codes "api/cart") ∷ []
unfolding assign_slices
assign_slices-run = refl

x_notation_allows-run :
    (x_notation_allows (codes "features/auth") (codes "src/cart/@x/auth.ts") ≡ true)
    × (x_notation_allows (codes "features/auth") (codes "src/cart/@x/list.ts") ≡ false)
unfolding x_notation_allows
x_notation_allows-run = (refl, refl)

validate_iff_example :
    (validate percent compile_glob open_contract ≡ ok tt)
    ↔ IsValid percent compile_glob open_contract
validate_iff_example = validate_iff percent compile_glob open_contract

assign_components-Assigned_example :
    Assigned compile_glob is_match open_contract sources
      (assign_components compile_glob is_match open_contract sources)
assign_components-Assigned_example =
    assign_components-Assigned compile_glob is_match open_contract sources

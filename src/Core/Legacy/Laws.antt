-- ===== src/Core/Legacy/Laws.antt =====
-- The names of import kinds and of the modules outside the repository.
use ovecc.Prelude.{◌≡◌, refl, true, false, some, arith, list_eqb_iff, ◌↔◌, nat_eq}
use ovecc.Text.{Text}
use ovecc.Core.Legacy.{
  ImportKind, static_import, export_from, require, dynamic_import, type_import, as_str,
  from_kind_str, DependencyRecord, external_module_name, unresolved_module_name,
  unindexed_module_name, is_unresolved, is_unindexed, is_external_package,
}

from_kind_str-as_str : (k : ImportKind) → from_kind_str (as_str k) ≡ some k
unfolding from_kind_str as_str
from_kind_str-as_str static_import = refl
from_kind_str-as_str export_from = refl
from_kind_str-as_str require = refl
from_kind_str-as_str dynamic_import = refl
from_kind_str-as_str type_import = refl

-- The name of an import kind reads back as that kind, and a text reads as a kind only if it is
-- the kind's name.
pub from_kind_str_iff : (s : Text) (k : ImportKind) → (from_kind_str s ≡ some k) ↔ (s ≡ as_str k)
unfolding from_kind_str as_str
from_kind_str_iff s k = (
  λ h. ground (
    arith,
    list_eqb_iff s (as_str static_import),
    list_eqb_iff s (as_str export_from),
    list_eqb_iff s (as_str require),
    list_eqb_iff s (as_str dynamic_import),
    list_eqb_iff s (as_str type_import),
  ),
  λ h. rw h (from_kind_str-as_str k),
)

-- A record is an external package exactly by the prefix that named its target: the target of an
-- unresolved or an unindexed import is never one, and that of an external import is one if the
-- record is marked external.
pub is_external_package-target :
    (d : DependencyRecord) (specifier : Text)
    → (d.target_module ≡ external_module_name specifier → is_external_package d ≡ d.is_external)
      × (d.target_module ≡ unresolved_module_name specifier
          → (is_unresolved d ≡ true) × (is_unindexed d ≡ false) × (is_external_package d ≡ false))
      × (d.target_module ≡ unindexed_module_name specifier
          → (is_unresolved d ≡ false) × (is_unindexed d ≡ true) × (is_external_package d ≡ false))
unfolding is_external_package external_module_name unresolved_module_name unindexed_module_name
is_external_package-target d specifier =
    (λ e. rw e (ground arith), λ e. rw e (ground arith), λ e. rw e (ground arith))

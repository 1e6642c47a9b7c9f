-- ===== src/Core/Facts.antt =====
-- crates/ovecc-core/src/facts.rs: severities, ambient capabilities and the facts that the
-- architecture contract is checked against. Floating point numbers are a type `F`.
use ovecc.Prelude.{
  ℕ, ◌≡◌, ◌↔◌, Bool, true, Option, none, some, List, [], ◌∷◌, Eq, if◌then◌else◌, nat_eqb, list_eqb,
  nat_eq, arith, contains, list_eq, find,
}
use ovecc.Text.{Text, codes, strip_prefix}

pub data Severity : Type 0 where
  low medium high critical : Severity

pub data CapabilityKind : Type 0 where
  network filesystem storage dom process time random : CapabilityKind

abbrev pub capabilities : List CapabilityKind
capabilities = network ∷ filesystem ∷ storage ∷ dom ∷ process ∷ time ∷ random ∷ []

unfoldable pub as_str : CapabilityKind → Text
as_str network = codes "network"
as_str filesystem = codes "filesystem"
as_str storage = codes "storage"
as_str dom = codes "dom"
as_str process = codes "process"
as_str time = codes "time"
as_str random = codes "random"

abbrev discriminant : CapabilityKind → ℕ
discriminant network = 0
discriminant filesystem = 1
discriminant storage = 2
discriminant dom = 3
discriminant process = 4
discriminant time = 5
discriminant random = 6

-- The derived `PartialEq`.
abbrev pub capability_eqb : CapabilityKind → CapabilityKind → Bool
capability_eqb a b = nat_eqb (discriminant a) (discriminant b)

pub capability_eqb_iff : (a b : CapabilityKind) → (capability_eqb a b ≡ true) ↔ (a ≡ b)
capability_eqb_iff a b = ground arith

instance abbrev pub capability_eq : Eq CapabilityKind
capability_eq = record { eqb = capability_eqb; eqb_iff = capability_eqb_iff }

-- `CapabilityKind::parse`.
unfoldable pub parse_capability : Text → Option CapabilityKind
unfolding as_str
parse_capability name = find (λ kind. list_eqb (as_str kind) name) capabilities

abbrev filesystem_modules : List Text
filesystem_modules = codes "fs" ∷ codes "fs/promises" ∷ codes "fs-extra" ∷ []

abbrev network_modules : List Text
network_modules =
    codes "http"
    ∷ codes "https"
    ∷ codes "http2"
    ∷ codes "net"
    ∷ codes "tls"
    ∷ codes "dgram"
    ∷ codes "dns"
    ∷ codes "axios"
    ∷ codes "node-fetch"
    ∷ codes "undici"
    ∷ codes "got"
    ∷ codes "ky"
    ∷ []

abbrev process_modules : List Text
process_modules = codes "child_process" ∷ codes "process" ∷ []

abbrev of_bare_module : Text → Option CapabilityKind
of_bare_module bare =
    if contains bare filesystem_modules
    then some filesystem
    else if contains bare network_modules
    then some network
    else if contains bare process_modules
    then some process
    else none

-- `CapabilityKind::of_module_specifier`.
unfoldable pub of_module_specifier : Text → Option CapabilityKind
of_module_specifier specifier = elim (strip_prefix (codes "node:") specifier) [
  | some bare ↦ of_bare_module bare
  | none ↦ of_bare_module specifier
]

pub record CapabilityFact : Type 0 where
  pub capability : CapabilityKind
  pub api : Text
  pub line : ℕ
  pub count : ℕ

pub record FunctionMetricsRow : Type 0 where
  pub file_path : Text
  pub qualified_name : Text
  pub line : ℕ
  pub cyclomatic : ℕ
  pub cognitive : ℕ

pub record CoChangedPair (F : Type 0) : Type 0 where
  pub left : Text
  pub right : Text
  pub support : ℕ
  pub jaccard : F
  pub lift : F
  pub confidence_left_to_right : F
  pub confidence_right_to_left : F
  pub commits : List Text

pub record ReExportFact : Type 0 where
  pub source_specifier : Text
  pub imported_name : Text

pub record ExportFact : Type 0 where
  pub name : Text
  pub local_name : Option Text
  pub is_type_only : Bool
  pub line : ℕ
  pub re_export : Option ReExportFact

pub record PathLiteralFact : Type 0 where
  pub value : Text
  pub line : ℕ

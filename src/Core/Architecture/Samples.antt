-- ===== src/Core/Architecture/Samples.antt =====
-- A small architecture contract for the tests. Globs match by their literal prefix here, and a
-- floor is a percentage.
use ovecc.Prelude.{
  ℕ, ◌*◌, ◌/◌, Bool, Option, none, some, List, [], ◌∷◌, ltb, leb, nat_eqb, false, true,
}
use ovecc.Text.{Text, codes, starts_with}
use ovecc.Core.Coverage.{Floats}
use ovecc.Core.Architecture.{
  ComponentSpec, ArchitectureContract, DependsOn, EnforcementMode, UnassignedPolicy, CouplingPolicy,
}
use ovecc.Core.Architecture.Assign.{literal_prefix}

abbrev pub percent : Floats ℕ
percent = record {
  zero_f = 0;
  one_f = 100;
  le_f = leb;
  lt_f = ltb;
  eq_f = nat_eqb;
  ratio = λ a b. a * 100 / b;
}

abbrev pub compile_glob : Text → Option Text
compile_glob pattern = some pattern

unfoldable pub is_match : Text → Text → Bool
unfolding literal_prefix
is_match pattern path = starts_with (literal_prefix pattern) path

abbrev pub component_at : Text → Text → ComponentSpec ℕ
component_at name path = record {
  name = name;
  role = none;
  paths = path ∷ [];
  depends_on = [];
  cannot_depend_on = [];
  consumed_by = none;
  must_depend_on = [];
  interface = [];
  external_deny = [];
  slices = false;
  deny_capabilities = [];
  max_cyclomatic = some 10;
  max_cognitive = none;
  min_coverage = some 80;
}

abbrev pub contract_of : List (ComponentSpec ℕ) → ArchitectureContract ℕ
contract_of components = record {
  schema = 1;
  mode = EnforcementMode.strict;
  unassigned = UnassignedPolicy.warn;
  coupling = CouplingPolicy.low;
  components = components;
}

-- `api` depends on `store`, which admits only `domain`.
abbrev pub store : List Text → ComponentSpec ℕ
store consumers = record (component_at (codes "store") (codes "src/store/**")) {
  consumed_by = some consumers;
}

abbrev pub api : ComponentSpec ℕ
api = record (component_at (codes "api") (codes "src/**")) {
  depends_on = DependsOn.name (codes "store") ∷ [];
  slices = true;
}

abbrev pub open_contract : ArchitectureContract ℕ
open_contract = contract_of (api ∷ store (codes "api" ∷ []) ∷ [])

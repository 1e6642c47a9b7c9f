-- ===== src/Rules/Contract/Prune.antt =====
-- What a baseline leaves of the violations of contract.rs.
use ovecc.Prelude.{◌≡◌, ◌↔◌, refl, List, Elem, Holds}
use ovecc.Text.{Text, codes}
use ovecc.Rules.Contract.{Pair, EdgeGroups}
use ovecc.Rules.Contract.Baseline.{
  dependency_line, capability_line, required_line, budget_line, coupling_line, prune_baselined,
}
use ovecc.Rules.Contract.Freeze.{without_entries-Holds}

-- Of the values before, exactly those stay whose line the baseline lacks.
abbrev pub Keeps :
    {V : Type 0}
    → (Pair → V → Text)
    → List Text
    → List (Pair × List V)
    → List (Pair × List V)
    → Type 0
Keeps {V} line baseline before after =
    (pair : Pair) (v : V)
    → Holds pair v after ↔ (Holds pair v before × (¬ Elem (line pair v) baseline))

pub record Pruned {F : Type 0} (baseline : List Text) (before after : EdgeGroups F) : Type 0 where
  pub divergences :
      Keeps (dependency_line (codes "divergence")) baseline before.divergences after.divergences
  pub restricted :
      Keeps
        (dependency_line (codes "restricted-access"))
        baseline
        before.restricted
        after.restricted
  pub forbidden :
      Keeps
        (dependency_line (codes "forbidden-dependency"))
        baseline
        before.forbidden
        after.forbidden
  pub bypasses :
      Keeps (dependency_line (codes "interface-bypass")) baseline before.bypasses after.bypasses
  pub deprecated :
      Keeps (dependency_line (codes "deprecated-use")) baseline before.deprecated after.deprecated
  pub banned : Keeps (dependency_line (codes "external-deny")) baseline before.banned after.banned
  pub slices : Keeps (dependency_line (codes "slice-isolation")) baseline before.slices after.slices
  pub required : Keeps required_line baseline before.required after.required
  pub capabilities : Keeps capability_line baseline before.capabilities after.capabilities
  pub budgets : Keeps budget_line baseline before.budgets after.budgets
  pub coupling : Keeps coupling_line baseline before.coupling after.coupling
  pub coverage : after.coverage ≡ before.coverage
  pub observed : after.observed ≡ before.observed

-- A baseline takes exactly the violations whose line it holds, of all eleven kinds that can be
-- accepted, each under the name of its own kind; the coverage floors and what was observed stay.
pub prune_baselined-Pruned :
    {F : Type 0} (groups : EdgeGroups F) (baseline : List Text)
    → Pruned baseline groups (prune_baselined groups baseline)
unfolding prune_baselined
prune_baselined-Pruned g baseline = record {
  divergences = without_entries-Holds (dependency_line (codes "divergence")) baseline g.divergences;
  restricted =
      without_entries-Holds (dependency_line (codes "restricted-access")) baseline g.restricted;
  forbidden =
      without_entries-Holds (dependency_line (codes "forbidden-dependency")) baseline g.forbidden;
  bypasses = without_entries-Holds (dependency_line (codes "interface-bypass")) baseline g.bypasses;
  deprecated =
      without_entries-Holds (dependency_line (codes "deprecated-use")) baseline g.deprecated;
  banned = without_entries-Holds (dependency_line (codes "external-deny")) baseline g.banned;
  slices = without_entries-Holds (dependency_line (codes "slice-isolation")) baseline g.slices;
  required = without_entries-Holds required_line baseline g.required;
  capabilities = without_entries-Holds capability_line baseline g.capabilities;
  budgets = without_entries-Holds budget_line baseline g.budgets;
  coupling = without_entries-Holds coupling_line baseline g.coupling;
  coverage = refl;
  observed = refl;
}

-- ===== src/Rules/DeadCode/Tests.antt =====
-- An entry point that takes `a` from a barrel, which passes on `a` and `b` of a leaf; a script that
-- the entry point only names, and an orphan.
use ovecc.Prelude.{
  list_eq, nat_eq, String, ℕ, ◌≡◌, ◌≢◌, ◌↔◌, inl, inr, refl, false, none, some, List, [], ◌∷◌, map,
  reverse, Elem, value_or,
}
use ovecc.Text.{Text, codes}
use ovecc.Core.Facts.{ExportFact}
use ovecc.Core.Findings.{FindingRecord, NodeKind}
use ovecc.Rules.DeadCode.{Key, DeadCodeInput, bfs_reachable, used_keys}
use ovecc.Rules.DeadCode.Reachable.{IsReachable, bfs_reachable-exact}
use ovecc.Rules.DeadCode.Usage.{IsUsed, used_keys-exact}
use ovecc.Rules.DeadCode.Literals.{Held, names_file, index_literals_by_name, literal_reference}
use ovecc.Rules.DeadCode.Literals.Reference.{IsReference, literal_reference-IsReference}
use ovecc.Rules.DeadCode.Flags.{file_finding}
use ovecc.Rules.DeadCode.Analysis.{analyze}
use ovecc.Rules.DeadCode.Analysis.Flagged.{IsLive}
use ovecc.Rules.DeadCode.Analysis.Exact.{IsReport, analyze-exact}
use ovecc.Rules.DeadCode.Analysis.Safe.{analyze-unused_file}

abbrev index : Text
index = codes "src/index.ts"

abbrev barrel : Text
barrel = codes "src/barrel.ts"

abbrev leaf : Text
leaf = codes "src/leaf.ts"

abbrev task : Text
task = codes "scripts/task.ts"

abbrev orphan : Text
orphan = codes "src/orphan.ts"

abbrev own : String → ℕ → ExportFact
own name line = record {
  name = codes name;
  local_name = none;
  is_type_only = false;
  line = line;
  re_export = none;
}

abbrev passed_on : String → ExportFact
passed_on name = record {
  name = codes name;
  local_name = none;
  is_type_only = false;
  line = 1;
  re_export = some (record { source_specifier = codes "./leaf"; imported_name = codes name });
}

abbrev input : DeadCodeInput
input = record {
  repository_id = codes "r";
  snapshot_id = none;
  files = index ∷ barrel ∷ leaf ∷ task ∷ orphan ∷ [];
  entry_points = index ∷ [];
  exports =
      (barrel, passed_on "a")
      ∷ (barrel, passed_on "b")
      ∷ (leaf, own "a" 1)
      ∷ (leaf, own "b" 2)
      ∷ [];
  imports =
      record {
        source_file = index;
        target_file = barrel;
        imported_names = codes "a" ∷ [];
        is_namespace = false;
      }
      ∷ record {
        source_file = barrel;
        target_file = leaf;
        imported_names = codes "a" ∷ codes "b" ∷ [];
        is_namespace = false;
      }
      ∷ [];
  path_literals = (index, record { value = codes "./scripts/task.ts"; line = 3 }) ∷ [];
  signature_types = [];
}

-- A digest for the tests: the text backwards.
abbrev reported : List FindingRecord
unfolding analyze
reported = value_or [] (analyze reverse input)

reported_rules :
    map (λ f. f.rule_name) reported
    ≡ some (codes "possibly-unused-file")
      ∷ some (codes "unused-file")
      ∷ some (codes "unused-export")
      ∷ []
unfolding analyze
reported_rules = refl

-- Of two names that a barrel passes on, one is used.
bfs_reachable-exact_example :
    (s : List Text) × (bfs_reachable (index ∷ []) input.imports ≡ some s)
    × ((file : Text) → Elem file s ↔ IsReachable (index ∷ []) input.imports file)
bfs_reachable-exact_example = bfs_reachable-exact (index ∷ []) input.imports

abbrev live : List Text
live = leaf ∷ barrel ∷ index ∷ []

used_keys-exact_example :
    (s : List Key) × (used_keys input live ≡ some s)
    × ((key : Key) → Elem key s ↔ IsUsed input (λ file. Elem file live) key)
used_keys-exact_example =
    used_keys-exact input live (λ file. Elem file live) (λ file. (λ m. m, λ m. m))

literal_reference-IsReference_example :
    IsReference input.path_literals live task
      (literal_reference (index_literals_by_name input.path_literals) live task)
literal_reference-IsReference_example = literal_reference-IsReference input.path_literals live task

analyze-exact_example :
    (reachable : List Text) × (fs : List FindingRecord) × ((file : Text)
      → Elem file reachable ↔ IsLive input file)
    × (analyze reverse input ≡ some fs)
    × IsReport reverse input reachable fs
analyze-exact_example = analyze-exact reverse input (λ e. cc e)

abbrev orphan_finding : FindingRecord
unfolding file_finding
orphan_finding = file_finding reverse input live orphan

analyze-unused_file_example :
    (file : Text) × (orphan_finding.target ≡ some (record { kind = NodeKind.file; id = file }))
    × Elem file input.files
    × (¬ IsLive input file)
    × ((held : Held)
        → Elem held input.path_literals
        → held.0 ≢ file
        → names_file held.1.value file ≡ false)
unfolding analyze
analyze-unused_file_example =
    analyze-unused_file reverse input reported orphan_finding refl (inr (inl refl)) refl

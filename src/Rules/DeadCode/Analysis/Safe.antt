-- ===== src/Rules/DeadCode/Analysis/Safe.antt =====
-- crates/ovecc-rules/src/deadcode.rs: what the rule `unused-file`, on which a file may be deleted,
-- rests on.
use ovecc.Prelude.{
  ℕ, ◌≡◌, ◌≢◌, inl, inr, ⊎_elim, refl, sym, ap, ◌∙◌, subst, false, Option, none, some, List, [],
  Elem, Bool-cases, List-cases, list_eqb, list_eqb_iff, nat_eq,
}
use ovecc.Text.{Text, codes}
use ovecc.Core.Facts.{ExportFact}
use ovecc.Core.Findings.{FindingRecord, NodeKind}
use ovecc.Rules.DeadCode.{DeadCodeInput}
use ovecc.Rules.DeadCode.Literals.{
  Held, names_file, literal_reference, index_literals_by_name, LiteralReference,
}
use ovecc.Rules.DeadCode.Literals.Reference.{IsReference, literal_reference-IsReference}
use ovecc.Rules.DeadCode.Flags.{finding, export_finding, by_reference, file_finding}
use ovecc.Rules.DeadCode.Analysis.{analyze}
use ovecc.Rules.DeadCode.Analysis.Flagged.{IsLive}
use ovecc.Rules.DeadCode.Analysis.Exact.{analyze-nil, analyze-exact}

differ : (a b : Text) → list_eqb a b ≡ false → some a ≢ some b
differ a b apart same = cc (apart, (list_eqb_iff a b).1 (cc same))

export_finding-rule :
    (sha256 : Text → List ℕ) (input : DeadCodeInput) (at : Text × ExportFact)
    → (export_finding sha256 input at).rule_name ≢ some (codes "unused-file")
unfolding export_finding finding
export_finding-rule sha256 input (file, export) = elim (Bool-cases export.is_type_only) [
  | inl type ↦ rw type (differ (codes "unused-type") (codes "unused-file") refl)
  | inr value ↦ rw value (differ (codes "unused-export") (codes "unused-file") refl)
]

-- No literal of another file names the file.
abbrev IsUnnamed : DeadCodeInput → Text → Type 0
IsUnnamed input file =
    (held : Held)
    → Elem held input.path_literals
    → held.0 ≢ file
    → names_file held.1.value file ≡ false

by_reference-rule :
    (sha256 : Text → List ℕ) (input : DeadCodeInput) (reachable : List Text) (file : Text)
    (found : Option LiteralReference)
    → IsReference input.path_literals reachable file found
    → (by_reference sha256 input file found).rule_name ≡ some (codes "unused-file")
    → IsUnnamed input file
unfolding finding
by_reference-rule sha256 input reachable file none h k = h
by_reference-rule sha256 input reachable file (some r) h k =
    absurd (differ (codes "possibly-unused-file") (codes "unused-file") refl k)

by_reference-target :
    (sha256 : Text → List ℕ) (input : DeadCodeInput) (file : Text) (found : Option LiteralReference)
    → (by_reference sha256 input file found).target
      ≡ some (record { kind = NodeKind.file; id = file })
unfolding finding
by_reference-target sha256 input file none = refl
by_reference-target sha256 input file (some r) = refl

-- Where a reported finding has the rule `unused-file`, it is about a file of the input that no chain
-- of imports reaches from an entry point and that no literal of another file names.
pub analyze-unused_file :
    (sha256 : Text → List ℕ) (input : DeadCodeInput) (fs : List FindingRecord) (f : FindingRecord)
    → analyze sha256 input ≡ some fs
    → Elem f fs
    → f.rule_name ≡ some (codes "unused-file")
    → (file : Text) × (f.target ≡ some (record { kind = NodeKind.file; id = file }))
      × Elem file input.files
      × (¬ IsLive input file)
      × ((held : Held)
          → Elem held input.path_literals
          → held.0 ≢ file
          → names_file held.1.value file ≡ false)
unfolding file_finding
analyze-unused_file sha256 input fs f done m rule = elim (List-cases input.entry_points) [
  | inl nothing ↦
      let empty : fs ≡ [] = cc (analyze-nil sha256 input nothing, done) in
      absurd (subst (Elem f) empty m)
  | inr (first, rest, q) ↦
      let (reachable, gs, live, again, report) =
        analyze-exact sha256 input (λ nothing. cc (q, nothing)) in
      let same : gs ≡ fs = cc (again, done) in
      ⊎_elim
        (λ (at, here, unused, e).
          absurd (export_finding-rule sha256 input at (ap (λ x. x.rule_name) e ∙ rule)))
        (λ (file, here, unused, e).
          let found =
            literal_reference (index_literals_by_name input.path_literals) reachable file in
          (
            file,
            ap (λ x. x.target) (sym e) ∙ by_reference-target sha256 input file found,
            here,
            unused.0,
            by_reference-rule sha256 input reachable file found
                (literal_reference-IsReference input.path_literals reachable file)
                (ap (λ x. x.rule_name) e ∙ rule),
          ))
        (report.justified f (subst (Elem f) (sym same) m))
]

-- ===== src/Core/Architecture/Assign/Owners.antt =====
-- The result of `assign_components` of architecture.rs, whichever it is.
use ovecc.Prelude.{
  ◌≡◌, ◌↔◌, ◌⊎◌, inl, inr, ⊎_elim, refl, Bool, Option, none, some, List, [], Elem, ok, err, ◌>>=◌,
  lookup, list_eq, nat_eq,
}
use ovecc.Text.{Text}
use ovecc.Core.Architecture.{ComponentSpec, ArchitectureContract}
use ovecc.Core.Architecture.Validate.{Checked}
use ovecc.Core.Architecture.Assign.{Candidate, all_candidates, assign_files, assign_components}
use ovecc.Core.Architecture.Assign.Candidates.{
  Offers, Unreadable, all_candidates-ok, all_candidates-err,
}
use ovecc.Core.Architecture.Assign.Ownership.{
  Owns, Unowned, Tied, Added, assign_files-Added, assign_files-Tied,
}

module _ {F Matcher : Type 0} (compile_glob : Text → Option Matcher)
    (is_match : Matcher → Text → Bool) (contract : ArchitectureContract F) (files : List Text) where
  -- What a result says of the files and the globs of the contract.
  abbrev pub Assigned : Checked (List (Text × Text)) → Type 0
  Assigned (ok assignment) =
      ((file component : Text)
        → lookup file assignment ≡ some component
        → Elem file files × Owns is_match (Offers compile_glob contract.components) file component)
      × ((file : Text)
          → Elem file files
          → lookup file assignment ≡ none
          → Unowned is_match (Offers compile_glob contract.components) file)
  Assigned (err e) =
      ((file : Text) × Elem file files
        × Tied is_match (Offers compile_glob contract.components) file e)
      ⊎ ((c : ComponentSpec F) × Elem c contract.components × Unreadable compile_glob c.paths e)

  Added-Assigned :
      (out : List (Text × Text))
      → Added is_match (Offers compile_glob contract.components) files [] out
      → Assigned (ok out)
  Added-Assigned out h = (
    λ file component e. ⊎_elim (λ k. cc) (λ k. k) (h.owned file component e),
    λ file m e. h.unowned file m e,
  )

  -- An assignment gives every file with a matching glob to the component of its most specific one,
  -- as that of all its most specific ones, and no other file to any. An error names a file whose
  -- most specific globs are of two components, with the two, or a glob that does not compile.
  pub assign_components-Assigned : Assigned (assign_components compile_glob is_match contract files)
  unfolding assign_components
  assign_components-Assigned =
      by_candidates (all_candidates compile_glob [] contract.components) refl
    where
      law :
          (candidates : List (Candidate Matcher))
          → all_candidates compile_glob [] contract.components ≡ ok candidates
          → (c : Candidate Matcher) → Elem c candidates ↔ Offers compile_glob contract.components c
      law candidates e c =
          let r = all_candidates-ok compile_glob [] candidates contract.components e c in
          (λ m. ⊎_elim (λ x. absurd x) (λ o. o) (r.0 m), λ o. r.1 (inr o))

      by_files :
          (candidates : List (Candidate Matcher))
          → all_candidates compile_glob [] contract.components ≡ ok candidates
          → (r : Checked (List (Text × Text))) → assign_files is_match candidates [] files ≡ r
          → Assigned r
      by_files candidates e (ok out) h =
          Added-Assigned out
            (assign_files-Added is_match _ candidates [] out files (law candidates e) h)
      by_files candidates e (err bad) h =
          inl (assign_files-Tied is_match _ candidates [] files bad (law candidates e) h)

      by_candidates :
          (r : Checked (List (Candidate Matcher)))
          → all_candidates compile_glob [] contract.components ≡ r
          → Assigned (r >>= λ candidates. assign_files is_match candidates [] files)
      by_candidates (ok candidates) e =
          by_files candidates e (assign_files is_match candidates [] files) refl
      by_candidates (err bad) e = inr (all_candidates-err compile_glob [] contract.components bad e)

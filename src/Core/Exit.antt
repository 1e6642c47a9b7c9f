-- ===== src/Core/Exit.antt =====
-- crates/ovecc-core/src/error.rs: errors and the exit codes that they map to.
use ovecc.Prelude.{ℕ, ◌≡◌, ◌≤◌, List, Option, arith}
use ovecc.Text.{Text}

pub data ExitCode : Type 0 where
  success findings_present usage repository index parser git internal : ExitCode

unfoldable pub code : ExitCode → ℕ
code success = 0
code findings_present = 1
code usage = 2
code repository = 3
code index = 4
code parser = 5
code git = 6
code internal = 7

-- The boxed sources of the index and git errors are only carried along, so their type is a
-- parameter.
pub data OveccError (Source : Type 0) : Type 0 where
  usage_error : (message : Text) → OveccError Source
  unresolved_target : (message input : Text) (candidates : List (Text × Text)) → OveccError Source
  repository_error : (message : Text) → OveccError Source
  index_error : (message : Text) (source : Option Source) → OveccError Source
  parser_error : (path message : Text) → OveccError Source
  git_error : (message : Text) (source : Option Source) → OveccError Source
  internal_error : (message : Text) → OveccError Source

unfoldable pub exit_code : {Source : Type 0} → OveccError Source → ExitCode
exit_code (usage_error _) = usage
exit_code (unresolved_target _ _ _) = usage
exit_code (repository_error _) = repository
exit_code (index_error _ _) = index
exit_code (parser_error _ _) = parser
exit_code (git_error _ _) = git
exit_code (internal_error _) = internal

-- Distinct exit codes have distinct numbers.
pub code_injective : (a b : ExitCode) → code a ≡ code b → a ≡ b
unfolding code
code_injective a b h = ground arith

-- No error has the code of success or of present findings.
exit_code_ge_two : {Source : Type 0} (e : OveccError Source) → 2 ≤ code (exit_code e)
unfolding code exit_code
exit_code_ge_two e = ground arith

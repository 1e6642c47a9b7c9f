-- ===== src/Rules/Specifier.antt =====
-- crates/ovecc-rules/src/lib.rs: the patterns for import specifiers.
use ovecc.Prelude.{Bool, Option, none, some, [], ◌∷◌, reverse, nat_eqb, list_eqb, nat_eq}
use ovecc.Text.{Text, strip_prefix, starts_with, ends_with, contains_text, trim_start, trim_end}

-- `strip_suffix` of one character.
abbrev strip_last : Text → Text → Option Text
strip_last suffix t = elim (strip_prefix (reverse suffix) (reverse t)) [
  | none ↦ none
  | some rest ↦ some (reverse rest)
]

abbrev star : Text
star = b'*' ∷ []

-- `trim_matches('*')`.
abbrev trim_stars : Text → Text
trim_stars t = trim_end (λ c. nat_eqb c b'*') (trim_start (λ c. nat_eqb c b'*') t)

unfoldable pub specifier_matches : Text → Text → Bool
specifier_matches specifier pattern = elim (strip_prefix star pattern) [
  | some suffix ↦ elim (strip_last star pattern) [
    | some prefix ↦ contains_text (trim_stars pattern) specifier
    | none ↦ ends_with suffix specifier
  ]
  | none ↦ elim (strip_last star pattern) [
    | some prefix ↦ starts_with prefix specifier
    | none ↦ list_eqb specifier pattern
  ]
]

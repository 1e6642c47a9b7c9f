-- ===== src/Core/Architecture/Assign/Notation.antt =====
-- The `@x` notation of architecture.rs: which imports between slices it opens.
use ovecc.Prelude.{◌≡◌, List, ◌∷◌, ◌++◌, nat_eq}
use ovecc.Text.{Text, codes}
use ovecc.Core.Architecture.Assign.{stem_of}

-- The segments hold `@x` right before one with the stem.
abbrev pub Opens : Text → List Text → Type 0
Opens source segments =
    (before : List Text) × (next : Text) × (after : List Text) × (segments
      ≡ before ++ codes "@x" ∷ next ∷ after)
    × (stem_of next ≡ source)

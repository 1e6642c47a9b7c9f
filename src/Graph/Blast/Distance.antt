-- ===== src/Graph/Blast/Distance.antt =====
-- `levenshtein` of blast.rs: the two-row table, and edit scripts as its specification.
pub mod Table
pub mod Optimal
use ovecc.Prelude.{
  ℕ, zero, suc, ◌+◌, ◌≤◌, ◌≡◌, refl, ap, sym, ◌∙◌, subst, Bool, true, false, ◌||◌, List, [], ◌∷◌,
  ◌++◌, reverse, if◌then◌else◌, min, max, length, get_or, nat_eqb, nat_eqb_iff, arith, Bool-cases,
  inl, inr, ◌⊎◌, ◌↔◌,
}
use native.Mathlib.Decide.{dec_le}
use ovecc.Text.{Text, empty}

abbrev cost : ℕ → ℕ → ℕ
cost a b = if nat_eqb a b then 0 else 1

-- One row of the table behind its first cell: `previous` is the row above from this column on,
-- `left` the cell to the left.
fill : ℕ → Text → List ℕ → ℕ → List ℕ
fill ca [] previous left = []
fill ca (cb ∷ b) [] left = []
fill ca (cb ∷ b) (p ∷ []) left = []
fill ca (cb ∷ b) (p ∷ q ∷ previous) left =
    let cell = min (min (p + cost ca cb) (q + 1)) (left + 1) in cell ∷ fill ca b (q ∷ previous) cell

-- The outer loop, from row `i` on; it leaves the last row.
rows : ℕ → Text → Text → List ℕ → List ℕ
rows i [] b previous = previous
rows i (ca ∷ a) b previous = rows (suc i) a b (suc i ∷ fill ca b previous (suc i))

-- `(from..=from + b.len())`.
count_up : ℕ → Text → List ℕ
count_up from [] = from ∷ []
count_up from (c ∷ b) = from ∷ count_up (suc from) b

unfoldable pub levenshtein : Text → Text → ℕ
unfolding rows fill count_up
levenshtein a b =
    if empty a || empty b
    then max (length a) (length b)
    else get_or (rows 0 a b (count_up 0 b)) (length b) 0

-- `Script a b n`: insertions, deletions and substitutions that turn `a` into `b` at cost `n`.
pub data Script : Text → Text → ℕ → Type 0 where
  nothing : Script [] [] 0
  insert : {a b : Text} {n : ℕ} (y : ℕ) → Script a b n → Script a (y ∷ b) (suc n)
  delete : {a b : Text} {n : ℕ} (x : ℕ) → Script a b n → Script (x ∷ a) b (suc n)
  keep : {a b : Text} {n : ℕ} (x : ℕ) → Script a b n → Script (x ∷ a) (x ∷ b) n
  replace : {a b : Text} {n : ℕ} (x y : ℕ) → Script a b n → Script (x ∷ a) (y ∷ b) (suc n)

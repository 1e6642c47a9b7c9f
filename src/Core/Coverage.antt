-- ===== src/Core/Coverage.antt =====
-- crates/ovecc-core/src/coverage.rs: the coverage of a file and its sum over files. Floating point
-- arithmetic is the machine's, and an argument.
pub mod Records
pub mod Lcov
pub mod Merged
pub mod Events
pub mod Reported
mod Tests
use ovecc.Prelude.{ℕ, ◌+◌, ◌-◌, Bool, if◌then◌else◌, nat_eqb}
use ovecc.Text.{Text}

-- The `f64` operations that the program uses; `ratio` converts two integers and divides.
pub record Floats (F : Type 0) : Type 0 where
  pub zero_f : F
  pub one_f : F
  pub le_f : F → F → Bool
  pub lt_f : F → F → Bool
  pub eq_f : F → F → Bool
  pub ratio : ℕ → ℕ → F

pub record FileCoverage : Type 0 where
  pub path : Text
  pub lines_found : ℕ
  pub lines_hit : ℕ
  pub functions_found : ℕ
  pub functions_hit : ℕ

pub record CoverageTotals : Type 0 where
  pub lines_found : ℕ
  pub lines_hit : ℕ

abbrev pub no_coverage : CoverageTotals
no_coverage = record { lines_found = 0; lines_hit = 0 }

unfoldable pub add : CoverageTotals → FileCoverage → CoverageTotals
add totals file = record {
  lines_found = totals.lines_found + file.lines_found;
  lines_hit = totals.lines_hit + file.lines_hit;
}

-- `CoverageTotals::line_rate`.
unfoldable pub line_rate : {F : Type 0} → Floats F → CoverageTotals → F
line_rate n totals =
    if nat_eqb totals.lines_found 0 then n.one_f else n.ratio totals.lines_hit totals.lines_found

-- A saturating subtraction.
unfoldable pub lines_missed : CoverageTotals → ℕ
lines_missed totals = totals.lines_found - totals.lines_hit

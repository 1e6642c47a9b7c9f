-- ===== src/Core/Coverage/Tests.antt =====
-- Runs of the LCOV reader, and its theorem there.
use ovecc.Prelude.{Bool, ◌≡◌, refl, none, [], ◌∷◌, lookup, list_eq, nat_eq}
use ovecc.Text.{Text, codes, starts_with}
use ovecc.Core.Coverage.Lcov.{trimmed_lines, sections_of, parse_lcov}
use ovecc.Core.Coverage.Merged.{hits_in}
use ovecc.Core.Coverage.Reported.{reported, sections_of-reported}

abbrev has_root : Text → Bool
has_root path = starts_with (codes "/") path

-- Two runs of one file. The first section of it is never ended.
abbrev trace : Text
trace = codes "SF:/repo/a.ts\nDA:3,0\nDA:4,2\nSF:./a.ts\nDA:3,1.0\nend_of_record\n"

parse_lcov-run :
    parse_lcov has_root (codes "/repo") trace
    ≡ record {
      path = codes "a.ts";
      lines_found = 2;
      lines_hit = 2;
      functions_found = 0;
      functions_hit = 0;
    }
      ∷ []
unfolding parse_lcov
parse_lcov-run = refl

sections_of-reported_example :
    hits_in (lookup (codes "a.ts") (sections_of has_root (codes "/repo") trace)) 3
    ≡ reported has_root (codes "/repo") (codes "a.ts") 3 none (trimmed_lines trace)
sections_of-reported_example = sections_of-reported has_root (codes "/repo") trace (codes "a.ts") 3

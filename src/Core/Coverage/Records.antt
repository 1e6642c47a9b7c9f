-- ===== src/Core/Coverage/Records.antt =====
-- crates/ovecc-core/src/coverage.rs: `Section` of `parse_lcov`, and the records inside a section.
use ovecc.Prelude.{
  ℕ, ◌+◌, ◌-◌, ◌*◌, ◌^◌, max, ◌&&◌, Option, none, some, List, [], ◌∷◌, if◌then◌else◌, list_eqb,
  nat_eq, nat_eqb, nat_ord, list_ord, ltb, leb, keep_if, map_entry, length,
}
use ovecc.Text.{Text, codes, split, split_at, trim, empty}

-- Line numbers or function names, each with its hits.
abbrev pub Hits : Type 0 → Type 0
Hits K = List (K × ℕ)

pub record Section : Type 0 where
  pub lines : Hits ℕ
  pub functions : Hits Text
  pub declared_lines : Option (ℕ × ℕ)
  pub declared_functions : Option (ℕ × ℕ)

abbrev pub empty_section : Section
empty_section = record {
  lines = [];
  functions = [];
  declared_lines = none;
  declared_functions = none;
}

-- `let entry = map.entry(key).or_default(); *entry = (*entry).max(hits)`
abbrev pub raise_line : ℕ → ℕ → Hits ℕ → Hits ℕ
raise_line line hits = map_entry line 0 (λ entry. max entry hits)

abbrev pub raise_function : Text → ℕ → Hits Text → Hits Text
raise_function name hits = map_entry name 0 (λ entry. max entry hits)

abbrev pub merge_lines : Hits ℕ → Hits ℕ → Hits ℕ
merge_lines lines [] = lines
merge_lines lines ((line, hits) ∷ others) = merge_lines (raise_line line hits lines) others

abbrev pub merge_functions : Hits Text → Hits Text → Hits Text
merge_functions functions [] = functions
merge_functions functions ((name, hits) ∷ others) =
    merge_functions (raise_function name hits functions) others

abbrev or_else : {A : Type 0} → Option A → Option A → Option A
or_else none other = other
or_else (some a) other = some a

unfoldable pub merge : Section → Section → Section
merge section other = record {
  lines = merge_lines section.lines other.lines;
  functions = merge_functions section.functions other.functions;
  declared_lines = or_else section.declared_lines other.declared_lines;
  declared_functions = or_else section.declared_functions other.declared_functions;
}

-- One half of `Section::totals`: found and hit.
abbrev pub total_of : {K : Type 0} → Option (ℕ × ℕ) → Hits K → ℕ × ℕ
total_of (some declared) [] = declared
total_of (some declared) (h ∷ hits) =
    (length (h ∷ hits), length (keep_if (λ e. ltb 0 e.1) (h ∷ hits)))
total_of none hits = (length hits, length (keep_if (λ e. ltb 0 e.1) hits))

-- `str::parse` of an unsigned integer below the bound.
abbrev digits : ℕ → Text → Option ℕ
digits value [] = some value
digits value (c ∷ t) = if leb b'0' c && leb c b'9' then digits (value * 10 + (c - b'0')) t else none

abbrev below : ℕ → Option ℕ → Option ℕ
below bound none = none
below bound (some value) = if ltb value bound then some value else none

abbrev unsigned : Text → Text
unsigned [] = []
unsigned (c ∷ t) = if nat_eqb c b'+' then t else c ∷ t

abbrev pub parse_number : ℕ → Text → Option ℕ
parse_number bound raw =
    if empty (unsigned raw) then none else below bound (digits 0 (unsigned raw))

abbrev whole_part : Text → Text
whole_part raw = elim (split_at (λ c. nat_eqb c b'.') raw) [
  | none ↦ raw
  | some (whole, fraction) ↦ whole
]

unfoldable pub parse_hits : Text → Option ℕ
parse_hits raw = parse_number (2 ^ 64) (whole_part (trim raw))

abbrev both : {A B : Type 0} → Option A → Option B → Option (A × B)
both (some a) (some b) = some (a, b)
both (some a) none = none
both none b = none

abbrev line_and_hits : List Text → Option (ℕ × ℕ)
line_and_hits [] = none
line_and_hits (line ∷ []) = none
line_and_hits (line ∷ hits ∷ rest) = both (parse_number (2 ^ 32) line) (parse_hits hits)

-- The line and the hits of a `DA` record.
unfoldable pub read_da : Text → Option (ℕ × ℕ)
unfolding parse_hits
read_da value = line_and_hits (split (λ c. nat_eqb c b',') value)

abbrev pub enter_line : Option (ℕ × ℕ) → Hits ℕ → Hits ℕ
enter_line none lines = lines
enter_line (some (line, hits)) lines = raise_line line hits lines

abbrev enter_name : Option (Text × Text) → Hits Text → Hits Text
enter_name none functions = functions
enter_name (some (line, name)) functions = map_entry name 0 (λ entry. entry) functions

abbrev enter_function : Option (Text × Text) → Hits Text → Hits Text
enter_function none functions = functions
enter_function (some (hits, name)) functions = elim (parse_hits hits) [
  | none ↦ functions
  | some count ↦ raise_function name count functions
]

abbrev declare_found : ℕ → Option (ℕ × ℕ) → Option (ℕ × ℕ)
declare_found count none = some (count, 0)
declare_found count (some (found, hit)) = some (count, hit)

abbrev declare_hit : ℕ → Option (ℕ × ℕ) → Option (ℕ × ℕ)
declare_hit count none = some (0, count)
declare_hit count (some (found, hit)) = some (found, count)

abbrev declare : (ℕ → Option (ℕ × ℕ) → Option (ℕ × ℕ)) → Text → Option (ℕ × ℕ) → Option (ℕ × ℕ)
declare how value slot = elim (parse_number (2 ^ 64) (trim value)) [
  | none ↦ slot
  | some count ↦ how count slot
]

-- A record inside a section, by its tag.
unfoldable pub read_record : Text → Text → Section → Section
unfolding read_da
read_record tag value section =
    if list_eqb tag (codes "DA")
    then record section { lines = enter_line (read_da value) section.lines }
    else if list_eqb tag (codes "FN")
    then record section {
      functions = enter_name (split_at (λ c. nat_eqb c b',') value) section.functions;
    }
    else if list_eqb tag (codes "FNDA")
    then record section {
      functions = enter_function (split_at (λ c. nat_eqb c b',') value) section.functions;
    }
    else if list_eqb tag (codes "LF")
    then record section { declared_lines = declare declare_found value section.declared_lines }
    else if list_eqb tag (codes "LH")
    then record section { declared_lines = declare declare_hit value section.declared_lines }
    else if list_eqb tag (codes "FNF")
    then record section {
      declared_functions = declare declare_found value section.declared_functions;
    }
    else if list_eqb tag (codes "FNH")
    then record section {
      declared_functions = declare declare_hit value section.declared_functions;
    }
    else section

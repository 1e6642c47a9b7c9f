-- ===== src/Core/Coverage/Events.antt =====
-- coverage.rs: what a line of a tracefile says, read by itself.
use ovecc.Prelude.{
  ℕ, max, ◌≡◌, refl, sym, ap, ◌∙◌, subst, Option, none, some, arith, if◌then◌else◌, list_eqb,
  nat_eqb, nat_eq, list_eq, nat_ord, lookup, Ascending, Ascending-map_entry, Bool-cases, inl, inr,
}
use ovecc.Text.{Text, codes}
use ovecc.Core.Coverage.Records.{Hits, Section, read_da, read_record, enter_line}
use ovecc.Core.Coverage.Lcov.{open_at, extend}
use ovecc.Core.Coverage.Merged.{most, most-none, lookup-raise_line, TidyCurrent, current_hits}

-- What a line of a tracefile says of lines: it ends a file, begins one, if it lies in the
-- repository, or reports the hits of a line.
pub data Event : Type 0 where
  ends : Event
  begins : Option Text → Event
  reports : Option (ℕ × ℕ) → Event

abbrev pub path_of : Option (Text × Section) → Option Text
path_of none = none
path_of (some (path, section)) = some path

abbrev pub still_open : Option Text → Event → Option Text
still_open open_ ends = none
still_open open_ (begins path) = path
still_open open_ (reports hits) = open_

abbrev pub line_hits : Option (ℕ × ℕ) → ℕ → Option ℕ
line_hits none line = none
line_hits (some (l, hits)) line = if nat_eqb line l then some hits else none

-- What the event says of a line of a file, by the path of the open section.
abbrev pub said : Text → ℕ → Option Text → Event → Option ℕ
said path line open_ ends = none
said path line open_ (begins p) = none
said path line none (reports hits) = none
said path line (some p) (reports hits) = if list_eqb path p then line_hits hits line else none

pub lookup-enter_line :
    (o : Option (ℕ × ℕ)) (lines : Hits ℕ) (line : ℕ)
    → Ascending lines
    → Ascending (enter_line o lines)
      × (lookup line (enter_line o lines) ≡ most (lookup line lines) (line_hits o line))
lookup-enter_line none lines line up = (up, sym (most-none (lookup line lines)))
lookup-enter_line (some (l, hits)) lines line up = (
  Ascending-map_entry l 0 (λ entry. max entry hits) lines up,
  lookup-raise_line l line hits lines up,
)

abbrev pub da_of : Text → Text → Option (ℕ × ℕ)
da_of tag value = if list_eqb tag (codes "DA") then read_da value else none

pub read_record-lines :
    (tag value : Text) (section : Section)
    → (read_record tag value section).lines ≡ enter_line (da_of tag value) section.lines
unfolding read_record
read_record-lines tag value section = ground arith

pub current_hits-open_at :
    (o : Option Text) (path : Text) (line : ℕ) → current_hits (open_at o) path line ≡ none
current_hits-open_at none path line = refl
current_hits-open_at (some p) path line = ground arith

pub said-silent :
    (path : Text) (line : ℕ) (o : Option Text) → said path line o (reports none) ≡ none
said-silent path line none = refl
said-silent path line (some p) = ground arith

pub extend_lem :
    (tag value : Text) (c : Option (Text × Section)) (path : Text) (line : ℕ)
    → TidyCurrent c
    → TidyCurrent (extend tag value c)
      × (path_of (extend tag value c) ≡ path_of c)
      × (current_hits (extend tag value c) path line
          ≡ most
              (current_hits c path line)
              (said path line (path_of c) (reports (da_of tag value))))
extend_lem tag value none path line tidy = (tt, refl, refl)
extend_lem tag value (some (p, s)) path line tidy =
    let (up, law) = lookup-enter_line (da_of tag value) s.lines line tidy in
    let same = read_record-lines tag value s in
    (
      subst Ascending (sym same) up,
      refl,
      elim (Bool-cases (list_eqb path p)) [
        | inl here ↦ rw here (ap (lookup line) same ∙ law)
        | inr there ↦ rw there refl
      ],
    )

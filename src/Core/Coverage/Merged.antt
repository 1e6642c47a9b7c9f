-- ===== src/Core/Coverage/Merged.antt =====
-- `parse_lcov` of coverage.rs: the hits of a line are the most that any section of its file reports.
use ovecc.Prelude.{
  ℕ, max, ◌≡◌, refl, sym, ap, ◌∙◌, subst, Bool, true, false, Option, none, some, List, [], ◌∷◌, All,
  arith, if◌then◌else◌, list_eqb, list_eqb_iff, nat_eqb, nat_eqb_iff, nat_eq, list_eq, nat_ord,
  list_ord, lookup, lookup-below, lookup-map_entry, lookup-map_entry_other, Ascending,
  Ascending-map_entry, All-map_entry_value, value_or, Bool-cases, inl, inr,
}
use Prim.Native.Nat.{Ordering}
use ovecc.Text.{Text}
use ovecc.Core.Coverage.Records.{Hits, Section, empty_section, raise_line, merge_lines, merge}
use ovecc.Core.Coverage.Lcov.{close_section}

-- The larger of two counts, where there are any.
abbrev pub most : Option ℕ → Option ℕ → Option ℕ
most none b = b
most (some a) none = some a
most (some a) (some b) = some (max a b)

pub most_assoc : (a b c : Option ℕ) → most (most a b) c ≡ most a (most b c)
most_assoc none b c = refl
most_assoc (some a) none c = refl
most_assoc (some a) (some b) none = refl
most_assoc (some a) (some b) (some c) = ap some (omega arith)

pub most-none : (a : Option ℕ) → most a none ≡ a
most-none none = refl
most-none (some a) = refl

raised : (hits : ℕ) (o : Option ℕ) → some (max (value_or 0 o) hits) ≡ most o (some hits)
raised hits none = ap some (omega arith)
raised hits (some a) = refl

pub lookup-raise_line :
    (line k hits : ℕ) (m : Hits ℕ)
    → Ascending m
    → lookup k (raise_line line hits m)
      ≡ most (lookup k m) (if nat_eqb k line then some hits else none)
lookup-raise_line line k hits m up = elim (Bool-cases (nat_eqb k line)) [
  | inl same ↦
      let at : line ≡ k = sym ((nat_eqb_iff k line).0 same) in
      rw same (
        subst (λ i. lookup i (raise_line line hits m) ≡ most (lookup i m) (some hits)) at
          (lookup-map_entry line 0 (λ entry. max entry hits) m up ∙ raised hits (lookup line m)))
  | inr apart ↦ rw apart (
      lookup-map_entry_other line k 0 (λ entry. max entry hits) m
        (λ i. cc ((nat_eqb_iff k line).1 i))
      ∙ sym (most-none (lookup k m)))
]

Ascending-merge_lines : (a b : Hits ℕ) → Ascending a → Ascending (merge_lines a b)
Ascending-merge_lines a [] up = up
Ascending-merge_lines a ((line, hits) ∷ b) up =
    Ascending-merge_lines (raise_line line hits a) b
      (Ascending-map_entry line 0 (λ entry. max entry hits) a up)

joined :
    (b : Bool) (base o : Option ℕ) (hits : ℕ)
    → (b ≡ true → o ≡ none)
    → most (most base (if b then some hits else none)) o ≡ most base (if b then some hits else o)
joined true base o hits out = rw (out refl) (most-none (most base (some hits)))
joined false base o hits out = ap (λ x. most x o) (most-none base)

lookup-merge_lines :
    (a b : Hits ℕ) (k : ℕ)
    → Ascending a
    → Ascending b
    → lookup k (merge_lines a b) ≡ most (lookup k a) (lookup k b)
lookup-merge_lines a [] k up order = sym (most-none (lookup k a))
lookup-merge_lines a ((line, hits) ∷ b) k up order =
    let rest =
      lookup-merge_lines (raise_line line hits a) b k
        (Ascending-map_entry line 0 (λ entry. max entry hits) a up) order.1 in
    let out : nat_eqb k line ≡ true → lookup k b ≡ none = λ same. lookup-below k b (
      subst (λ i. All (λ e. nat_ord.cmp i e.0 ≡ Ordering.lt) b) (sym ((nat_eqb_iff k line).0 same))
        order.0) in
    rest
    ∙ ap (λ x. most x (lookup k b)) (lookup-raise_line line k hits a up)
    ∙ joined (nat_eqb k line) (lookup k a) (lookup k b) hits out

-- The hits of a line in the section of a file, if there are such.
abbrev pub hits_in : Option Section → ℕ → Option ℕ
hits_in o line = lookup line (value_or empty_section o).lines

abbrev pub Tidy : List (Text × Section) → Type 0
Tidy files = Ascending files × All (λ e. Ascending e.1.lines) files

Ascending-hits :
    (files : List (Text × Section)) (path : Text)
    → All (λ e. Ascending e.1.lines) files
    → Ascending (value_or empty_section (lookup path files)).lines
Ascending-hits [] path all = tt
Ascending-hits ((p, s) ∷ files) path all = elim (Bool-cases (list_eqb path p)) [
  | inl same ↦ rw same all.0
  | inr apart ↦ rw apart (Ascending-hits files path all.1)
]

-- What the open section says of a line of the file.
abbrev pub current_hits : Option (Text × Section) → Text → ℕ → Option ℕ
current_hits none path line = none
current_hits (some (p, s)) path line = if list_eqb path p then lookup line s.lines else none

abbrev pub TidyCurrent : Option (Text × Section) → Type 0
TidyCurrent none = Unit {0}
TidyCurrent (some (p, s)) = Ascending s.lines

pub Tidy-close :
    (files : List (Text × Section)) (current : Option (Text × Section))
    → Tidy files
    → TidyCurrent current
    → Tidy (close_section files current)
unfolding merge
Tidy-close files none tidy open_ = tidy
Tidy-close files (some (p, s)) tidy open_ = (
  Ascending-map_entry p empty_section (λ entry. merge entry s) files tidy.0,
  All-map_entry_value (λ (e : Section). Ascending e.lines) p empty_section (λ entry. merge entry s)
      files tt (λ v up. Ascending-merge_lines v.lines s.lines up) tidy.1,
)

pub hits_in-close :
    (files : List (Text × Section)) (current : Option (Text × Section)) (path : Text) (line : ℕ)
    → Tidy files
    → TidyCurrent current
    → hits_in (lookup path (close_section files current)) line
      ≡ most (hits_in (lookup path files) line) (current_hits current path line)
unfolding merge
hits_in-close files none path line tidy open_ = sym (most-none (hits_in (lookup path files) line))
hits_in-close files (some (p, s)) path line tidy open_ = elim (Bool-cases (list_eqb path p)) [
  | inl same ↦
      let at : p ≡ path = sym ((list_eqb_iff path p).0 same) in
      let here : hits_in (lookup p (close_section files (some (p, s)))) line
          ≡ most (hits_in (lookup p files) line) (lookup line s.lines) =
        ap (λ o. hits_in o line)
          (lookup-map_entry p empty_section (λ entry. merge entry s) files tidy.0)
        ∙ lookup-merge_lines (value_or empty_section (lookup p files)).lines s.lines line
            (Ascending-hits files p tidy.1) open_ in
      rw same (
        subst
          (λ q.
            hits_in (lookup q (close_section files (some (p, s)))) line
            ≡ most (hits_in (lookup q files) line) (lookup line s.lines))
          at here)
  | inr apart ↦ rw apart (
      ap (λ o. hits_in o line)
        (lookup-map_entry_other p path empty_section (λ entry. merge entry s) files
          (λ i. cc ((list_eqb_iff path p).1 i)))
      ∙ sym (most-none (hits_in (lookup path files) line)))
]

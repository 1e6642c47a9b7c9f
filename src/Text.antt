-- ===== src/Text.antt =====
-- Text: a string is the list of its Unicode scalar values. Their lexicographic order is that of the
-- UTF-8 bytes, so it is Rust's order on `str`. Here are the methods of `str` that the program calls.
pub mod Laws
pub mod Pieces
use Prim.Native.Char.{code}
use ovecc.Prelude.{
  ℕ, zero, suc, ◌+◌, String, ◌≡◌, Bool, true, false, ◌&&◌, ◌||◌, Option, none, some, List, [], ◌∷◌,
  ◌++◌, map, reverse, leb, if◌then◌else◌, nat_eqb, nat_eq, list_eqb, contains, length, ltb, ◌/◌,
  ◌%◌,
}

abbrev pub Text : Type 0
Text = List ℕ

abbrev pub codes : String → Text
codes String.[] = []
codes (String.◌∷◌ c s) = code c ∷ codes s

-- `strip_prefix`.
abbrev pub strip_prefix : Text → Text → Option Text
strip_prefix [] t = some t
strip_prefix (p ∷ ps) [] = none
strip_prefix (p ∷ ps) (c ∷ t) = if nat_eqb p c then strip_prefix ps t else none

abbrev pub is_some {ℓ} : {A : Type ℓ} → Option A → Bool
is_some none = false
is_some (some a) = true

abbrev pub starts_with : Text → Text → Bool
starts_with p t = is_some (strip_prefix p t)

abbrev pub ends_with : Text → Text → Bool
ends_with p t = starts_with (reverse p) (reverse t)

-- `haystack.contains(needle)`.
abbrev pub contains_text : Text → Text → Bool
contains_text needle [] = starts_with needle []
contains_text needle (c ∷ t) = starts_with needle (c ∷ t) || contains_text needle t

abbrev prepend : ℕ → Option (Text × Text) → Option (Text × Text)
prepend c none = none
prepend c (some (a, b)) = some (c ∷ a, b)

-- `split_once` at the first character that satisfies a test.
abbrev pub split_at : (ℕ → Bool) → Text → Option (Text × Text)
split_at p [] = none
split_at p (c ∷ t) = if p c then some ([], t) else prepend c (split_at p t)

-- `split_once` at the first occurrence of a string.
abbrev pub split_once : Text → Text → Option (Text × Text)
split_once needle [] = elim (strip_prefix needle []) [ none ↦ none | some rest ↦ some ([], rest) ]
split_once needle (c ∷ t) = elim (strip_prefix needle (c ∷ t)) [
  | none ↦ prepend c (split_once needle t)
  | some rest ↦ some ([], rest)
]

abbrev swap_parts : Option (Text × Text) → Option (Text × Text)
swap_parts none = none
swap_parts (some (a, b)) = some (reverse b, reverse a)

-- `rsplit_once` at the last character that satisfies a test.
abbrev pub rsplit_at : (ℕ → Bool) → Text → Option (Text × Text)
rsplit_at p t = swap_parts (split_at p (reverse t))

-- `rsplit_once` at the last occurrence of a string.
abbrev pub rsplit_once : Text → Text → Option (Text × Text)
rsplit_once needle t = swap_parts (split_once (reverse needle) (reverse t))

-- `char::is_whitespace`.
abbrev pub is_space : ℕ → Bool
is_space c =
    (leb 9 c && leb c 13)
    || (leb 0x2000 c && leb c 0x200a)
    || contains c (32 ∷ 0x85 ∷ 0xa0 ∷ 0x1680 ∷ 0x2028 ∷ 0x2029 ∷ 0x202f ∷ 0x205f ∷ 0x3000 ∷ [])

abbrev pub trim_start : (ℕ → Bool) → Text → Text
trim_start p [] = []
trim_start p (c ∷ t) = if p c then trim_start p t else c ∷ t

abbrev pub trim_end : (ℕ → Bool) → Text → Text
trim_end p t = reverse (trim_start p (reverse t))

abbrev pub trim : Text → Text
trim t = trim_end is_space (trim_start is_space t)

abbrev pub is_upper : ℕ → Bool
is_upper c = leb b'A' c && leb c b'Z'

abbrev pub is_lower : ℕ → Bool
is_lower c = leb b'a' c && leb c b'z'

abbrev pub is_alphabetic : ℕ → Bool
is_alphabetic c = is_upper c || is_lower c

abbrev pub lower_byte : ℕ → ℕ
lower_byte c = if is_upper c then c + 32 else c

-- `to_ascii_lowercase`.
abbrev pub lower : Text → Text
lower = map lower_byte

abbrev pub eq_ignore_case : Text → Text → Bool
eq_ignore_case a b = list_eqb (lower a) (lower b)

abbrev pub all : (ℕ → Bool) → Text → Bool
all p [] = true
all p (c ∷ t) = p c && all p t

abbrev pub take_until : (ℕ → Bool) → Text → Text
take_until p [] = []
take_until p (c ∷ t) = if p c then [] else c ∷ take_until p t

-- What delimits the segments of a path, on any platform.
abbrev pub is_separator : ℕ → Bool
is_separator c = nat_eqb c b'/' || nat_eqb c b'\\'

-- `split(p).next()`.
abbrev pub first_piece : (ℕ → Bool) → Text → Text
first_piece = take_until

-- `rsplit(p).next()`: what follows the last separator.
abbrev pub last_piece : (ℕ → Bool) → Text → Text
last_piece p t = reverse (take_until p (reverse t))

-- `split(c)`: the pieces between the separators, never none.
abbrev piece : ℕ → List Text → List Text
piece c [] = (c ∷ []) ∷ []
piece c (t ∷ ts) = (c ∷ t) ∷ ts

abbrev pub split : (ℕ → Bool) → Text → List Text
split p [] = [] ∷ []
split p (c ∷ t) = if p c then [] ∷ split p t else piece c (split p t)

abbrev pub replace_byte : ℕ → ℕ → Text → Text
replace_byte from to = map (λ c. if nat_eqb c from then to else c)

abbrev pub empty : Text → Bool
empty [] = true
empty (c ∷ t) = false

abbrev pub drop_prefixes : ℕ → Text → Text → Text
drop_prefixes zero prefix t = t
drop_prefixes (suc fuel) prefix t = elim (strip_prefix prefix t) [
  | none ↦ t
  | some rest ↦ drop_prefixes fuel prefix rest
]

-- `trim_start_matches` of a string that is not empty: each round takes a character at least.
abbrev pub trim_start_matches : Text → Text → Text
trim_start_matches prefix t = drop_prefixes (length t) prefix t

abbrev digits_of : ℕ → ℕ → Text → Text
digits_of zero n t = t
digits_of (suc fuel) n t = elim (ltb n 10) [
  | true ↦ (b'0' + n) ∷ t
  | false ↦ digits_of fuel (n / 10) ((b'0' + n % 10) ∷ t)
]

-- `to_string` of a number: ten rounds do for a `u32`, and twenty for a `usize`.
abbrev pub decimal : ℕ → Text
decimal n = digits_of 20 n []

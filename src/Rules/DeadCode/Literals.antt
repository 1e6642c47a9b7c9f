-- ===== src/Rules/DeadCode/Literals.antt =====
-- crates/ovecc-rules/src/deadcode.rs: the string literals that name a file.
pub mod Exact
pub mod Reference
use Prim.Native.Nat.{Ordering}
use ovecc.Prelude.{
  ℕ, ◌≡◌, Bool, true, false, not, ◌||◌, Option, none, some, List, [], ◌∷◌, map, if◌then◌else◌, Ord,
  nat_eqb, contains, lookup, push_all, get_or_nil, list_eqb, list_eq, nat_eq, list_ord, nat_ord,
  bool_ord, pair_ord,
}
use ovecc.Text.{
  Text, is_separator, codes, empty, ends_with, last_piece, replace_byte, trim_start,
  trim_start_matches,
}
use ovecc.Core.Facts.{PathLiteralFact}

unfoldable pub file_name : Text → Text
file_name path = last_piece is_separator path

-- The literal with `/` for `\`, and without a leading `./` or `/`.
abbrev pub spelled : Text → Text
spelled literal =
    trim_start (λ c. nat_eqb c b'/')
      (trim_start_matches (codes "./") (replace_byte b'\\' b'/' literal))

unfoldable pub names_file : Text → Text → Bool
names_file literal path =
    if empty (spelled literal)
    then false
    else list_eqb path (spelled literal) || ends_with (b'/' ∷ spelled literal) path

-- A literal, after the file that holds it.
abbrev pub Held : Type 0
Held = Text × PathLiteralFact

unfoldable pub index_literals_by_name : List Held → List (Text × List Held)
unfolding file_name
index_literals_by_name literals = push_all [] (map (λ l. (file_name l.1.value, l)) literals)

pub record LiteralReference : Type 0 where
  pub file : Text
  pub literal : PathLiteralFact

-- Whether the holder is out of reach, the holder, and the line.
abbrev pub Rank : Type 0
Rank = Bool × (Text × ℕ)

abbrev pub rank_ord : Ord Rank
rank_ord = pair_ord

abbrev pub rank_cmp : Rank → Rank → Ordering
rank_cmp = rank_ord.cmp

abbrev pub rank_of : List Text → Held → Rank
rank_of reachable (holder, literal) = (not (contains holder reachable), (holder, literal.line))

-- Another file holds the literal, and it names the file.
abbrev pub refers : Text → Held → Bool
refers path (holder, literal) =
    if list_eqb holder path || not (names_file literal.value path) then false else true

abbrev pub is_lt : Ordering → Bool
is_lt Ordering.lt = true
is_lt Ordering.eq = false
is_lt Ordering.gt = false

abbrev pub is_below : Rank → Option (Rank × PathLiteralFact) → Bool
is_below r none = true
is_below r (some (current, _)) = is_lt (rank_cmp r current)

-- The loop of `literal_reference`.
unfoldable pub best_literal :
    List Text → Text → Option (Rank × PathLiteralFact) → List Held → Option (Rank × PathLiteralFact)
unfolding names_file
best_literal reachable path best [] = best
best_literal reachable path best (held ∷ rest) =
    best_literal reachable path
      (if not (refers path held)
        then best
        else if is_below (rank_of reachable held) best
        then some (rank_of reachable held, held.1)
        else best)
      rest

abbrev pub as_reference : Option (Rank × PathLiteralFact) → Option LiteralReference
as_reference none = none
as_reference (some (r, literal)) = some (record { file = r.1.0; literal = literal })

unfoldable pub literal_reference :
    List (Text × List Held) → List Text → Text → Option LiteralReference
unfolding best_literal file_name
literal_reference literals_by_name reachable path =
    as_reference
      (best_literal reachable path none (get_or_nil (lookup (file_name path) literals_by_name)))

-- ===== src/Core/Query.antt =====
-- crates/ovecc-core/src/query.rs: the query grammar and the target syntax.
pub mod Laws
use ovecc.Prelude.{
  ℕ, ◌+◌, ◌-◌, Bool, true, false, ◌&&◌, ◌||◌, not, Option, none, some, List, [], ◌∷◌, ◌++◌,
  if◌then◌else◌, list_eqb, nat_eqb, nat_eq, leb, length, get_or, take, drop, contains,
}
use ovecc.Text.{
  Text, codes, strip_prefix, split_at, split_once, trim, is_space, is_alphabetic, all, empty,
}

pub data TargetSelector : Type 0 where
  module_target symbol qualified_symbol : Text → TargetSelector
  api : Option Text → Text → TargetSelector
  table file finding free : Text → TargetSelector

pub data Query : Type 0 where
  paths deps reverse_deps : TargetSelector → Query
  relation : TargetSelector → TargetSelector → Query
  module_named : Text → Query
  hotspots violations cycles : Query

-- The usage errors of `parse`, without their messages.
pub data UsageError : Type 0 where
  empty_query : UsageError
  needs_target unknown_verb unparsed : Text → UsageError

pub data Parsed : Type 0 where
  ok : Query → Parsed
  err : UsageError → Parsed

-- Strips one pair of matching quotes. In UTF-8 a quote is one byte, and no byte of another character.
unfoldable pub unquote : Text → Text
unquote value =
    let first = get_or value 0 0 in
    let last = get_or value (length value - 1) 0 in
    if leb 2 (length value)
    then if (nat_eqb first b'"' || nat_eqb first b'\'') && nat_eqb first last
      then take (length value - 2) (drop 1 value)
      else value
    else value

unfoldable pub parse_api : Text → TargetSelector
parse_api rest = elim (split_at (λ c. nat_eqb c b':') rest) [
  | some (method, path) ↦
      if not (empty method) && all is_alphabetic method
      then api (some method) path
      else api none rest
  | none ↦ api none rest
]

-- The loop over `PREFIXED`.
unfoldable pub parse_prefixed : List (Text × (Text → TargetSelector)) → Text → Option TargetSelector
parse_prefixed [] trimmed = none
parse_prefixed ((prefix, make) ∷ more) trimmed = elim (strip_prefix prefix trimmed) [
  | some rest ↦ some (make rest)
  | none ↦ parse_prefixed more trimmed
]

abbrev pub prefixed : List (Text × (Text → TargetSelector))
prefixed =
    (codes "table:", table)
    ∷ (codes "file:", file)
    ∷ (codes "symbol:", symbol)
    ∷ (codes "finding:", finding)
    ∷ []

unfoldable pub parse_plain : Text → TargetSelector
parse_plain trimmed = if contains b'.' trimmed then qualified_symbol trimmed else free trimmed

unfoldable pub parse_unquoted : Text → TargetSelector
unfolding parse_api parse_prefixed parse_plain
parse_unquoted trimmed = elim (strip_prefix (codes "api:") trimmed) [
  | some rest ↦ parse_api rest
  | none ↦ elim (parse_prefixed prefixed trimmed) [
    | some selector ↦ selector
    | none ↦ parse_plain trimmed
  ]
]

-- `TargetSelector::parse`.
unfoldable pub parse_target : Text → TargetSelector
unfolding parse_unquoted unquote
parse_target input = parse_unquoted (unquote (trim input))

unfoldable pub needle : TargetSelector → Text
needle (module_target s) = s
needle (symbol s) = s
needle (qualified_symbol s) = s
needle (table s) = s
needle (file s) = s
needle (finding s) = s
needle (free s) = s
needle (api method path) = path

abbrev unknown_or : Text → Text → Parsed
unknown_or verb target =
    if list_eqb verb (codes "module") then ok (module_named target) else err (unknown_verb verb)

unfoldable pub parse_verb : Text → Text → Parsed
unfolding parse_target
parse_verb verb target =
    if list_eqb verb (codes "paths")
    then ok (paths (parse_target target))
    else if list_eqb verb (codes "deps")
    then ok (deps (parse_target target))
    else if list_eqb verb (codes "rdeps")
    then ok (reverse_deps (parse_target target))
    else unknown_or verb target

-- The part of `Query::parse` behind the named queries.
unfoldable pub parse_phrase : Text → Parsed
unfolding parse_verb parse_target
parse_phrase trimmed = elim (split_once (codes "->") trimmed) [
  | some (source, target) ↦ ok (relation (parse_target (trim source)) (parse_target (trim target)))
  | none ↦ elim (split_at is_space trimmed) [
    | some (verb, rest) ↦
        if empty (trim rest) then err (needs_target verb) else parse_verb verb (trim rest)
    | none ↦ err (unparsed trimmed)
  ]
]

-- `Query::parse`.
unfoldable pub parse : Text → Parsed
unfolding parse_phrase
parse input =
    let trimmed = trim input in
    if empty trimmed
    then err empty_query
    else if list_eqb trimmed (codes "hotspots")
    then ok hotspots
    else if list_eqb trimmed (codes "violations")
    then ok violations
    else if list_eqb trimmed (codes "cycles")
    then ok cycles
    else parse_phrase trimmed

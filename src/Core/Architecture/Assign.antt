-- ===== src/Core/Architecture/Assign.antt =====
-- crates/ovecc-core/src/architecture.rs: which component owns a file, which slice it lies in, and
-- the imports between slices that the `@x` notation opens. Lengths are those of the UTF-8 bytes.
pub mod Contest
pub mod Candidates
pub mod Ownership
pub mod Owners
pub mod Notation
use ovecc.Prelude.{
  ℕ, ◌+◌, Bool, true, false, not, ◌&&◌, Option, none, some, List, [], ◌∷◌, ◌++◌, map, if◌then◌else◌,
  list_eqb, nat_eq, list_eq, nat_ord, list_ord, pair_cmp, contains, nat_eqb, ltb, leb, lookup,
  keep_if, Result, ok, err, ◌>>=◌, map_insert,
}
use Prim.Native.Nat.{Ordering}
use ovecc.Text.{Text, codes, strip_prefix, starts_with, split, split_at, rsplit_at, empty}
use ovecc.Core.Architecture.{ComponentSpec, ArchitectureContract, slashed}
use ovecc.Core.Architecture.Validate.{
  ContractError, Checked, unreadable_glob, contested_file, is_nil,
}

abbrev utf8_width : ℕ → ℕ
utf8_width c = if ltb c 0x80 then 1 else if ltb c 0x800 then 2 else if ltb c 0x10000 then 3 else 4

-- `str::len`.
abbrev pub byte_len : Text → ℕ
byte_len [] = 0
byte_len (c ∷ t) = utf8_width c + byte_len t

abbrev is_wildcard : ℕ → Bool
is_wildcard c = contains c (b'*' ∷ b'?' ∷ b'[' ∷ b'{' ∷ [])

-- What a pattern fixes before its first wildcard.
unfoldable pub literal_prefix : Text → Text
literal_prefix [] = []
literal_prefix (c ∷ t) = if is_wildcard c then [] else c ∷ literal_prefix t

unfoldable pub literal_prefix_len : Text → ℕ
unfolding literal_prefix
literal_prefix_len pattern = byte_len (literal_prefix pattern)

pub record Candidate (Matcher : Type 0) : Type 0 where
  pub component : Text
  pub matcher : Matcher
  pub specificity : ℕ × ℕ
  pub pattern : Text

unfoldable pub specificity_of : Text → ℕ × ℕ
unfolding literal_prefix_len
specificity_of pattern = (literal_prefix_len pattern, byte_len pattern)

-- `best` and `contested` of the loop over the candidates.
pub record Claim (Matcher : Type 0) : Type 0 where
  pub best : Option (Candidate Matcher)
  pub contested : Option (Candidate Matcher)

abbrev pub unclaimed : {Matcher : Type 0} → Claim Matcher
unclaimed = record { best = none; contested = none }

module _ {Matcher : Type 0} (is_match : Matcher → Text → Bool) where
  -- A matching candidate against the best one so far.
  unfoldable pub challenge : Claim Matcher → Candidate Matcher → Candidate Matcher → Claim Matcher
  challenge claim current candidate = elim (pair_cmp candidate.specificity current.specificity) [
    | Ordering.gt ↦ record { best = some candidate; contested = none }
    | Ordering.eq ↦
        if list_eqb candidate.component current.component
        then claim
        else record claim { contested = some candidate }
    | Ordering.lt ↦ claim
  ]

  unfoldable pub consider : Text → Claim Matcher → Candidate Matcher → Claim Matcher
  unfolding challenge
  consider path claim candidate =
      if is_match candidate.matcher path
      then elim claim.best [
        | none ↦ record claim { best = some candidate }
        | some current ↦ challenge claim current candidate
      ]
      else claim

  unfoldable pub claim_of : Text → Claim Matcher → List (Candidate Matcher) → Claim Matcher
  unfolding consider
  claim_of path claim [] = claim
  claim_of path claim (c ∷ cs) = claim_of path (consider path claim c) cs

  -- What a claim does to the assignment.
  unfoldable pub settle :
      Text → Text → Claim Matcher → List (Text × Text) → Checked (List (Text × Text))
  settle file path claim assignment = elim claim.best [
    | none ↦ ok assignment
    | some best ↦ elim claim.contested [
      | none ↦ ok (map_insert file best.component assignment)
      | some contested ↦
          err
            (contested_file path best.component best.pattern contested.component contested.pattern)
    ]
  ]

  -- The loop over the files.
  unfoldable pub assign_files :
      List (Candidate Matcher) → List (Text × Text) → List Text → Checked (List (Text × Text))
  unfolding settle claim_of
  assign_files candidates assignment [] = ok assignment
  assign_files candidates assignment (file ∷ files) =
      settle file (slashed file) (claim_of (slashed file) unclaimed candidates) assignment
      >>= λ next. assign_files candidates next files

module _ {Matcher : Type 0} (compile_glob : Text → Option Matcher) where
  -- The candidates of one component, behind those so far.
  unfoldable pub candidates_from :
      Text → List (Candidate Matcher) → List Text → Checked (List (Candidate Matcher))
  unfolding specificity_of
  candidates_from component candidates [] = ok candidates
  candidates_from component candidates (pattern ∷ patterns) =
      let more = λ (matcher : Matcher).
        candidates_from component
          (candidates
            ++ record {
              component = component;
              matcher = matcher;
              specificity = specificity_of pattern;
              pattern = pattern;
            }
              ∷ [])
          patterns in
      elim (compile_glob pattern) [
        | none ↦ err (unreadable_glob pattern)
        | some matcher ↦ more matcher
      ]

module _ {F Matcher : Type 0} (compile_glob : Text → Option Matcher) where
  unfoldable pub all_candidates :
      List (Candidate Matcher) → List (ComponentSpec F) → Checked (List (Candidate Matcher))
  unfolding candidates_from
  all_candidates candidates [] = ok candidates
  all_candidates candidates (c ∷ cs) =
      candidates_from compile_glob c.name candidates c.paths >>= λ next. all_candidates next cs

  unfoldable pub assign_components :
      (Matcher → Text → Bool) → ArchitectureContract F → List Text → Checked (List (Text × Text))
  unfolding all_candidates assign_files
  assign_components is_match contract files =
      all_candidates [] contract.components >>= λ candidates.
      assign_files is_match candidates [] files

-- The text up to and with its last slash.
abbrev pub directory_of : Text → Text
directory_of literal = elim (rsplit_at (λ c. nat_eqb c b'/') literal) [
  | none ↦ []
  | some (before, after) ↦ before ++ b'/' ∷ []
]

unfoldable pub slice_prefixes : {F : Type 0} → ComponentSpec F → List Text
unfolding literal_prefix
slice_prefixes c = map (λ pattern. directory_of (literal_prefix pattern)) c.paths

-- `max_by_key`: the last of the longest prefixes, `best` being that of the ones so far.
abbrev longest : Text → List Text → Text
longest best [] = best
longest best (p ∷ ps) = longest (if leb (byte_len best) (byte_len p) then p else best) ps

abbrev longest_of : List Text → Option Text
longest_of [] = none
longest_of (p ∷ ps) = some (longest p ps)

-- The first directory of a file below a prefix of its component, if it has one.
unfoldable pub slice_under : List Text → Text → Option Text
slice_under prefixes path = elim (longest_of (keep_if (λ p. starts_with p path) prefixes)) [
  | none ↦ none
  | some prefix ↦ elim (strip_prefix prefix path) [
    | none ↦ none
    | some rest ↦ elim (split_at (λ c. nat_eqb c b'/') rest) [
      | none ↦ none
      | some (slice, below) ↦ if empty slice then none else some slice
    ]
  ]
]

abbrev sliced_from :
    {F : Type 0} → List (Text × List Text) → List (ComponentSpec F) → List (Text × List Text)
sliced_from sliced [] = sliced
sliced_from sliced (c ∷ cs) = sliced_from (map_insert c.name (slice_prefixes c) sliced) cs

abbrev slices_from :
    List (Text × List Text) → List (Text × Text) → List (Text × Text) → List (Text × Text)
slices_from sliced assignment [] = assignment
slices_from sliced assignment ((file, component) ∷ rest) =
    let skip = slices_from sliced assignment rest in
    let enter = λ (slice : Text).
      slices_from sliced (map_insert file (component ++ b'/' ∷ slice) assignment) rest in
    elim (lookup component sliced) [
      | none ↦ skip
      | some prefixes ↦ elim (slice_under prefixes (slashed file)) [
        | none ↦ skip
        | some slice ↦ enter slice
      ]
    ]

unfoldable pub assign_slices :
    {F : Type 0} → ArchitectureContract F → List (Text × Text) → List (Text × Text)
unfolding slice_under slice_prefixes
assign_slices contract component_of =
    let sliced = sliced_from [] (keep_if (λ c. c.slices) contract.components) in
    if is_nil sliced then [] else slices_from sliced [] component_of

abbrev pub last_segment : Text → Text
last_segment slice = elim (rsplit_at (λ c. nat_eqb c b'/') slice) [
  | none ↦ slice
  | some (before, after) ↦ after
]

abbrev pub stem_of : Text → Text
stem_of segment = elim (split_at (λ c. nat_eqb c b'.') segment) [
  | none ↦ segment
  | some (stem, extension) ↦ stem
]

abbrev pub names_stem : Text → List Text → Bool
names_stem source [] = false
names_stem source (next ∷ rest) = list_eqb (stem_of next) source

-- The loop over the segments of a path.
unfoldable pub x_scan : Text → List Text → Bool
x_scan source [] = false
x_scan source (segment ∷ segments) =
    if list_eqb segment (codes "@x") && names_stem source segments
    then true
    else x_scan source segments

unfoldable pub x_notation_allows : Text → Text → Bool
unfolding x_scan
x_notation_allows source_slice target_path =
    x_scan (last_segment source_slice) (split (λ c. nat_eqb c b'/') (slashed target_path))

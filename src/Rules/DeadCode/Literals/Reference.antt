-- ===== src/Rules/DeadCode/Literals/Reference.antt =====
-- crates/ovecc-rules/src/deadcode.rs: what `literal_reference` finds, over all literals.
use Prim.Native.Nat.{Ordering}
use ovecc.Prelude.{
  ◌≡◌, ◌≢◌, ◌⊎◌, ◌↔◌, inl, inr, ⊎_elim, sym, ap, subst, true, false, Option, none, some, List,
  arith, Elem, lookup, get_or_nil, list_eqb_iff, list_eq, nat_eq, Bool-cases,
}
use ovecc.Text.{Text}
use ovecc.Core.Facts.{PathLiteralFact}
use ovecc.Rules.DeadCode.Literals.{
  file_name, names_file, Held, index_literals_by_name, LiteralReference, Rank, rank_cmp, rank_of,
  refers, as_reference, literal_reference,
}
use ovecc.Rules.DeadCode.Literals.Exact.{
  names_file-file_name, Elem-index_literals, IsBest, best_literal-IsBest,
}

-- The literal stands in another file and names this one, and none that does ranks below it.
abbrev pub IsBestNamed : List Held → List Text → Text → Held → Type 0
IsBestNamed literals reachable path held =
    Elem held literals
    × (held.0 ≢ path)
    × (names_file held.1.value path ≡ true)
    × ((other : Held)
        → Elem other literals
        → other.0 ≢ path
        → names_file other.1.value path ≡ true
        → rank_cmp (rank_of reachable other) (rank_of reachable held) ≢ Ordering.lt)

-- What `literal_reference` has to find.
abbrev pub IsReference : List Held → List Text → Text → Option LiteralReference → Type 0
IsReference literals reachable path none =
    (held : Held) → Elem held literals → held.0 ≢ path → names_file held.1.value path ≡ false
IsReference literals reachable path (some r) =
    IsBestNamed literals reachable path (r.file, r.literal)

refers_iff :
    (path : Text) (held : Held)
    → (refers path held ≡ true) ↔ ((held.0 ≢ path) × (names_file held.1.value path ≡ true))
refers_iff path held = ground (arith, list_eqb_iff held.0 path)

IsBest-IsReference :
    (literals : List Held) (reachable : List Text) (path : Text)
    (best : Option (Rank × PathLiteralFact))
    → IsBest reachable path
        (λ x. ⊥ ⊎ Elem x (get_or_nil (lookup (file_name path) (index_literals_by_name literals))))
        best
    → IsReference literals reachable path (as_reference best)
IsBest-IsReference literals reachable path none h = λ held here apart.
    let law = refers_iff path held in
    elim (Bool-cases (names_file held.1.value path)) [
      | inr other ↦ other
      | inl names ↦ cc (
        law.1 (apart, names),
        h held (
            inr (
              (Elem-index_literals literals path held).1
                (here, names_file-file_name held.1.value path names))),
      )
    ]
IsBest-IsReference literals reachable path (some (r, literal)) (((holder, l), p, f, g, i), least) =
    let held : Held = (holder, l) in
    let (apart, names) = (refers_iff path held).0 f in
    let (here, _) =
      (Elem-index_literals literals path held).0 (⊎_elim (λ x. absurd x) (λ m. m) p) in
    let same : held ≡ (r.1.0, literal) = cc (ap {B = Text} (λ k. k.1.0) g, i) in
    subst (IsBestNamed literals reachable path) same (
      here,
      apart,
      names,
      λ x m a n.
          subst (λ k. rank_cmp (rank_of reachable x) k ≢ Ordering.lt) (sym g)
            (least x
              (inr (
                (Elem-index_literals literals path x).1 (m, names_file-file_name x.1.value path n)))
              ((refers_iff path x).1 (a, n))),
    )

-- Over the literals that the index holds under a file's name, `literal_reference` finds what there
-- is to find among all literals: nothing where no other file holds a literal that names the file, and
-- else one that names it and below which no other such literal ranks.
pub literal_reference-IsReference :
    (literals : List Held) (reachable : List Text) (path : Text)
    → IsReference literals reachable path
        (literal_reference (index_literals_by_name literals) reachable path)
unfolding literal_reference
literal_reference-IsReference literals reachable path =
    IsBest-IsReference literals reachable path _ (
      best_literal-IsBest reachable path (λ _. ⊥)
        (get_or_nil (lookup (file_name path) (index_literals_by_name literals))) none
        (λ held p. absurd p))

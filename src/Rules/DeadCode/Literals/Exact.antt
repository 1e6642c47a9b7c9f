-- ===== src/Rules/DeadCode/Literals/Exact.antt =====
-- crates/ovecc-rules/src/deadcode.rs: the literal that `literal_reference` finds among those that
-- the index offers is the best of all.
use Prim.Native.Nat.{Ordering}
use ovecc.Prelude.{
  ◌≡◌, ◌≢◌, ◌⊎◌, ◌↔◌, inl, inr, ⊎_elim, refl, sym, ap, ◌∙◌, subst, true, false, not, ◌||◌, Option,
  none, some, List, [], ◌∷◌, map, if◌then◌else◌, arith, not_lt_trans, not_lt_refl, nat_eqb, Elem,
  Elem-map, Elem-unmap, Elem-push_all, lookup, get_or_nil, list_eqb, list_eqb_iff, list_eq, nat_eq,
  list_ord, nat_ord, bool_ord, pair_ord, Bool-cases,
}
use ovecc.Text.{is_separator, Text, codes, empty, ends_with, replace_byte, trim_start_matches}
use ovecc.Text.Pieces.{
  last_piece-map, last_piece-trim_start_matches, last_piece-trim_start, last_piece-ends_with,
}
use ovecc.Core.Facts.{PathLiteralFact}
use ovecc.Rules.DeadCode.Literals.{
  file_name, spelled, names_file, Held, index_literals_by_name, Rank, rank_ord, rank_cmp, rank_of,
  refers, is_lt, is_below, best_literal,
}

file_name-spelled : (literal : Text) → file_name (spelled literal) ≡ file_name literal
unfolding file_name
file_name-spelled literal =
    last_piece-trim_start is_separator (λ c. nat_eqb c b'/')
      (trim_start_matches (codes "./") (replace_byte b'\\' b'/' literal)) (λ c h. rw h)
    ∙ last_piece-trim_start_matches is_separator (b'.' ∷ []) b'/' (replace_byte b'\\' b'/' literal)
        refl
    ∙ last_piece-map is_separator (λ c. if nat_eqb c b'\\' then b'/' else c) literal
        (λ c. ground arith) (λ c h. ground arith)

spelled-file_name :
    (literal path : Text)
    → ends_with (b'/' ∷ spelled literal) path ≡ true
    → file_name path ≡ file_name (spelled literal)
unfolding file_name
spelled-file_name literal path = last_piece-ends_with is_separator b'/' (spelled literal) path refl

-- A literal that names a file ends in the file's name, so the index leaves none out.
pub names_file-file_name :
    (literal path : Text) → names_file literal path ≡ true → file_name literal ≡ file_name path
unfolding names_file
names_file-file_name literal path h = elim (Bool-cases (empty (spelled literal))) [
  | inl nothing ↦ cc (rw nothing at h)
  | inr something ↦
      let found : (list_eqb path (spelled literal) || ends_with (b'/' ∷ spelled literal) path)
          ≡ true =
        rw something at h in
      sym (file_name-spelled literal)
      ∙ sym (elim (Bool-cases (list_eqb path (spelled literal))) [
        | inl same ↦ ap file_name ((list_eqb_iff path (spelled literal)).0 same)
        | inr other ↦ spelled-file_name literal path (rw other at found)
      ])
]

pub Elem-index_literals :
    (literals : List Held) (path : Text) (held : Held)
    → Elem held (get_or_nil (lookup (file_name path) (index_literals_by_name literals)))
      ↔ (Elem held literals × (file_name held.1.value ≡ file_name path))
unfolding index_literals_by_name
Elem-index_literals literals path held =
    let key : Held → Text × Held = λ l. (file_name l.1.value, l) in
    let law = Elem-push_all (file_name path) held [] (map key literals) in
    (
      λ m.
          let (l, here, q) =
            Elem-unmap key (file_name path, held) literals
              (⊎_elim (λ i. i) (λ i. absurd i) (law.0 m)) in
          let same : l ≡ held = cc q in (subst (λ x. Elem x literals) same here, cc (q, same)),
      λ (here, q). law.1 (
          inl (subst (λ n. Elem (n, held) (map key literals)) q (Elem-map key held literals here))),
    )

is_lt_iff : (o : Ordering) → (is_lt o ≡ true) ↔ (o ≡ Ordering.lt)
is_lt_iff Ordering.lt = ground arith
is_lt_iff Ordering.eq = ground arith
is_lt_iff Ordering.gt = ground arith

module _ (reachable : List Text) (path : Text) where
  -- What the loop leaves: nothing where no literal refers to the file, or one that does, and below
  -- which none that refers to the file ranks.
  abbrev pub IsBest : (Held → Type 0) → Option (Rank × PathLiteralFact) → Type 0
  IsBest P none = (held : Held) → P held → refers path held ≡ false
  IsBest P (some (r, literal)) =
      ((held : Held) × P held
        × (refers path held ≡ true)
        × (rank_of reachable held ≡ r)
        × (held.1 ≡ literal))
      × ((held : Held)
          → P held
          → refers path held ≡ true
          → rank_cmp (rank_of reachable held) r ≢ Ordering.lt)

  IsBest-map :
      (P Q : Held → Type 0) (best : Option (Rank × PathLiteralFact))
      → ((held : Held) → P held ↔ Q held)
      → IsBest P best
      → IsBest Q best
  IsBest-map P Q none law h = λ held q. h held ((law held).1 q)
  IsBest-map P Q (some (r, literal)) law ((held, p, f, g, i), least) =
      ((held, (law held).0 p, f, g, i), λ x q. least x ((law x).1 q))

  level :
      (x held : Held)
      → x ≡ held
      → rank_cmp (rank_of reachable x) (rank_of reachable held) ≢ Ordering.lt
  level x held e =
      subst (λ y. rank_cmp (rank_of reachable x) (rank_of reachable y) ≢ Ordering.lt) e
        (not_lt_refl (rank_of reachable x))

  -- A literal that takes the place of the best one, and one that does not.
  under :
      (x held : Held) (r : Rank)
      → rank_cmp (rank_of reachable x) r ≢ Ordering.lt
      → is_lt (rank_cmp (rank_of reachable held) r) ≡ true
      → rank_cmp (rank_of reachable x) (rank_of reachable held) ≢ Ordering.lt
  under x held r h below = not_lt_trans (rank_of reachable x) r (rank_of reachable held) h (λ bad.
      cc (
        bad,
        (is_lt_iff (rank_cmp (rank_of reachable held) r)).0 below,
        rank_ord.cmp_flip (rank_of reachable held) r,
      ))

  not_under :
      (x held : Held) (r : Rank)
      → x ≡ held
      → is_lt (rank_cmp (rank_of reachable held) r) ≡ false
      → rank_cmp (rank_of reachable x) r ≢ Ordering.lt
  not_under x held r e rest lt = cc (
    rest,
    (is_lt_iff (rank_cmp (rank_of reachable held) r)).1
        (subst (λ z. rank_cmp (rank_of reachable z) r ≡ Ordering.lt) e lt),
  )

  round-IsBest :
      (P : Held → Type 0) (held : Held) (best : Option (Rank × PathLiteralFact))
      → IsBest P best
      → IsBest
          (λ x. P x ⊎ (x ≡ held))
          (if not (refers path held)
            then best
            else if is_below (rank_of reachable held) best
            then some (rank_of reachable held, held.1)
            else best)
  round-IsBest P held none h = elim (Bool-cases (refers path held)) [
    | inr other ↦
        rw other (λ x. ⊎_elim (h x) (λ e. subst (λ y. refers path y ≡ false) (sym e) other))
    | inl names ↦ rw names (
      (held, inr refl, names, refl, refl),
      λ x q ok. ⊎_elim (λ p. cc (h x p, ok)) (λ e. level x held e) q,
    )
  ]
  round-IsBest P held (some (r, literal)) ((y, p, f, g, i), least) =
      elim (Bool-cases (refers path held)) [
        | inr other ↦ rw other (
          (y, inl p, f, g, i),
          λ x q ok. ⊎_elim (λ k. least x k ok) (λ e. cc (other, ok, ap (refers path) e)) q,
        )
        | inl names ↦ elim (Bool-cases (is_below (rank_of reachable held) (some (r, literal)))) [
          | inl below ↦
              rw (names, below)
                (
                  (held, inr refl, names, refl, refl),
                  λ x q ok.
                      ⊎_elim (λ k. under x held r (least x k ok) below) (λ e. level x held e) q,
                )
          | inr rest ↦
              rw (names, rest)
                (
                  (y, inl p, f, g, i),
                  λ x q ok. ⊎_elim (λ k. least x k ok) (λ e. not_under x held r e rest) q,
                )
        ]
      ]

  pub best_literal-IsBest :
      (P : Held → Type 0) (literals : List Held) (best : Option (Rank × PathLiteralFact))
      → IsBest P best
      → IsBest (λ x. P x ⊎ Elem x literals) (best_literal reachable path best literals)
  unfolding best_literal
  best_literal-IsBest P [] best h =
      IsBest-map P (λ x. P x ⊎ ⊥) best (λ x. (inl, ⊎_elim (λ p. p) (λ i. absurd i))) h
  best_literal-IsBest P (held ∷ literals) best h =
      IsBest-map (λ x. (P x ⊎ (x ≡ held)) ⊎ Elem x literals) (λ x. P x ⊎ Elem x (held ∷ literals)) _
        (λ x. ground arith)
        (best_literal-IsBest (λ x. P x ⊎ (x ≡ held)) literals _ (round-IsBest P held best h))

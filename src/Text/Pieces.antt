-- ===== src/Text/Pieces.antt =====
-- The last piece of a text: what stands in front of a separator, and which separator it is, are
-- nothing to it.
use ovecc.Prelude.{
  ℕ, zero, suc, ◌≡◌, refl, sym, ap, ◌∙◌, Bool, true, false, [], ◌∷◌, ◌++◌, map, reverse,
  append_assoc, arith, Bool-cases, Option-cases, inl, inr,
}
use mathlib.Core.List.{reverse-append, reverse-cons, map-append}
use ovecc.Text.{
  Text, strip_prefix, ends_with, take_until, last_piece, drop_prefixes, trim_start_matches,
  trim_start,
}
use ovecc.Text.Laws.{strip_prefix-eq-some}

take_until-append :
    (p : ℕ → Bool) (a : Text) (c : ℕ) (b : Text)
    → p c ≡ true
    → take_until p (a ++ c ∷ b) ≡ take_until p a
take_until-append p [] c b h = rw h
take_until-append p (x ∷ a) c b h = ground (arith, take_until-append p a c b h)

pub last_piece-append :
    (p : ℕ → Bool) (a : Text) (c : ℕ) (b : Text)
    → p c ≡ true
    → last_piece p (a ++ c ∷ b) ≡ last_piece p b
last_piece-append p a c b h = ap reverse (
    ap (take_until p) (
      reverse-append a (c ∷ b)
      ∙ ap (λ r. r ++ reverse a) (reverse-cons c b)
      ∙ append_assoc (reverse b) (c ∷ []) (reverse a))
    ∙ take_until-append p (reverse b) c (reverse a) h)

reverse-map : (f : ℕ → ℕ) (t : Text) → reverse (map f t) ≡ map f (reverse t)
reverse-map f [] = refl
reverse-map f (c ∷ t) =
    reverse-cons (f c) (map f t)
    ∙ ap (λ r. r ++ f c ∷ []) (reverse-map f t)
    ∙ sym (map-append f (reverse t) (c ∷ []))
    ∙ ap (map f) (sym (reverse-cons c t))

-- A character that is exchanged for one that is a separator as it is.
take_until-map :
    (p : ℕ → Bool) (f : ℕ → ℕ) (t : Text)
    → ((c : ℕ) → p (f c) ≡ p c)
    → ((c : ℕ) → p c ≡ false → f c ≡ c)
    → take_until p (map f t) ≡ take_until p t
take_until-map p f [] keeps fixes = refl
take_until-map p f (c ∷ t) keeps fixes = elim (Bool-cases (p c)) [
  | inl cut ↦ rw (keeps c, cut)
  | inr on ↦ rw (keeps c, on, fixes c on, take_until-map p f t keeps fixes)
]

pub last_piece-map :
    (p : ℕ → Bool) (f : ℕ → ℕ) (t : Text)
    → ((c : ℕ) → p (f c) ≡ p c)
    → ((c : ℕ) → p c ≡ false → f c ≡ c)
    → last_piece p (map f t) ≡ last_piece p t
last_piece-map p f t keeps fixes =
    ap reverse (ap (take_until p) (reverse-map f t) ∙ take_until-map p f (reverse t) keeps fixes)

drop_prefixes-last_piece :
    (p : ℕ → Bool) (fuel : ℕ) (a : Text) (c : ℕ) (t : Text)
    → p c ≡ true
    → last_piece p (drop_prefixes fuel (a ++ c ∷ []) t) ≡ last_piece p t
drop_prefixes-last_piece p zero a c t h = refl
drop_prefixes-last_piece p (suc fuel) a c t h = elim (Option-cases (strip_prefix (a ++ c ∷ []) t)) [
  | inl missing ↦ rw (missing, drop_prefixes) refl
  | inr (rest, found) ↦
      rw (found, drop_prefixes)
        (drop_prefixes-last_piece p fuel a c rest h
          ∙ sym (last_piece-append p a c rest h)
          ∙ ap (last_piece p) (
              sym (append_assoc a (c ∷ []) rest)
              ∙ sym (strip_prefix-eq-some (a ++ c ∷ []) t rest found)))
]

-- Prefixes that end in a separator.
pub last_piece-trim_start_matches :
    (p : ℕ → Bool) (a : Text) (c : ℕ) (t : Text)
    → p c ≡ true
    → last_piece p (trim_start_matches (a ++ c ∷ []) t) ≡ last_piece p t
last_piece-trim_start_matches p a c t h = drop_prefixes-last_piece p _ a c t h

pub last_piece-trim_start :
    (p q : ℕ → Bool) (t : Text)
    → ((c : ℕ) → q c ≡ true → p c ≡ true)
    → last_piece p (trim_start q t) ≡ last_piece p t
last_piece-trim_start p q [] h = refl
last_piece-trim_start p q (c ∷ t) h = elim (Bool-cases (q c)) [
  | inl off ↦ rw off (last_piece-trim_start p q t h ∙ sym (last_piece-append p [] c t (h c off)))
  | inr on ↦ rw on refl
]

-- A text that ends in a separator and a text ends in the same piece.
pub last_piece-ends_with :
    (p : ℕ → Bool) (c : ℕ) (t path : Text)
    → p c ≡ true
    → ends_with (c ∷ t) path ≡ true
    → last_piece p path ≡ last_piece p t
last_piece-ends_with p c t path h e =
    elim (Option-cases (strip_prefix (reverse (c ∷ t)) (reverse path))) [
      | inl missing ↦ cc (rw missing at e)
      | inr (rest, found) ↦ ap reverse (
          ap (take_until p) (
            strip_prefix-eq-some (reverse (c ∷ t)) (reverse path) rest found
            ∙ ap (λ r. r ++ rest) (reverse-cons c t)
            ∙ append_assoc (reverse t) (c ∷ []) rest)
          ∙ take_until-append p (reverse t) c rest h)
    ]

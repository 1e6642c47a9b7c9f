-- ===== src/Text/Laws.antt =====
-- What the methods of `str` do together.
use ovecc.Prelude.{
  ℕ, ◌≡◌, refl, sym, ap, Bool, true, false, some, [], ◌∷◌, ◌++◌, arith, All, if◌then◌else◌,
  nat_eqb_iff, Bool-cases, Option-cases, inl, inr,
}
use ovecc.Text.{Text, strip_prefix, split_at, split_once, trim_start, all}

pub strip_prefix-append : (p t : Text) → strip_prefix p (p ++ t) ≡ some t
strip_prefix-append [] t = refl
strip_prefix-append (c ∷ p) t = ground (arith, nat_eqb_iff c c, strip_prefix-append p t)

pub strip_prefix-eq-some : (p t rest : Text) → strip_prefix p t ≡ some rest → t ≡ p ++ rest
strip_prefix-eq-some [] t rest h = ground arith
strip_prefix-eq-some (c ∷ p) [] rest h = cc
strip_prefix-eq-some (c ∷ p) (d ∷ t) rest h =
    ground (arith, nat_eqb_iff c d, strip_prefix-eq-some p t rest)

pub split_at-append :
    (p : ℕ → Bool) (a : Text) (c : ℕ) (b : Text)
    → all (λ x. if p x then false else true) a ≡ true
    → p c ≡ true
    → split_at p (a ++ c ∷ b) ≡ some (a, b)
split_at-append p [] c b h k = ground arith
split_at-append p (x ∷ a) c b h k = ground (arith, split_at-append p a c b)

parts : (p q : Text × Text) → some p ≡ some q → (p.0 ≡ q.0) × (p.1 ≡ q.1)
parts p q h = let e : p ≡ q = cc in (ap (λ r. r.0) e, ap (λ r. r.1) e)

-- A split gives back its text around the separator, which passed the test.
pub split_at-some :
    (p : ℕ → Bool) (t a b : Text)
    → split_at p t ≡ some (a, b)
    → (c : ℕ) × (p c ≡ true) × (t ≡ a ++ c ∷ b)
split_at-some p [] a b h = cc
split_at-some p (x ∷ t) a b h = elim (Bool-cases (p x)) [
  | inl yes_p ↦
      let e = parts ([], t) (a, b) (rw (yes_p, split_at) at h) in
      (x, yes_p, rw (sym e.0, sym e.1) refl)
  | inr no_p ↦ elim (Option-cases (split_at p t)) [
    | inl missing ↦ cc (rw (no_p, missing, split_at) at h)
    | inr ((u, v), found) ↦
        let e = parts (x ∷ u, v) (a, b) (rw (no_p, found, split_at) at h) in
        let (c, k, r) = split_at-some p t u v found in
        (c, k, rw (sym e.0, sym e.1) (ap (λ z. x ∷ z) r))
  ]
]

pub split_once-some : (n t a b : Text) → split_once n t ≡ some (a, b) → t ≡ a ++ n ++ b
split_once-some n [] a b h = elim (Option-cases (strip_prefix n [])) [
  | inl missing ↦ cc (rw (missing, split_once) at h)
  | inr (rest, found) ↦
      let e = parts ([], rest) (a, b) (rw (found, split_once) at h) in
      rw (sym e.0, sym e.1) (strip_prefix-eq-some n [] rest found)
]
split_once-some n (x ∷ t) a b h = elim (Option-cases (strip_prefix n (x ∷ t))) [
  | inl missing ↦ elim (Option-cases (split_once n t)) [
    | inl nowhere ↦ cc (rw (missing, nowhere, split_once) at h)
    | inr ((u, v), found) ↦
        let e = parts (x ∷ u, v) (a, b) (rw (missing, found, split_once) at h) in
        rw (sym e.0, sym e.1) (ap (λ z. x ∷ z) (split_once-some n t u v found))
  ]
  | inr (rest, found) ↦
      let e = parts ([], rest) (a, b) (rw (found, split_once) at h) in
      rw (sym e.0, sym e.1) (strip_prefix-eq-some n (x ∷ t) rest found)
]

-- What is left of a text at its start does not begin with a character to trim.
abbrev pub BeginsWith : (ℕ → Bool) → Text → Type 0
BeginsWith p [] = ⊥
BeginsWith p (c ∷ t) = p c ≡ true

trim_start-BeginsWith : (p : ℕ → Bool) (t : Text) → ¬ BeginsWith p (trim_start p t)
trim_start-BeginsWith p [] m = m
trim_start-BeginsWith p (c ∷ t) m = elim (Bool-cases (p c)) [
  | inl yes_p ↦ trim_start-BeginsWith p t (rw yes_p at m)
  | inr no_p ↦ cc (rw no_p at m)
]

-- A text trimmed to nothing consists of characters to trim.
trim_start-nil : (p : ℕ → Bool) (t : Text) → trim_start p t ≡ [] → All (λ c. p c ≡ true) t
trim_start-nil p [] h = tt
trim_start-nil p (c ∷ t) h = elim (Bool-cases (p c)) [
  | inl yes_p ↦ (yes_p, trim_start-nil p t (rw yes_p at h))
  | inr no_p ↦ cc (rw no_p at h)
]

-- ===== src/Graph/Cycles/Canonical.antt =====
-- `canonical` of cycles.rs: a rotation that puts a least name first.
use Prim.Native.Nat.{Ordering}
use ovecc.Prelude.{
  ℕ, zero, suc, ◌+◌, ◌≡◌, ◌≢◌, refl, ap, sym, ◌∙◌, subst, some, List, [], ◌∷◌, ◌++◌, All, Distinct,
  arith, append_assoc, append-nil, length, length-append, take, drop, get_elem?, take-append-drop,
  All-append, All-imp, IsPreorder, by_key-IsPreorder, list_ord, nat_ord, flip, Ordering-cases, inl,
  inr,
}
use ovecc.Graph.Cycles.{ModuleAdjacency, by_name, name_of, min_position, canonical}
use ovecc.Graph.Cycles.Loops.{Loop, Loop-rotate, Distinct-rotate}

module _ (adjacency : ModuleAdjacency) where
  -- The name of `a` is not above that of `b`.
  abbrev pub NotAbove : ℕ → ℕ → Type 0
  NotAbove a b = by_name adjacency a b ≢ Ordering.gt

  abbrev pub LeastFirst : List ℕ → Type 0
  LeastFirst [] = ⊥
  LeastFirst (x ∷ xs) = All (NotAbove x) (x ∷ xs)

  names-IsPreorder : IsPreorder (by_name adjacency)
  names-IsPreorder = by_key-IsPreorder (name_of adjacency)

  NotAbove-refl : (a : ℕ) → NotAbove a a
  NotAbove-refl a h =
      let e : Ordering.gt ≡ flip Ordering.gt = sym h ∙ names-IsPreorder.flips a a ∙ ap flip h in cc

  above_lem : (a b : ℕ) → by_name adjacency a b ≡ Ordering.eq → NotAbove b a
  above_lem a b e h = cc (names-IsPreorder.flips a b, ap flip e)

  below_lem : (a b : ℕ) → by_name adjacency a b ≡ Ordering.gt → NotAbove b a
  below_lem a b e h = cc (names-IsPreorder.flips a b, ap flip e)

  get_elem?-append :
      (xs : List ℕ) (y : ℕ) (ys : List ℕ) → get_elem? (xs ++ y ∷ ys) (length xs) ≡ some y
  get_elem?-append [] y ys = refl
  get_elem?-append (x ∷ xs) y ys = get_elem?-append xs y ys

  drop-get_elem? :
      (n : ℕ) (xs : List ℕ) (x : ℕ) → get_elem? xs n ≡ some x → drop n xs ≡ x ∷ drop (suc n) xs
  drop-get_elem? n [] x h = cc
  drop-get_elem? zero (y ∷ xs) x h = let e : y ≡ x = cc in ap (λ z. z ∷ xs) e
  drop-get_elem? (suc n) (y ∷ xs) x h = drop-get_elem? n xs x h

  min_position_least :
      (before rest : List ℕ) (best node i : ℕ)
      → i ≡ length before
      → get_elem? (before ++ rest) best ≡ some node
      → All (NotAbove node) before
      → (m : ℕ) × (get_elem? (before ++ rest) (min_position adjacency best node i rest) ≡ some m)
        × All (NotAbove m) (before ++ rest)
  unfolding min_position
  min_position_least before [] best node i at got low = (node, got, rw (append-nil before) low)
  min_position_least before (next ∷ rest) best node i at got low =
      let same : (before ++ next ∷ []) ++ rest ≡ before ++ next ∷ rest =
        append_assoc before (next ∷ []) rest in
      let count : i + 1 ≡ length (before ++ next ∷ []) =
        omega (arith, length-append before (next ∷ [])) in
      let go : (b n : ℕ)
          → get_elem? (before ++ next ∷ rest) b ≡ some n
          → All (NotAbove n) before
          → NotAbove n next
          → (m : ℕ) × (get_elem? (before ++ next ∷ rest) (min_position adjacency b n (i + 1) rest)
              ≡ some m)
            × All (NotAbove m) (before ++ next ∷ rest) =
        λ b n g l k. rw same at (
          min_position_least (before ++ next ∷ []) rest b n (i + 1) count (rw same g)
            ((All-append (NotAbove n) before (next ∷ [])).1 (l, (k, tt)))) in
      elim (Ordering-cases (by_name adjacency next node)) [
        | inl less ↦
            rw (less, min_position)
              (go i next (rw at (get_elem?-append before next rest))
                (All-imp (NotAbove node) (NotAbove next) before
                  (λ x k. names-IsPreorder.trans next node x (λ h. cc) k) low)
                (NotAbove-refl next))
        | inr (inl same_name) ↦
            rw (same_name, min_position) (go best node got low (above_lem next node same_name))
        | inr (inr greater) ↦
            rw (greater, min_position) (go best node got low (below_lem next node greater))
      ]

  -- `position` splits the cycle in front of its least member.
  canonical_split :
      (x : ℕ) (xs : List ℕ)
      → (position : ℕ) × (m : ℕ) × (tail : List ℕ) × (drop position (x ∷ xs) ≡ m ∷ tail)
        × (canonical (x ∷ xs) adjacency ≡ drop position (x ∷ xs) ++ take position (x ∷ xs))
        × All (NotAbove m) (x ∷ xs)
  unfolding canonical
  canonical_split x xs =
      let p = min_position adjacency 0 x 1 xs in
      let (m, got, low) = min_position_least (x ∷ []) xs 0 x 1 refl refl (NotAbove-refl x, tt) in
      (p, m, drop (suc p) (x ∷ xs), drop-get_elem? p (x ∷ xs) m got, refl, low)

  pub canonical-LeastFirst : (c : List ℕ) → Loop adjacency c → LeastFirst (canonical c adjacency)
  canonical-LeastFirst [] h = absurd h
  canonical-LeastFirst (x ∷ xs) h =
      let (p, m, tail, head, is, low) = canonical_split x xs in
      let all : All (NotAbove m) (drop p (x ∷ xs) ++ take p (x ∷ xs)) =
        (All-append (NotAbove m) (drop p (x ∷ xs)) (take p (x ∷ xs))).1 (
          let (l, r) =
            (All-append (NotAbove m) (take p (x ∷ xs)) (drop p (x ∷ xs))).0
              (rw (take-append-drop p (x ∷ xs)) low) in
          (r, l)) in
      let shape : canonical (x ∷ xs) adjacency ≡ m ∷ tail ++ take p (x ∷ xs) =
        is ∙ ap (λ z. z ++ take p (x ∷ xs)) head in
      rw shape (subst (All (NotAbove m)) (sym is ∙ shape) all)

  -- What every rotation keeps, the canonical one keeps.
  canonical_keeps :
      (P : List ℕ → Type 0)
      → ((xs ys : List ℕ) → P (xs ++ ys) → P (ys ++ xs))
      → (c : List ℕ) → P c
      → P (canonical c adjacency)
  unfolding canonical
  canonical_keeps P turn [] h = h
  canonical_keeps P turn (x ∷ xs) h =
      let p = min_position adjacency 0 x 1 xs in
      turn (take p (x ∷ xs)) (drop p (x ∷ xs)) (rw (take-append-drop p (x ∷ xs)) h)

  pub canonical-Loop : (c : List ℕ) → Loop adjacency c → Loop adjacency (canonical c adjacency)
  canonical-Loop = canonical_keeps (Loop adjacency) (Loop-rotate adjacency)

  pub canonical-Distinct : (c : List ℕ) → Distinct c → Distinct (canonical c adjacency)
  canonical-Distinct = canonical_keeps Distinct Distinct-rotate

  pub canonical-All : (P : ℕ → Type 0) (c : List ℕ) → All P c → All P (canonical c adjacency)
  canonical-All P =
      canonical_keeps (All P)
        (λ xs ys h. (All-append P ys xs).1 (let (l, r) = (All-append P xs ys).0 h in (r, l)))

  pub length-canonical : (c : List ℕ) → length (canonical c adjacency) ≡ length c
  length-canonical c =
      canonical_keeps (λ d. length d ≡ length c)
        (λ xs ys h. omega (arith, h, length-append xs ys, length-append ys xs)) c refl

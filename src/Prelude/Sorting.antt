-- ===== src/Prelude/Sorting.antt =====
-- Lexicographic order, sorted sets and the stable sort, over the interface `Ord`.
use Prim.Native.Nat.{suc, Ordering}
use mathlib.Core.Path.{◌≡◌, refl}
use mathlib.Core.Logic.{◌↔◌, ◌⊎◌, inl, inr}
use mathlib.Core.List.{List, [], ◌∷◌}
use native.Mathlib.Omega.{arith}
use ovecc.Prelude.Lists.{length, Elem, All}
use ovecc.Prelude.Order.{Ord, then_with, flip}

pub Ordering-cases : (o : Ordering) → (o ≡ Ordering.lt) ⊎ (o ≡ Ordering.eq) ⊎ (o ≡ Ordering.gt)
Ordering-cases Ordering.lt = inl refl
Ordering-cases Ordering.eq = inr (inl refl)
Ordering-cases Ordering.gt = inr (inr refl)

module _ {A : Type 0} ⦃o : Ord A⦄ where
  abbrev pub list_cmp : List A → List A → Ordering
  list_cmp [] [] = Ordering.eq
  list_cmp [] (y ∷ ys) = Ordering.lt
  list_cmp (x ∷ xs) [] = Ordering.gt
  list_cmp (x ∷ xs) (y ∷ ys) = then_with (o.cmp x y) (list_cmp xs ys)

  pub list_cmp_eq : (xs ys : List A) → (list_cmp xs ys ≡ Ordering.eq) ↔ (xs ≡ ys)
  list_cmp_eq [] [] = ground arith
  list_cmp_eq [] (y ∷ ys) = ground arith
  list_cmp_eq (x ∷ xs) [] = ground arith
  list_cmp_eq (x ∷ xs) (y ∷ ys) = ground (arith, o.cmp_eq x y, list_cmp_eq xs ys)

  pub list_cmp-flip : (xs ys : List A) → list_cmp ys xs ≡ flip (list_cmp xs ys)
  list_cmp-flip [] [] = refl
  list_cmp-flip [] (y ∷ ys) = refl
  list_cmp-flip (x ∷ xs) [] = refl
  list_cmp-flip (x ∷ xs) (y ∷ ys) = ground (arith, o.cmp_flip x y, list_cmp-flip xs ys)

  pub list_cmp_trans :
      (xs ys zs : List A)
      → list_cmp xs ys ≡ Ordering.lt
      → list_cmp ys zs ≡ Ordering.lt
      → list_cmp xs zs ≡ Ordering.lt
  list_cmp_trans [] [] zs h k = cc
  list_cmp_trans [] (y ∷ ys) [] h k = cc
  list_cmp_trans [] (y ∷ ys) (z ∷ zs) h k = refl
  list_cmp_trans (x ∷ xs) [] zs h k = cc
  list_cmp_trans (x ∷ xs) (y ∷ ys) [] h k = cc
  list_cmp_trans (x ∷ xs) (y ∷ ys) (z ∷ zs) h k =
      ground (
        arith,
        o.cmp_eq x y,
        o.cmp_eq y z,
        o.cmp_eq x z,
        o.cmp_trans x y z,
        list_cmp_trans xs ys zs,
      )

instance abbrev pub list_ord : {A : Type 0} ⦃o : Ord A⦄ → Ord (List A)
list_ord = record {
  cmp = list_cmp;
  cmp_eq = list_cmp_eq;
  cmp_flip = list_cmp-flip;
  cmp_trans = list_cmp_trans;
}

module _ {A B : Type 0} ⦃o : Ord A⦄ ⦃q : Ord B⦄ where
  abbrev pub pair_cmp : A × B → A × B → Ordering
  pair_cmp x y = then_with (o.cmp x.0 y.0) (q.cmp x.1 y.1)

  pub pair_cmp_eq : (x y : A × B) → (pair_cmp x y ≡ Ordering.eq) ↔ (x ≡ y)
  pair_cmp_eq x y = ground (arith, o.cmp_eq x.0 y.0, q.cmp_eq x.1 y.1)

  pub pair_cmp-flip : (x y : A × B) → pair_cmp y x ≡ flip (pair_cmp x y)
  pair_cmp-flip x y = ground (arith, o.cmp_flip x.0 y.0, q.cmp_flip x.1 y.1)

  pub pair_cmp_trans :
      (x y z : A × B)
      → pair_cmp x y ≡ Ordering.lt
      → pair_cmp y z ≡ Ordering.lt
      → pair_cmp x z ≡ Ordering.lt
  pair_cmp_trans x y z h k = ground (
    arith,
    o.cmp_eq x.0 y.0,
    o.cmp_eq y.0 z.0,
    o.cmp_eq x.0 z.0,
    o.cmp_trans x.0 y.0 z.0,
    q.cmp_trans x.1 y.1 z.1,
  )

  instance abbrev pub pair_ord : Ord (A × B)
  pair_ord = record {
    cmp = pair_cmp;
    cmp_eq = pair_cmp_eq;
    cmp_flip = pair_cmp-flip;
    cmp_trans = pair_cmp_trans;
  }

-- `BTreeSet`: a list in increasing order.
module _ {A : Type 0} ⦃o : Ord A⦄ where
  abbrev pub set_insert : A → List A → List A
  set_insert a [] = a ∷ []
  set_insert a (x ∷ xs) = elim (o.cmp a x) [
    | Ordering.lt ↦ a ∷ x ∷ xs
    | Ordering.eq ↦ x ∷ xs
    | Ordering.gt ↦ x ∷ set_insert a xs
  ]

  -- Each element is below all that follow it.
  abbrev pub Increasing : List A → Type 0
  Increasing [] = Unit
  Increasing (x ∷ xs) = All (λ y. o.cmp x y ≡ Ordering.lt) xs × Increasing xs

  pub Elem-set_insert : (a b : A) (xs : List A) → Elem b (set_insert a xs) ↔ ((b ≡ a) ⊎ Elem b xs)
  Elem-set_insert a b [] = ground arith
  Elem-set_insert a b (x ∷ xs) = ground (arith, o.cmp_eq a x, Elem-set_insert a b xs)

  All-set_insert : (P : A → Type 0) (a : A) (xs : List A) → P a → All P xs → All P (set_insert a xs)
  All-set_insert P a [] h k = (h, tt)
  All-set_insert P a (x ∷ xs) h k = ground (arith, All-set_insert P a xs)

  All-of_lt :
      (a x : A) (xs : List A)
      → o.cmp a x ≡ Ordering.lt
      → All (λ y. o.cmp x y ≡ Ordering.lt) xs
      → All (λ y. o.cmp a y ≡ Ordering.lt) xs
  All-of_lt a x [] h k = tt
  All-of_lt a x (y ∷ ys) h k = (o.cmp_trans a x y h k.0, All-of_lt a x ys h k.1)

  pub Increasing-set_insert : (a : A) (xs : List A) → Increasing xs → Increasing (set_insert a xs)
  Increasing-set_insert a [] h = (tt, tt)
  Increasing-set_insert a (x ∷ xs) h = ground (
    arith,
    o.cmp_flip a x,
    All-of_lt a x xs,
    All-set_insert (λ y. o.cmp x y ≡ Ordering.lt) a xs,
    Increasing-set_insert a xs,
  )

-- `sort_by`: stable, and here by insertion.
module _ {A : Type 0} (cmp : A → A → Ordering) where
  -- `a` goes before the first element that is not below it: later elements never pass it.
  abbrev pub sort_insert : A → List A → List A
  sort_insert a [] = a ∷ []
  sort_insert a (x ∷ xs) = elim (cmp a x) [ Ordering.gt ↦ x ∷ sort_insert a xs | _ ↦ a ∷ x ∷ xs ]

  abbrev pub sort_by : List A → List A
  sort_by [] = []
  sort_by (x ∷ xs) = sort_insert x (sort_by xs)

  pub Elem-sort_insert : (a b : A) (xs : List A) → Elem b (sort_insert a xs) ↔ ((b ≡ a) ⊎ Elem b xs)
  Elem-sort_insert a b [] = ground arith
  Elem-sort_insert a b (x ∷ xs) = ground (arith, Elem-sort_insert a b xs)

  pub Elem-sort_by : (b : A) (xs : List A) → Elem b (sort_by xs) ↔ Elem b xs
  Elem-sort_by b [] = ground arith
  Elem-sort_by b (x ∷ xs) = ground (arith, Elem-sort_insert x b (sort_by xs), Elem-sort_by b xs)

  length-sort_insert : (a : A) (xs : List A) → length (sort_insert a xs) ≡ suc (length xs)
  length-sort_insert a [] = refl
  length-sort_insert a (x ∷ xs) = ground (arith, length-sort_insert a xs)

  pub length-sort_by : (xs : List A) → length (sort_by xs) ≡ length xs
  length-sort_by [] = refl
  length-sort_by (x ∷ xs) = omega (arith, length-sort_insert x (sort_by xs), length-sort_by xs)

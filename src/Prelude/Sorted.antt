-- ===== src/Prelude/Sorted.antt =====
-- `sort_by` sorts: its result is in order for every comparison that is a total preorder, as those
-- are that compare by keys, one after the other.
use Prim.Native.Nat.{Ordering}
use mathlib.Core.Path.{◌≡◌, ap}
use mathlib.Core.Logic.{◌≢◌, inl, inr}
use mathlib.Core.List.{List, [], ◌∷◌}
use native.Mathlib.Omega.{arith}
use ovecc.Prelude.Lists.{All, All-imp}
use ovecc.Prelude.Order.{Ord, then_with, flip}
use ovecc.Prelude.Sorting.{sort_by, sort_insert, Ordering-cases}

pub record IsPreorder {A : Type 0} (cmp : A → A → Ordering) : Type 0 where
  pub flips : (a b : A) → cmp b a ≡ flip (cmp a b)
  pub trans : (a b c : A) → cmp a b ≢ Ordering.gt → cmp b c ≢ Ordering.gt → cmp a c ≢ Ordering.gt
  pub same_left : (a b c : A) → cmp a b ≡ Ordering.eq → cmp a c ≡ cmp b c

abbrev pub by_key : {A K : Type 0} ⦃o : Ord K⦄ → (A → K) → A → A → Ordering
by_key ⦃o⦄ f a b = o.cmp (f a) (f b)

pub by_key-IsPreorder : {A K : Type 0} ⦃o : Ord K⦄ (f : A → K) → IsPreorder (by_key f)
by_key-IsPreorder ⦃o⦄ f = record {
  flips = λ a b. o.cmp_flip (f a) (f b);
  trans = λ a b c h k g. ground (
    arith,
    o.cmp_eq (f a) (f b),
    o.cmp_eq (f b) (f c),
    o.cmp_eq (f a) (f c),
    o.cmp_trans (f a) (f b) (f c),
    h,
    k,
    g,
  );
  same_left = λ a b c e. ap (λ x. o.cmp x (f c)) ((o.cmp_eq (f a) (f b)).0 e);
}

module _ {A : Type 0} where
  abbrev pub reversed : (A → A → Ordering) → A → A → Ordering
  reversed p a b = p b a

  pub reversed-IsPreorder : {p : A → A → Ordering} → IsPreorder p → IsPreorder (reversed p)
  reversed-IsPreorder {p} h = record {
    flips = λ a b. h.flips b a;
    trans = λ a b c x y. h.trans c b a y x;
    same_left = λ a b c e. ground (arith, h.flips a c, h.flips b c, h.flips a b, h.same_left a b c);
  }

  abbrev pub then_by : (A → A → Ordering) → (A → A → Ordering) → A → A → Ordering
  then_by p q a b = then_with (p a b) (q a b)

  pub then_by-IsPreorder :
      {p q : A → A → Ordering} → IsPreorder p → IsPreorder q → IsPreorder (then_by p q)
  then_by-IsPreorder {p} {q} h k = record {
    flips = λ a b. ground (arith, h.flips a b, k.flips a b);
    trans = λ a b c x y. ground (
      arith,
      h.trans a b c,
      h.same_left a b c,
      h.same_left a c b,
      h.flips b c,
      k.trans a b c,
      x,
      y,
    );
    same_left = λ a b c e. ground (arith, h.same_left a b c, k.same_left a b c);
  }

  module _ (cmp : A → A → Ordering) where
    -- No element is greater than one that follows it.
    abbrev pub Ordered : List A → Type 0
    Ordered [] = Unit
    Ordered (x ∷ xs) = All (λ y. cmp x y ≢ Ordering.gt) xs × Ordered xs

  All-sort_insert :
      (cmp : A → A → Ordering) (P : A → Type 0) (a : A) (xs : List A)
      → P a
      → All P xs
      → All P (sort_insert cmp a xs)
  All-sort_insert cmp P a [] h k = (h, tt)
  All-sort_insert cmp P a (x ∷ xs) h k = ground (arith, All-sort_insert cmp P a xs)

  sort_insert-Ordered :
      (cmp : A → A → Ordering)
      → IsPreorder cmp
      → (a : A) (xs : List A) → Ordered cmp xs
      → Ordered cmp (sort_insert cmp a xs)
  sort_insert-Ordered cmp law a [] h = (tt, tt)
  sort_insert-Ordered cmp law a (x ∷ xs) h = elim (Ordering-cases (cmp a x)) [
    | inr (inr above) ↦
        rw (above, sort_insert)
          (
            All-sort_insert cmp _ a xs (λ g. cc (g, above, law.flips a x)) h.0,
            sort_insert-Ordered cmp law a xs h.1,
          )
    | inl below ↦ rw (below, sort_insert) (in_front a x xs (λ g. cc (g, below)) h)
    | inr (inl level) ↦ rw (level, sort_insert) (in_front a x xs (λ g. cc (g, level)) h)
  ]
    where
      in_front :
          (a x : A) (xs : List A)
          → cmp a x ≢ Ordering.gt
          → Ordered cmp (x ∷ xs)
          → Ordered cmp (a ∷ x ∷ xs)
      in_front a x xs b h = ((b, All-imp _ _ xs (λ y k. law.trans a x y b k) h.0), h)

  pub sort_by-Ordered :
      (cmp : A → A → Ordering) → IsPreorder cmp → (xs : List A) → Ordered cmp (sort_by cmp xs)
  sort_by-Ordered cmp law [] = tt
  sort_by-Ordered cmp law (x ∷ xs) =
      sort_insert-Ordered cmp law x (sort_by cmp xs) (sort_by-Ordered cmp law xs)

-- ===== src/Prelude/Order.antt =====
-- Decidable equality and three-way comparison as interfaces, with the containers that stand on
-- them: a hash set is a list that is only asked for membership, a `BTreeSet` a sorted list, a map
-- an association list, and `sort_by` a stable insertion sort.
use Prim.Native.Nat.{ℕ, compare, Ordering}
use mathlib.Core.Path.{◌≡◌, refl, sym}
use mathlib.Core.Logic.{◌↔◌, ◌≢◌}
use mathlib.Core.Bool.{Bool, true, false, ◌&&◌, ◌||◌, not}
use mathlib.Core.Option.{Option, none, some}
use mathlib.Core.List.{List, [], ◌∷◌}
use native.Mathlib.Omega.{arith}
use ovecc.Prelude.Tests.{nat_eqb, nat_eqb_iff, if◌then◌else◌}
use ovecc.Prelude.Lists.{Elem}

pub record Eq {ℓ} (A : Type ℓ) : Type ℓ where
  pub eqb : A → A → Bool
  pub eqb_iff : (a b : A) → (eqb a b ≡ true) ↔ (a ≡ b)

infix 50 ◌==◌
abbrev pub ◌==◌ {ℓ} : {A : Type ℓ} ⦃e : Eq A⦄ → A → A → Bool
◌==◌ ⦃e⦄ = e.eqb

pub ==_iff {ℓ} : {A : Type ℓ} ⦃e : Eq A⦄ (a b : A) → ((a == b) ≡ true) ↔ (a ≡ b)
==_iff ⦃e⦄ = e.eqb_iff

pub ==_refl {ℓ} : {A : Type ℓ} ⦃e : Eq A⦄ (a : A) → (a == a) ≡ true
==_refl ⦃e⦄ a = (e.eqb_iff a a).1 refl

instance abbrev pub nat_eq : Eq ℕ
nat_eq = record { eqb = nat_eqb; eqb_iff = nat_eqb_iff }

abbrev pub bool_eqb : Bool → Bool → Bool
bool_eqb true b = b
bool_eqb false b = not b

pub bool_eqb_iff : (a b : Bool) → (bool_eqb a b ≡ true) ↔ (a ≡ b)
bool_eqb_iff true b = (sym, sym)
bool_eqb_iff false true = ground arith
bool_eqb_iff false false = ground arith

instance abbrev pub bool_eq : Eq Bool
bool_eq = record { eqb = bool_eqb; eqb_iff = bool_eqb_iff }

module _ {A : Type 0} ⦃e : Eq A⦄ where
  abbrev pub list_eqb : List A → List A → Bool
  list_eqb [] [] = true
  list_eqb [] (y ∷ ys) = false
  list_eqb (x ∷ xs) [] = false
  list_eqb (x ∷ xs) (y ∷ ys) = x == y && list_eqb xs ys

  pub list_eqb_iff : (xs ys : List A) → (list_eqb xs ys ≡ true) ↔ (xs ≡ ys)
  list_eqb_iff [] [] = ground arith
  list_eqb_iff [] (y ∷ ys) = ground arith
  list_eqb_iff (x ∷ xs) [] = ground arith
  list_eqb_iff (x ∷ xs) (y ∷ ys) = ground (arith, e.eqb_iff x y, list_eqb_iff xs ys)

instance abbrev pub list_eq : {A : Type 0} ⦃e : Eq A⦄ → Eq (List A)
list_eq = record { eqb = list_eqb; eqb_iff = list_eqb_iff }

module _ {A B : Type 0} ⦃e : Eq A⦄ ⦃f : Eq B⦄ where
  abbrev pub pair_eqb : A × B → A × B → Bool
  pair_eqb p q = p.0 == q.0 && p.1 == q.1

  pub pair_eqb_iff : (p q : A × B) → (pair_eqb p q ≡ true) ↔ (p ≡ q)
  pair_eqb_iff p q = ground (arith, e.eqb_iff p.0 q.0, f.eqb_iff p.1 q.1)

  instance abbrev pub pair_eq : Eq (A × B)
  pair_eq = record { eqb = pair_eqb; eqb_iff = pair_eqb_iff }

-- `HashSet::contains`, `Vec::contains`.
module _ {A : Type 0} ⦃e : Eq A⦄ where
  abbrev pub contains : A → List A → Bool
  contains a [] = false
  contains a (x ∷ xs) = a == x || contains a xs

  pub contains_iff : (a : A) (xs : List A) → (contains a xs ≡ true) ↔ Elem a xs
  contains_iff a [] = ground arith
  contains_iff a (x ∷ xs) = ground (arith, e.eqb_iff a x, contains_iff a xs)

-- `HashMap::get` and `insert`, with one entry for each key.
module _ {K V : Type 0} ⦃e : Eq K⦄ where
  abbrev pub lookup : K → List (K × V) → Option V
  lookup k [] = none
  lookup k ((j, v) ∷ m) = if k == j then some v else lookup k m

  abbrev pub assign : K → V → List (K × V) → List (K × V)
  assign k v [] = (k, v) ∷ []
  assign k v ((j, w) ∷ m) = if k == j then (k, v) ∷ m else (j, w) ∷ assign k v m

  pub lookup-assign :
      (k j : K) (v : V) (m : List (K × V))
      → lookup j (assign k v m) ≡ (if j == k then some v else lookup j m)
  lookup-assign k j v [] = refl
  lookup-assign k j v ((i, w) ∷ m) =
      ground (arith, e.eqb_iff j k, e.eqb_iff k i, e.eqb_iff j i, lookup-assign k j v m)

-- `Ordering::then_with`: the second comparison decides where the first finds no difference.
abbrev pub then_with : Ordering → Ordering → Ordering
then_with Ordering.eq o = o
then_with Ordering.lt o = Ordering.lt
then_with Ordering.gt o = Ordering.gt

abbrev pub flip : Ordering → Ordering
flip Ordering.lt = Ordering.gt
flip Ordering.eq = Ordering.eq
flip Ordering.gt = Ordering.lt

pub record Ord (A : Type 0) : Type 0 where
  pub cmp : A → A → Ordering
  pub cmp_eq : (a b : A) → (cmp a b ≡ Ordering.eq) ↔ (a ≡ b)
  pub cmp_flip : (a b : A) → cmp b a ≡ flip (cmp a b)
  pub cmp_trans :
      (a b c : A) → cmp a b ≡ Ordering.lt → cmp b c ≡ Ordering.lt → cmp a c ≡ Ordering.lt

pub nat_cmp_eq : (a b : ℕ) → (compare a b ≡ Ordering.eq) ↔ (a ≡ b)
nat_cmp_eq a b = ground arith

pub nat_cmp-flip : (a b : ℕ) → compare b a ≡ flip (compare a b)
nat_cmp-flip a b = ground arith

pub nat_cmp_trans :
    (a b c : ℕ) → compare a b ≡ Ordering.lt → compare b c ≡ Ordering.lt → compare a c ≡ Ordering.lt
nat_cmp_trans a b c h k = ground arith

instance abbrev pub nat_ord : Ord ℕ
nat_ord = record {
  cmp = compare;
  cmp_eq = nat_cmp_eq;
  cmp_flip = nat_cmp-flip;
  cmp_trans = nat_cmp_trans;
}

abbrev pub bool_cmp : Bool → Bool → Ordering
bool_cmp false false = Ordering.eq
bool_cmp false true = Ordering.lt
bool_cmp true false = Ordering.gt
bool_cmp true true = Ordering.eq

pub bool_cmp_eq : (a b : Bool) → (bool_cmp a b ≡ Ordering.eq) ↔ (a ≡ b)
bool_cmp_eq false false = ground arith
bool_cmp_eq false true = ground arith
bool_cmp_eq true false = ground arith
bool_cmp_eq true true = ground arith

pub bool_cmp-flip : (a b : Bool) → bool_cmp b a ≡ flip (bool_cmp a b)
bool_cmp-flip false false = refl
bool_cmp-flip false true = refl
bool_cmp-flip true false = refl
bool_cmp-flip true true = refl

pub bool_cmp_trans :
    (a b c : Bool)
    → bool_cmp a b ≡ Ordering.lt
    → bool_cmp b c ≡ Ordering.lt
    → bool_cmp a c ≡ Ordering.lt
bool_cmp_trans false b true h k = refl
bool_cmp_trans false false false h k = cc
bool_cmp_trans false true false h k = cc
bool_cmp_trans true false c h k = cc
bool_cmp_trans true true c h k = cc

instance abbrev pub bool_ord : Ord Bool
bool_ord = record {
  cmp = bool_cmp;
  cmp_eq = bool_cmp_eq;
  cmp_flip = bool_cmp-flip;
  cmp_trans = bool_cmp_trans;
}

module _ {A : Type 0} ⦃o : Ord A⦄ where
  -- What is not below a bound is not below what is below the bound.
  pub not_lt_trans :
      (a b c : A) → o.cmp a b ≢ Ordering.lt → o.cmp b c ≢ Ordering.lt → o.cmp a c ≢ Ordering.lt
  not_lt_trans a b c h k l = ground (
    arith,
    o.cmp_eq a b,
    o.cmp_eq b c,
    o.cmp_flip a b,
    o.cmp_flip b c,
    o.cmp_flip a c,
    o.cmp_trans c b a,
    h,
    k,
    l,
  )

  pub not_lt_refl : (a : A) → o.cmp a a ≢ Ordering.lt
  not_lt_refl a l = cc (l, (o.cmp_eq a a).1 refl)

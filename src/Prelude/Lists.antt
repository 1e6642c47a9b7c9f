-- ===== src/Prelude/Lists.antt =====
-- Lists measured and indexed by native numbers, under the library's names, and membership as a
-- predicate by recursion.
use Prim.Native.Nat.{ℕ, zero, suc, ◌+◌, min}
use mathlib.Core.Path.{◌≡◌, refl, ap, sym, subst, ◌∙◌}
use mathlib.Core.Logic.{◌⊎◌, ◌↔◌, inl, inr, ⊎_elim}
use mathlib.Core.List.{List, [], ◌∷◌, ◌++◌, map}
use mathlib.Core.Option.{Option, none, some}
use native.Mathlib.Omega.{arith}

module _ {ℓ} {A : Type ℓ} where
  abbrev pub length : List A → ℕ
  length [] = 0
  length (x ∷ xs) = suc (length xs)

  abbrev pub get_elem? : List A → ℕ → Option A
  get_elem? [] i = none
  get_elem? (x ∷ xs) zero = some x
  get_elem? (x ∷ xs) (suc i) = get_elem? xs i

  abbrev pub get_or : List A → ℕ → A → A
  get_or [] i d = d
  get_or (x ∷ xs) zero d = x
  get_or (x ∷ xs) (suc i) d = get_or xs i d

  -- A write out of bounds changes nothing.
  abbrev pub set : List A → ℕ → A → List A
  set [] i v = []
  set (x ∷ xs) zero v = v ∷ xs
  set (x ∷ xs) (suc i) v = x ∷ set xs i v

  abbrev pub take : ℕ → List A → List A
  take zero xs = []
  take (suc n) [] = []
  take (suc n) (x ∷ xs) = x ∷ take n xs

  abbrev pub drop : ℕ → List A → List A
  drop zero xs = xs
  drop (suc n) [] = []
  drop (suc n) (x ∷ xs) = drop n xs

  abbrev pub replicate : ℕ → A → List A
  replicate zero a = []
  replicate (suc n) a = a ∷ replicate n a

  pub length-append : (xs ys : List A) → length (xs ++ ys) ≡ length xs + length ys
  length-append [] ys = omega arith
  length-append (x ∷ xs) ys = omega (arith, length-append xs ys)

  pub length-set : (xs : List A) (i : ℕ) (v : A) → length (set xs i v) ≡ length xs
  length-set [] i v = refl
  length-set (x ∷ xs) zero v = refl
  length-set (x ∷ xs) (suc i) v = ap suc (length-set xs i v)

  pub take-append-drop : (n : ℕ) (xs : List A) → take n xs ++ drop n xs ≡ xs
  take-append-drop zero xs = refl
  take-append-drop (suc n) [] = refl
  take-append-drop (suc n) (x ∷ xs) = rw (take-append-drop n xs)

  pub length-take : (n : ℕ) (xs : List A) → length (take n xs) ≡ min n (length xs)
  length-take zero xs = omega arith
  length-take (suc n) [] = omega arith
  length-take (suc n) (x ∷ xs) = omega (arith, length-take n xs)

  pub length-replicate : (n : ℕ) (a : A) → length (replicate n a) ≡ n
  length-replicate zero a = refl
  length-replicate (suc n) a = ap suc (length-replicate n a)

  pub List-cases : (xs : List A) → (xs ≡ []) ⊎ ((x : A) × (rest : List A) × (xs ≡ x ∷ rest))
  List-cases [] = inl refl
  List-cases (x ∷ xs) = inr (x, xs, refl)

pub length-map {ℓ κ} :
    {A : Type ℓ} {B : Type κ} (xs : List A) (f : A → B) → length (map f xs) ≡ length xs
length-map [] f = refl
length-map (x ∷ xs) f = ap suc (length-map xs f)

module _ {A : Type 0} where
  -- Membership that the tactics take apart.
  abbrev pub Elem : A → List A → Type 0
  Elem x [] = ⊥
  Elem x (y ∷ ys) = (x ≡ y) ⊎ Elem x ys

  abbrev pub All {ℓ} : (A → Type ℓ) → List A → Type ℓ
  All P [] = Unit
  All P (x ∷ xs) = P x × All P xs

  -- No element stands twice.
  abbrev pub Distinct : List A → Type 0
  Distinct [] = Unit
  Distinct (x ∷ xs) = (¬ Elem x xs) × Distinct xs

  pub Elem-append : (a : A) (xs ys : List A) → Elem a (xs ++ ys) ↔ (Elem a xs ⊎ Elem a ys)
  Elem-append a [] ys = (inr, ⊎_elim (λ x. absurd x) (λ m. m))
  Elem-append a (x ∷ xs) ys = ground (arith, Elem-append a xs ys)

  pub All-append {ℓ} : (P : A → Type ℓ) (xs ys : List A) → All P (xs ++ ys) ↔ (All P xs × All P ys)
  All-append P [] ys = (λ h. (tt, h), λ h. h.1)
  All-append P (x ∷ xs) ys = (
    λ h. let (hx, hy) = (All-append P xs ys).0 h.1 in ((h.0, hx), hy),
    λ h. (h.0.0, (All-append P xs ys).1 (h.0.1, h.1)),
  )

  pub All-Elem {ℓ} : (P : A → Type ℓ) (xs : List A) {a : A} → All P xs → Elem a xs → P a
  All-Elem P [] h m = absurd m
  All-Elem P (x ∷ xs) h (inl e) = subst P (sym e) h.0
  All-Elem P (x ∷ xs) h (inr m) = All-Elem P xs h.1 m

  pub All-of_Elem {ℓ} : (P : A → Type ℓ) (xs : List A) → ((a : A) → Elem a xs → P a) → All P xs
  All-of_Elem P [] f = tt
  All-of_Elem P (x ∷ xs) f = (f x (inl refl), All-of_Elem P xs (λ a m. f a (inr m)))

  pub All-always {ℓ} : {P : A → Type ℓ} (xs : List A) → ((a : A) → P a) → All P xs
  All-always [] f = tt
  All-always (x ∷ xs) f = (f x, All-always xs f)

  pub All-imp {ℓ κ} :
      (P : A → Type ℓ) (Q : A → Type κ) (xs : List A) → ((a : A) → P a → Q a) → All P xs → All Q xs
  All-imp P Q [] f h = tt
  All-imp P Q (x ∷ xs) f h = (f x h.0, All-imp P Q xs f h.1)

pub Elem-map : {A B : Type 0} (f : A → B) (a : A) (xs : List A) → Elem a xs → Elem (f a) (map f xs)
Elem-map f a [] m = absurd m
Elem-map f a (x ∷ xs) (inl e) = inl (ap f e)
Elem-map f a (x ∷ xs) (inr m) = inr (Elem-map f a xs m)

pub Elem-unmap :
    {A B : Type 0} (f : A → B) (b : B) (xs : List A)
    → Elem b (map f xs)
    → (a : A) × Elem a xs × (f a ≡ b)
Elem-unmap f b [] m = absurd m
Elem-unmap f b (x ∷ xs) (inl e) = (x, inl refl, sym e)
Elem-unmap f b (x ∷ xs) (inr m) = let (a, k, e) = Elem-unmap f b xs m in (a, inr k, e)

pub Distinct-append :
    {A : Type 0} (xs ys : List A)
    → Distinct xs
    → Distinct ys
    → ((a : A) → Elem a xs → ¬ Elem a ys)
    → Distinct (xs ++ ys)
Distinct-append [] ys h k apart = k
Distinct-append (x ∷ xs) ys h k apart = (
  λ m. ⊎_elim h.0 (apart x (inl refl)) ((Elem-append x xs ys).0 m),
  Distinct-append xs ys h.1 k (λ a m. apart a (inr m)),
)

-- With distinct images an element is known by its image.
pub Distinct-unique :
    {A B : Type 0} (f : A → B) (xs : List A)
    → Distinct (map f xs)
    → (a b : A) → Elem a xs
    → Elem b xs
    → f a ≡ f b
    → a ≡ b
Distinct-unique f [] d a b m k e = absurd m
Distinct-unique f (x ∷ xs) d a b (inl m) (inl k) e = m ∙ sym k
Distinct-unique f (x ∷ xs) d a b (inl m) (inr k) e =
    absurd (d.0 (subst (λ y. Elem y (map f xs)) (sym e ∙ ap f m) (Elem-map f b xs k)))
Distinct-unique f (x ∷ xs) d a b (inr m) (inl k) e =
    absurd (d.0 (subst (λ y. Elem y (map f xs)) (e ∙ ap f k) (Elem-map f a xs m)))
Distinct-unique f (x ∷ xs) d a b (inr m) (inr k) e = Distinct-unique f xs d.1 a b m k e

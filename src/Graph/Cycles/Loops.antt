-- ===== src/Graph/Cycles/Loops.antt =====
-- Closed walks in a module graph, for what cycles.rs calls an elementary cycle.
use ovecc.Prelude.{
  ℕ, ◌≡◌, refl, ap, sym, subst, Option, none, some, List, [], ◌∷◌, ◌++◌, reverse, Elem, Distinct,
  arith, ◌↔◌, append-nil, length, length-append, inl, inr, ⊎_elim, Elem-append, Distinct-append,
}
use mathlib.Core.List.{reverse-cons}
use ovecc.Graph.Cycles.{ModuleAdjacency, successors}

module _ (adjacency : ModuleAdjacency) where
  -- `Linked a xs b`: an edge leads from `a` to the first of `xs`, from each to the next, and from
  -- the last to `b`.
  abbrev pub Linked : ℕ → List ℕ → ℕ → Type 0
  Linked a [] b = Elem b (successors adjacency a)
  Linked a (x ∷ xs) b = Elem x (successors adjacency a) × Linked x xs b

  -- A walk along all of `xs` and on to `b`.
  abbrev pub LeadsTo : List ℕ → ℕ → Type 0
  LeadsTo [] b = Unit
  LeadsTo (x ∷ xs) b = Linked x xs b

  -- A walk along `xs` and back to its first node.
  abbrev pub Loop : List ℕ → Type 0
  Loop [] = ⊥
  Loop (x ∷ xs) = Linked x xs x

  Linked-append :
      (a : ℕ) (xs : List ℕ) (y : ℕ) (ys : List ℕ) (b : ℕ)
      → Linked a (xs ++ y ∷ ys) b ↔ (Linked a xs y × Linked y ys b)
  Linked-append a [] y ys b = (λ h. h, λ h. h)
  Linked-append a (x ∷ xs) y ys b = (
    λ h. let r = (Linked-append x xs y ys b).0 h.1 in ((h.0, r.0), r.1),
    λ h. (h.0.0, (Linked-append x xs y ys b).1 (h.0.1, h.1)),
  )

  LeadsTo-append :
      (xs : List ℕ) (x b : ℕ)
      → LeadsTo xs x
      → Elem b (successors adjacency x)
      → LeadsTo (xs ++ x ∷ []) b
  LeadsTo-append [] x b h e = e
  LeadsTo-append (a ∷ xs) x b h e = (Linked-append a xs x [] b).1 (h, e)

  -- A walk kept from its last node to its first.
  abbrev pub Arrives : List ℕ → ℕ → Type 0
  Arrives [] b = Unit
  Arrives (x ∷ xs) b = Elem b (successors adjacency x) × Arrives xs x

  pub LeadsTo-reverse : (xs : List ℕ) (b : ℕ) → Arrives xs b → LeadsTo (reverse xs) b
  LeadsTo-reverse [] b h = tt
  LeadsTo-reverse (x ∷ xs) b h =
      rw (reverse-cons x xs) (LeadsTo-append (reverse xs) x b (LeadsTo-reverse xs x h.1) h.0)

  -- A loop may start at any of its nodes.
  pub Loop-rotate : (xs ys : List ℕ) → Loop (xs ++ ys) → Loop (ys ++ xs)
  Loop-rotate [] ys h = rw (append-nil ys) h
  Loop-rotate (x ∷ xs) [] h = rw (append-nil xs) at h
  Loop-rotate (x ∷ xs) (y ∷ ys) h =
      let r = (Linked-append x xs y ys x).0 h in (Linked-append y ys x xs y).1 (r.1, r.0)

abbrev pub first : List ℕ → Option ℕ
first [] = none
first (x ∷ xs) = some x

-- `xs`, kept from its last node, began at `s`.
abbrev pub Begins : List ℕ → ℕ → Type 0
Begins [] s = Unit
Begins (x ∷ []) s = x ≡ s
Begins (x ∷ y ∷ xs) s = Begins (y ∷ xs) s

first-append : (xs ys : List ℕ) (s : ℕ) → first xs ≡ some s → first (xs ++ ys) ≡ some s
first-append [] ys s h = cc
first-append (x ∷ xs) ys s h = h

pub first-reverse :
    (x : ℕ) (xs : List ℕ) (s : ℕ) → Begins (x ∷ xs) s → first (reverse (x ∷ xs)) ≡ some s
first-reverse x [] s h = ap some h
first-reverse x (y ∷ xs) s h =
    rw (reverse-cons x (y ∷ xs))
      (first-append (reverse (y ∷ xs)) (x ∷ []) s (first-reverse y xs s h))

-- A walk that leads back to its first node is a loop.
pub Loop-of_LeadsTo :
    (adjacency : ModuleAdjacency) (xs : List ℕ) (s : ℕ)
    → first xs ≡ some s
    → LeadsTo adjacency xs s
    → Loop adjacency xs
Loop-of_LeadsTo adjacency [] s h l = cc
Loop-of_LeadsTo adjacency (x ∷ xs) s h l =
    let e : x ≡ s = cc in subst (λ y. Linked adjacency x xs y) (sym e) l

pub Elem-rotate : (a : ℕ) (xs ys : List ℕ) → Elem a (ys ++ xs) ↔ Elem a (xs ++ ys)
Elem-rotate a xs ys = ground (arith, Elem-append a xs ys, Elem-append a ys xs)

Distinct-split :
    (xs ys : List ℕ)
    → Distinct (xs ++ ys)
    → Distinct xs × Distinct ys × ((a : ℕ) → Elem a xs → ¬ Elem a ys)
Distinct-split [] ys d = (tt, d, λ a m. absurd m)
Distinct-split (x ∷ xs) ys d =
    let (dx, dy, apart) = Distinct-split xs ys d.1 in
    (
      (λ m. d.0 ((Elem-append x xs ys).1 (inl m)), dx),
      dy,
      λ a m n.
          ⊎_elim (λ e. d.0 ((Elem-append x xs ys).1 (inr (subst (λ b. Elem b ys) e n))))
            (λ k. apart a k n) m,
    )

pub Distinct-rotate : (xs ys : List ℕ) → Distinct (xs ++ ys) → Distinct (ys ++ xs)
Distinct-rotate xs ys d =
    let (dx, dy, apart) = Distinct-split xs ys d in
    Distinct-append ys xs dy dx (λ a m n. apart a n m)

pub Elem-reverse : (a : ℕ) (xs : List ℕ) → Elem a (reverse xs) ↔ Elem a xs
Elem-reverse a [] = (λ m. m, λ m. m)
Elem-reverse a (x ∷ xs) =
    rw (reverse-cons x xs) (ground (arith, Elem-append a (reverse xs) (x ∷ []), Elem-reverse a xs))

pub Distinct-reverse : (xs : List ℕ) → Distinct xs → Distinct (reverse xs)
Distinct-reverse [] d = tt
Distinct-reverse (x ∷ xs) d = rw (reverse-cons x xs) (
    Distinct-append (reverse xs) (x ∷ []) (Distinct-reverse xs d.1) (λ m. m, tt)
      (λ a m n.
        ⊎_elim (λ e. d.0 ((Elem-reverse x xs).0 (subst (λ b. Elem b (reverse xs)) e m)))
          (λ k. absurd k) n))

pub length-reverse : (xs : List ℕ) → length (reverse xs) ≡ length xs
length-reverse [] = refl
length-reverse (x ∷ xs) =
    rw (reverse-cons x xs) (omega (arith, length-append (reverse xs) (x ∷ []), length-reverse xs))

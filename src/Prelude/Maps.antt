-- ===== src/Prelude/Maps.antt =====
-- Iterator adapters and the `entry` idioms on hash maps.
use Prim.Native.Nat.{ℕ, ◌+◌}
use mathlib.Core.Path.{◌≡◌, refl, ap, sym, subst, ◌∙◌}
use mathlib.Core.Logic.{◌↔◌, ◌⊎◌, inl, inr, ⊎_elim}
use mathlib.Core.Bool.{Bool, true, false, ◌||◌}
use mathlib.Core.Option.{Option, none, some}
use mathlib.Core.List.{List, [], ◌∷◌, ◌++◌, map}
use native.Mathlib.Omega.{arith}
use ovecc.Prelude.Tests.{if◌then◌else◌, Bool-cases, Option-cases}
use ovecc.Prelude.Lists.{Elem, All, Elem-append, Elem-map, Elem-unmap}
use ovecc.Prelude.Order.{Eq, ◌==◌, lookup}

module _ {A : Type 0} where
  -- `iter().filter(p)`
  abbrev pub keep_if : (A → Bool) → List A → List A
  keep_if p [] = []
  keep_if p (x ∷ xs) = if p x then x ∷ keep_if p xs else keep_if p xs

  pub Elem-keep_if :
      (p : A → Bool) (a : A) (xs : List A) → Elem a (keep_if p xs) ↔ (Elem a xs × (p a ≡ true))
  Elem-keep_if p a [] = (λ m. absurd m, λ m. absurd m.0)
  Elem-keep_if p a (x ∷ xs) = elim (Bool-cases (p x)) [
    | inl yes_p ↦ rw yes_p (
      ⊎_elim (λ e. (inl e, ap p e ∙ yes_p))
          (λ m. let r = (Elem-keep_if p a xs).0 m in (inr r.0, r.1)),
      λ m. ⊎_elim inl (λ n. inr ((Elem-keep_if p a xs).1 (n, m.1))) m.0,
    )
    | inr no_p ↦ rw no_p (
      λ m. let r = (Elem-keep_if p a xs).0 m in (inr r.0, r.1),
      λ m. ⊎_elim (λ e. cc (ap p e, no_p, m.1)) (λ n. (Elem-keep_if p a xs).1 (n, m.1)) m.0,
    )
  ]

  -- `iter().find(p)`
  abbrev pub find : (A → Bool) → List A → Option A
  find p [] = none
  find p (x ∷ xs) = if p x then some x else find p xs

  pub find-some :
      (p : A → Bool) (xs : List A) (a : A) → find p xs ≡ some a → Elem a xs × (p a ≡ true)
  find-some p [] a h = cc
  find-some p (x ∷ xs) a h = elim (Bool-cases (p x)) [
    | inl yes_p ↦
        let e : x ≡ a = cc (rw yes_p at h) in (inl (sym e), subst (λ y. p y ≡ true) e yes_p)
    | inr no_p ↦ let r = find-some p xs a (rw no_p at h) in (inr r.0, r.1)
  ]

  -- A `find` that fails has seen no element that passes.
  pub find-none : (p : A → Bool) (xs : List A) → find p xs ≡ none → All (λ x. p x ≡ false) xs
  find-none p [] h = tt
  find-none p (x ∷ xs) h = elim (Bool-cases (p x)) [
    | inl yes_p ↦ cc (rw yes_p at h)
    | inr no_p ↦ (no_p, find-none p xs (rw no_p at h))
  ]

  -- `iter().any(p)`
  abbrev pub any : (A → Bool) → List A → Bool
  any p [] = false
  any p (x ∷ xs) = p x || any p xs

  pub any_iff :
      (p : A → Bool) (xs : List A) → (any p xs ≡ true) ↔ ((a : A) × Elem a xs × (p a ≡ true))
  any_iff p [] = (λ h. cc, λ m. absurd m.1)
  any_iff p (x ∷ xs) = elim (Bool-cases (p x)) [
    | inl yes_p ↦ rw yes_p (λ h. (x, inl refl, yes_p), λ m. refl)
    | inr no_p ↦ rw no_p (
      λ h. let (a, m, q) = (any_iff p xs).0 h in (a, inr m, q),
      λ (a, m, q). ⊎_elim (λ e. cc (ap p e, no_p, q)) (λ k. (any_iff p xs).1 (a, k, q)) m,
    )
  ]

  abbrev pub get_or_nil : Option (List A) → List A
  get_or_nil none = []
  get_or_nil (some xs) = xs

pub Elem-map-keep_if :
    {A B : Type 0} (f : A → B) (p : A → Bool) (b : B) (xs : List A)
    → Elem b (map f (keep_if p xs)) ↔ ((a : A) × Elem a xs × (p a ≡ true) × (f a ≡ b))
Elem-map-keep_if f p b xs = (
  λ m.
      let (a, k, e) = Elem-unmap f b (keep_if p xs) m in
      let (i, q) = (Elem-keep_if p a xs).0 k in (a, i, q, e),
  λ (a, i, q, e).
      subst (λ c. Elem c (map f (keep_if p xs))) e
        (Elem-map f a (keep_if p xs) ((Elem-keep_if p a xs).1 (i, q))),
)

-- `iter().filter_map(f)`
abbrev pub filter_map : {A B : Type 0} → (A → Option B) → List A → List B
filter_map f [] = []
filter_map f (x ∷ xs) = elim (f x) [ none ↦ filter_map f xs | some y ↦ y ∷ filter_map f xs ]

pub Elem-filter_map :
    {A B : Type 0} (f : A → Option B) (b : B) (xs : List A)
    → Elem b (filter_map f xs) ↔ ((a : A) × Elem a xs × (f a ≡ some b))
Elem-filter_map f b [] = (λ m. absurd m, λ m. absurd m.1)
Elem-filter_map f b (x ∷ xs) = elim (Option-cases (f x)) [
  | inl skip ↦
      let same : filter_map f (x ∷ xs) ≡ filter_map f xs = rw (skip, filter_map) in
      rw same (
        λ m. let (a, i, e) = (Elem-filter_map f b xs).0 m in (a, inr i, e),
        λ (a, i, e).
            ⊎_elim (λ r. cc (ap f r, skip, e)) (λ k. (Elem-filter_map f b xs).1 (a, k, e)) i,
      )
  | inr (y, kept) ↦
      let more : filter_map f (x ∷ xs) ≡ y ∷ filter_map f xs = rw (kept, filter_map) in
      rw more (
        ⊎_elim (λ r. (x, inl refl, kept ∙ ap some (sym r)))
            (λ m. let (a, i, e) = (Elem-filter_map f b xs).0 m in (a, inr i, e)),
        λ (a, i, e).
            ⊎_elim (λ r. inl (cc (e, ap f r, kept)))
              (λ k. inr ((Elem-filter_map f b xs).1 (a, k, e))) i,
      )
]

-- `iter().flat_map(f)`
abbrev pub flat_map : {A B : Type 0} → (A → List B) → List A → List B
flat_map f [] = []
flat_map f (x ∷ xs) = f x ++ flat_map f xs

pub Elem-flat_map :
    {A B : Type 0} (f : A → List B) (b : B) (xs : List A)
    → Elem b (flat_map f xs) ↔ ((a : A) × Elem a xs × Elem b (f a))
Elem-flat_map f b [] = (λ m. absurd m, λ m. absurd m.1)
Elem-flat_map f b (x ∷ xs) = (
  λ m.
      ⊎_elim (λ here. (x, inl refl, here))
        (λ more. let (a, i, k) = (Elem-flat_map f b xs).0 more in (a, inr i, k))
        ((Elem-append b (f x) (flat_map f xs)).0 m),
  λ (a, i, k). (Elem-append b (f x) (flat_map f xs)).1 (
      ⊎_elim (λ e. inl (subst (λ y. Elem b (f y)) e k))
        (λ j. inr ((Elem-flat_map f b xs).1 (a, j, k))) i),
)

module _ {A : Type 0} ⦃e : Eq A⦄ where
  abbrev dedup_from : A → List A → List A
  dedup_from kept [] = []
  dedup_from kept (x ∷ xs) = if x == kept then dedup_from kept xs else x ∷ dedup_from x xs

  -- `dedup`: of equal neighbours the first is kept.
  abbrev pub dedup : List A → List A
  dedup [] = []
  dedup (x ∷ xs) = x ∷ dedup_from x xs

  Elem-dedup_from :
      (a kept : A) (xs : List A)
      → ((a ≡ kept) ⊎ Elem a (dedup_from kept xs)) ↔ ((a ≡ kept) ⊎ Elem a xs)
  Elem-dedup_from a kept [] = ground arith
  Elem-dedup_from a kept (x ∷ xs) =
      ground (arith, e.eqb_iff x kept, Elem-dedup_from a kept xs, Elem-dedup_from a x xs)

  pub Elem-dedup : (a : A) (xs : List A) → Elem a (dedup xs) ↔ Elem a xs
  Elem-dedup a [] = ground arith
  Elem-dedup a (x ∷ xs) = Elem-dedup_from a x xs

-- `dedup_by`, by a key.
module _ {A K : Type 0} ⦃e : Eq K⦄ (key : A → K) where
  abbrev pub dedup_key_from : A → List A → List A
  dedup_key_from kept [] = []
  dedup_key_from kept (x ∷ xs) =
      if key x == key kept then dedup_key_from kept xs else x ∷ dedup_key_from x xs

  abbrev pub dedup_key : List A → List A
  dedup_key [] = []
  dedup_key (x ∷ xs) = x ∷ dedup_key_from x xs

module _ {K V : Type 0} ⦃e : Eq K⦄ where
  -- `entry(k).or_default().push(v)`
  abbrev pub push_entry : K → V → List (K × List V) → List (K × List V)
  push_entry k v [] = (k, v ∷ []) ∷ []
  push_entry k v ((j, vs) ∷ m) =
      if k == j then (j, vs ++ v ∷ []) ∷ m else (j, vs) ∷ push_entry k v m

  pub lookup-push_entry :
      (k j : K) (v : V) (m : List (K × List V))
      → get_or_nil (lookup j (push_entry k v m))
        ≡ (if j == k then get_or_nil (lookup j m) ++ v ∷ [] else get_or_nil (lookup j m))
  lookup-push_entry k j v [] = ground arith
  lookup-push_entry k j v ((i, vs) ∷ m) =
      ground (arith, e.eqb_iff j k, e.eqb_iff k i, e.eqb_iff j i, lookup-push_entry k j v m)

pub Elem-push_entry :
    {K V : Type 0} ⦃e : Eq K⦄ (k j : K) (v w : V) (m : List (K × List V))
    → Elem w (get_or_nil (lookup j (push_entry k v m)))
      ↔ ((j ≡ k) × (w ≡ v) ⊎ Elem w (get_or_nil (lookup j m)))
Elem-push_entry ⦃e⦄ k j v w m =
    rw (lookup-push_entry k j v m)
      (ground (arith, e.eqb_iff j k, Elem-append w (get_or_nil (lookup j m)) (v ∷ [])))

module _ {K V : Type 0} ⦃e : Eq K⦄ where
  -- The loop `for (k, v) in pairs { entry(k).or_default().push(v) }`.
  abbrev pub push_all : List (K × List V) → List (K × V) → List (K × List V)
  push_all m [] = m
  push_all m ((k, v) ∷ pairs) = push_all (push_entry k v m) pairs

  pub Elem-push_all :
      (j : K) (w : V) (m : List (K × List V)) (pairs : List (K × V))
      → Elem w (get_or_nil (lookup j (push_all m pairs)))
        ↔ (Elem (j, w) pairs ⊎ Elem w (get_or_nil (lookup j m)))
  Elem-push_all j w m [] = ground arith
  Elem-push_all j w m ((k, v) ∷ pairs) =
      ground (arith, Elem-push_all j w (push_entry k v m) pairs, Elem-push_entry k j v w m)

module _ {K : Type 0} ⦃e : Eq K⦄ where
  -- `*entry(k).or_default() += 1`
  abbrev pub bump : K → List (K × ℕ) → List (K × ℕ)
  bump k [] = (k, 1) ∷ []
  bump k ((j, n) ∷ m) = if k == j then (j, n + 1) ∷ m else (j, n) ∷ bump k m

  abbrev pub count_of : K → List (K × ℕ) → ℕ
  count_of k m = elim (lookup k m) [ none ↦ 0 | some n ↦ n ]

  pub count_of-bump :
      (k j : K) (m : List (K × ℕ))
      → count_of j (bump k m) ≡ (if j == k then count_of j m + 1 else count_of j m)
  count_of-bump k j [] = ground arith
  count_of-bump k j ((i, n) ∷ m) =
      ground (arith, e.eqb_iff j k, e.eqb_iff k i, e.eqb_iff j i, count_of-bump k j m)

-- ===== src/Prelude/Deduplicated.antt =====
-- `sort_by` and then `dedup_by`, by one key: each key once, in increasing order.
use Prim.Native.Nat.{Ordering}
use mathlib.Core.Path.{◌≡◌, refl, sym, ap}
use mathlib.Core.Logic.{inl, inr, ⊎_elim}
use mathlib.Core.List.{List, [], ◌∷◌, map}
use native.Mathlib.Omega.{arith}
use ovecc.Prelude.Tests.{Bool-cases}
use ovecc.Prelude.Lists.{Elem, All-imp}
use ovecc.Prelude.Order.{Ord, Eq, ◌==◌}
use ovecc.Prelude.Sorting.{Increasing, sort_by, Elem-sort_by}
use ovecc.Prelude.Sorted.{by_key, by_key-IsPreorder, Ordered, sort_by-Ordered}
use ovecc.Prelude.Maps.{dedup_key, dedup_key_from}

module _ {A K : Type 0} ⦃o : Ord K⦄ ⦃e : Eq K⦄ (key : A → K) where
  Elem-dedup_key_from : (a kept : A) (xs : List A) → Elem a (dedup_key_from key kept xs) → Elem a xs
  Elem-dedup_key_from a kept [] m = m
  Elem-dedup_key_from a kept (x ∷ xs) m =
      ground (arith, Elem-dedup_key_from a kept xs, Elem-dedup_key_from a x xs, m)

  kept-dedup_key_from :
      (a kept : A) (xs : List A)
      → Elem a (kept ∷ xs)
      → (b : A) × Elem b (kept ∷ dedup_key_from key kept xs) × (key b ≡ key a)
  kept-dedup_key_from a kept [] m = (a, m, refl)
  kept-dedup_key_from a kept (x ∷ xs) m = elim (Bool-cases (key x == key kept)) [
    | inl same ↦
        rw (same, dedup_key_from)
          (⊎_elim (λ h. (kept, inl refl, ap key (sym h)))
            (⊎_elim (λ h. (kept, inl refl, cc (ap key h, (e.eqb_iff (key x) (key kept)).0 same)))
              (λ k. kept-dedup_key_from a kept xs (inr k)))
            m)
    | inr other ↦
        rw (other, dedup_key_from)
          (⊎_elim (λ h. (kept, inl refl, ap key (sym h)))
            (λ k. let (b, i, q) = kept-dedup_key_from a x xs k in (b, inr i, q)) m)
  ]

  Increasing-dedup_key_from :
      (kept : A) (xs : List A)
      → Ordered (by_key key) (kept ∷ xs)
      → Increasing (map key (kept ∷ dedup_key_from key kept xs))
  Increasing-dedup_key_from kept [] h = (tt, tt)
  Increasing-dedup_key_from kept (x ∷ xs) h = elim (Bool-cases (key x == key kept)) [
    | inl same ↦ rw (same, dedup_key_from) (Increasing-dedup_key_from kept xs (h.0.1, h.1.1))
    | inr other ↦
        let rest = Increasing-dedup_key_from x xs h.1 in
        let below : o.cmp (key kept) (key x) ≡ Ordering.lt =
          ground (arith, o.cmp_eq (key kept) (key x), e.eqb_iff (key x) (key kept), h.0.0, other) in
        rw (other, dedup_key_from)
          (
            (
              below,
              All-imp _ _ (map key (dedup_key_from key x xs))
                  (λ k more. o.cmp_trans (key kept) (key x) k below more) rest.0,
            ),
            rest,
          )
  ]

  Elem-dedup_key : (a : A) (xs : List A) → Elem a (dedup_key key xs) → Elem a xs
  Elem-dedup_key a [] m = m
  Elem-dedup_key a (x ∷ xs) m = ground (arith, Elem-dedup_key_from a x xs, m)

  kept-dedup_key :
      (a : A) (xs : List A) → Elem a xs → (b : A) × Elem b (dedup_key key xs) × (key b ≡ key a)
  kept-dedup_key a [] m = absurd m
  kept-dedup_key a (x ∷ xs) m = kept-dedup_key_from a x xs m

  Increasing-dedup_key :
      (xs : List A) → Ordered (by_key key) xs → Increasing (map key (dedup_key key xs))
  Increasing-dedup_key [] h = tt
  Increasing-dedup_key (x ∷ xs) h = Increasing-dedup_key_from x xs h

  abbrev pub sort_dedup : List A → List A
  sort_dedup xs = dedup_key key (sort_by (by_key key) xs)

  pub Elem-sort_dedup : (a : A) (xs : List A) → Elem a (sort_dedup xs) → Elem a xs
  Elem-sort_dedup a xs m =
      (Elem-sort_by (by_key key) a xs).0 (Elem-dedup_key a (sort_by (by_key key) xs) m)

  pub kept-sort_dedup :
      (a : A) (xs : List A) → Elem a xs → (b : A) × Elem b (sort_dedup xs) × (key b ≡ key a)
  kept-sort_dedup a xs m =
      kept-dedup_key a (sort_by (by_key key) xs) ((Elem-sort_by (by_key key) a xs).1 m)

  pub Increasing-sort_dedup : (xs : List A) → Increasing (map key (sort_dedup xs))
  Increasing-sort_dedup xs =
      Increasing-dedup_key (sort_by (by_key key) xs)
        (sort_by-Ordered (by_key key) (by_key-IsPreorder key) xs)

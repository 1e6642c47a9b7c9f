-- ===== src/Prelude/Grouping.antt =====
-- `BTreeMap<K, Vec<V>>`: entries in the order of their keys, each with the values pushed under it.
use Prim.Native.Nat.{Ordering}
use mathlib.Core.Path.{◌≡◌, refl, sym, subst}
use mathlib.Core.Logic.{◌↔◌, ◌⊎◌, inl, inr, ⊎_elim}
use mathlib.Core.Bool.{Bool, true, false}
use mathlib.Core.List.{List, [], ◌∷◌, ◌++◌}
use native.Mathlib.Omega.{arith}
use ovecc.Prelude.Lists.{Elem, Elem-append}
use ovecc.Prelude.Order.{Ord, Eq, ◌==◌, lookup}
use ovecc.Prelude.Tests.{if◌then◌else◌}
use mathlib.Core.Option.{some}
use ovecc.Prelude.Maps.{keep_if, Elem-keep_if}

abbrev pub Groups : Type 0 → Type 0 → Type 0
Groups K V = List (K × List V)

module _ {K V : Type 0} where
  -- The value stands under the key.
  abbrev pub Holds : K → V → List (K × List V) → Type 0
  Holds k v [] = ⊥
  Holds k v ((j, vs) ∷ m) = (k ≡ j) × Elem v vs ⊎ Holds k v m

module _ {K V : Type 0} ⦃o : Ord K⦄ where
  -- `entry(k).or_default().push(v)`
  abbrev pub push_group : K → V → List (K × List V) → List (K × List V)
  push_group k v [] = (k, v ∷ []) ∷ []
  push_group k v ((j, vs) ∷ m) = elim (o.cmp k j) [
    | Ordering.lt ↦ (k, v ∷ []) ∷ (j, vs) ∷ m
    | Ordering.eq ↦ (j, vs ++ v ∷ []) ∷ m
    | Ordering.gt ↦ (j, vs) ∷ push_group k v m
  ]

  pub Holds-push_group :
      (k j : K) (v w : V) (m : List (K × List V))
      → Holds j w (push_group k v m) ↔ ((j ≡ k) × (w ≡ v) ⊎ Holds j w m)
  Holds-push_group k j v w [] = ground arith
  Holds-push_group k j v w ((i, vs) ∷ m) =
      ground (arith, o.cmp_eq k i, Elem-append w vs (v ∷ []), Holds-push_group k j v w m)

keep_if-nil :
    {V : Type 0} (p : V → Bool) (vs : List V)
    → ((v : V) → Elem v vs → p v ≡ false)
    → keep_if p vs ≡ []
keep_if-nil p [] h = refl
keep_if-nil p (v ∷ vs) h = rw (h v (inl refl)) (keep_if-nil p vs (λ w m. h w (inr m)))

module _ {K V : Type 0} where
  abbrev keep_group : K → List V → List (K × List V) → List (K × List V)
  keep_group k [] m = m
  keep_group k (v ∷ vs) m = (k, v ∷ vs) ∷ m

  -- Filters the values of every entry, and drops the entries that this leaves empty.
  abbrev pub filter_groups : (K → V → Bool) → List (K × List V) → List (K × List V)
  filter_groups p [] = []
  filter_groups p ((k, vs) ∷ m) = keep_group k (keep_if (p k) vs) (filter_groups p m)

  Holds-keep_group :
      (k j : K) (w : V) (vs : List V) (m : List (K × List V))
      → Holds j w (keep_group k vs m) ↔ ((j ≡ k) × Elem w vs ⊎ Holds j w m)
  Holds-keep_group k j w [] m = ground arith
  Holds-keep_group k j w (v ∷ vs) m = ground arith

  pub Holds-filter_groups :
      (p : K → V → Bool) (j : K) (w : V) (m : List (K × List V))
      → Holds j w (filter_groups p m) ↔ (Holds j w m × (p j w ≡ true))
  Holds-filter_groups p j w [] = ground arith
  Holds-filter_groups p j w ((k, vs) ∷ m) =
      let split = Holds-keep_group k j w (keep_if (p k) vs) (filter_groups p m) in
      let here = Elem-keep_if (p k) w vs in
      let rest = Holds-filter_groups p j w m in
      (
        λ h.
            ⊎_elim
              (λ r. (inl (r.0, (here.0 r.1).0), subst (λ i. p i w ≡ true) (sym r.0) (here.0 r.1).1))
              (λ r. (inr (rest.0 r).0, (rest.0 r).1)) (split.0 h),
        λ h. split.1 (
            ⊎_elim (λ r. inl (r.0, here.1 (r.1, subst (λ i. p i w ≡ true) r.0 h.1)))
              (λ r. inr (rest.1 (r, h.1))) h.0),
      )

  -- Where no value passes nothing is left, not even an empty entry.
  pub filter_groups-nil :
      (p : K → V → Bool) (m : List (K × List V))
      → ((k : K) (v : V) → Holds k v m → p k v ≡ false)
      → filter_groups p m ≡ []
  filter_groups-nil p [] h = refl
  filter_groups-nil p ((k, vs) ∷ m) h =
      rw
        (
          keep_if-nil (p k) vs (λ v e. h k v (inl (refl, e))),
          filter_groups-nil p m (λ j v e. h j v (inr e)),
        )
        refl

-- `BTreeMap::insert`.
module _ {K V : Type 0} ⦃o : Ord K⦄ where
  abbrev pub map_insert : K → V → List (K × V) → List (K × V)
  map_insert k v [] = (k, v) ∷ []
  map_insert k v ((j, w) ∷ m) = elim (o.cmp k j) [
    | Ordering.lt ↦ (k, v) ∷ (j, w) ∷ m
    | Ordering.eq ↦ (j, v) ∷ m
    | Ordering.gt ↦ (j, w) ∷ map_insert k v m
  ]

  pub lookup-map_insert :
      ⦃e : Eq K⦄ (k j : K) (v : V) (m : List (K × V))
      → lookup j (map_insert k v m) ≡ (if j == k then some v else lookup j m)
  lookup-map_insert ⦃e⦄ k j v [] = refl
  lookup-map_insert ⦃e⦄ k j v ((i, w) ∷ m) =
      ground (
        arith,
        o.cmp_eq k i,
        e.eqb_iff j k,
        e.eqb_iff k i,
        e.eqb_iff j i,
        lookup-map_insert k j v m,
      )

  -- `entry(k).or_default()`, changed by `f`.
  abbrev pub map_entry : K → V → (V → V) → List (K × V) → List (K × V)
  map_entry k default f [] = (k, f default) ∷ []
  map_entry k default f ((j, w) ∷ m) = elim (o.cmp k j) [
    | Ordering.lt ↦ (k, f default) ∷ (j, w) ∷ m
    | Ordering.eq ↦ (j, f w) ∷ m
    | Ordering.gt ↦ (j, w) ∷ map_entry k default f m
  ]

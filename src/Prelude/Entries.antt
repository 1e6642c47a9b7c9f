-- ===== src/Prelude/Entries.antt =====
-- `BTreeMap::entry`: what a look-up finds once an entry was changed.
use Prim.Native.Nat.{ℕ, ◌<◌, Ordering}
use mathlib.Core.Path.{◌≡◌, refl, sym, ap, ◌∙◌, subst}
use mathlib.Core.Logic.{◌≢◌, inl, inr}
use mathlib.Core.Option.{Option, none, some}
use mathlib.Core.List.{List, [], ◌∷◌, ◌++◌, append-nil}
use native.Mathlib.Omega.{arith}
use ovecc.Prelude.Tests.{if◌then◌else◌, leb, Bool-cases}
use ovecc.Prelude.Lists.{All, All-imp, length}
use ovecc.Prelude.Order.{Ord, Eq, ◌==◌, lookup, flip}
use ovecc.Prelude.Sorting.{Ordering-cases}
use ovecc.Prelude.Grouping.{map_entry, push_group}
use ovecc.Prelude.Maps.{keep_if}

abbrev pub value_or : {V : Type 0} → V → Option V → V
value_or default none = default
value_or default (some v) = v

module _ {K V : Type 0} ⦃o : Ord K⦄ ⦃e : Eq K⦄ where
  -- The keys ascend, none twice.
  abbrev pub Ascending : List (K × V) → Type 0
  Ascending [] = Unit {0}
  Ascending ((j, w) ∷ m) = All (λ b. o.cmp j b.0 ≡ Ordering.lt) m × Ascending m

  pub lookup-below :
      (k : K) (m : List (K × V)) → All (λ b. o.cmp k b.0 ≡ Ordering.lt) m → lookup k m ≡ none
  lookup-below k [] below = refl
  lookup-below k ((j, w) ∷ m) below =
      ground (arith, o.cmp_eq k j, e.eqb_iff k j, lookup-below k m below.1)

  pub lookup-map_entry :
      (k : K) (default : V) (f : V → V) (m : List (K × V))
      → Ascending m
      → lookup k (map_entry k default f m) ≡ some (f (value_or default (lookup k m)))
  lookup-map_entry k default f [] up = ground (arith, e.eqb_iff k k)
  lookup-map_entry k default f ((j, w) ∷ m) up = elim (Ordering-cases (o.cmp k j)) [
    | inl below ↦
        let out : lookup k m ≡ none =
          lookup-below k m (All-imp _ _ m (λ b more. o.cmp_trans k j b.0 below more) up.0) in
        ground (arith, o.cmp_eq k j, e.eqb_iff k j, e.eqb_iff k k)
    | inr (inl same) ↦ ground (arith, o.cmp_eq k j, e.eqb_iff k j)
    | inr (inr above) ↦
        ground (arith, o.cmp_eq k j, e.eqb_iff k j, lookup-map_entry k default f m up.1)
  ]

  pub lookup-map_entry_other :
      (k j : K) (default : V) (f : V → V) (m : List (K × V))
      → j ≢ k
      → lookup j (map_entry k default f m) ≡ lookup j m
  lookup-map_entry_other k j default f [] apart = ground (arith, e.eqb_iff j k)
  lookup-map_entry_other k j default f ((i, w) ∷ m) apart = ground (
    arith,
    o.cmp_eq k i,
    e.eqb_iff j k,
    e.eqb_iff j i,
    lookup-map_entry_other k j default f m apart,
  )

  All-map_entry :
      (P : K → Type 0) (k : K) (default : V) (f : V → V) (m : List (K × V))
      → P k
      → All (λ b. P b.0) m
      → All (λ b. P b.0) (map_entry k default f m)
  All-map_entry P k default f [] here all = (here, tt)
  All-map_entry P k default f ((j, w) ∷ m) here all =
      elim (o.cmp k j)
        as (λ c.
          All (λ b. P b.0)
            (elim c [
              | Ordering.lt ↦ (k, f default) ∷ (j, w) ∷ m
              | Ordering.eq ↦ (j, f w) ∷ m
              | Ordering.gt ↦ (j, w) ∷ map_entry k default f m
            ])) [
              | Ordering.lt ↦ (here, all)
              | Ordering.eq ↦ all
              | Ordering.gt ↦ (all.0, All-map_entry P k default f m here all.1)
            ]

  pub All-map_entry_value :
      (P : V → Type 0) (k : K) (default : V) (f : V → V) (m : List (K × V))
      → P default
      → ((v : V) → P v → P (f v))
      → All (λ b. P b.1) m
      → All (λ b. P b.1) (map_entry k default f m)
  All-map_entry_value P k default f [] start grow all = (grow default start, tt)
  All-map_entry_value P k default f ((j, w) ∷ m) start grow all =
      elim (o.cmp k j)
        as (λ c.
          All (λ b. P b.1)
            (elim c [
              | Ordering.lt ↦ (k, f default) ∷ (j, w) ∷ m
              | Ordering.eq ↦ (j, f w) ∷ m
              | Ordering.gt ↦ (j, w) ∷ map_entry k default f m
            ])) [
              | Ordering.lt ↦ (grow default start, all)
              | Ordering.eq ↦ (grow w all.0, all.1)
              | Ordering.gt ↦ (all.0, All-map_entry_value P k default f m start grow all.1)
            ]

  pub Ascending-map_entry :
      (k : K) (default : V) (f : V → V) (m : List (K × V))
      → Ascending m
      → Ascending (map_entry k default f m)
  Ascending-map_entry k default f [] up = (tt, tt)
  Ascending-map_entry k default f ((j, w) ∷ m) up = elim (Ordering-cases (o.cmp k j)) [
    | inl below ↦
        rw (below, map_entry)
          ((below, All-imp _ _ m (λ b more. o.cmp_trans k j b.0 below more) up.0), up)
    | inr (inl same) ↦ rw (same, map_entry) up
    | inr (inr above) ↦
        rw (above, map_entry)
          (
            All-map_entry (λ i. o.cmp j i ≡ Ordering.lt) k default f m
                (o.cmp_flip k j ∙ ap flip above) up.0,
            Ascending-map_entry k default f m up.1,
          )
  ]

module _ {K V : Type 0} ⦃o : Ord K⦄ ⦃e : Eq K⦄ where
  push_group-map_entry :
      (k : K) (v : V) (m : List (K × List V))
      → push_group k v m ≡ map_entry k [] (λ vs. vs ++ v ∷ []) m
  push_group-map_entry k v [] = refl
  push_group-map_entry k v ((j, vs) ∷ m) = ground (arith, push_group-map_entry k v m)

  pub Ascending-push_group :
      (k : K) (v : V) (m : List (K × List V)) → Ascending m → Ascending (push_group k v m)
  Ascending-push_group k v m up =
      subst Ascending (sym (push_group-map_entry k v m))
        (Ascending-map_entry k [] (λ vs. vs ++ v ∷ []) m up)

  pub lookup-push_group :
      (k j : K) (v : V) (m : List (K × List V))
      → Ascending m
      → value_or [] (lookup j (push_group k v m))
        ≡ value_or [] (lookup j m) ++ (if j == k then v ∷ [] else [])
  lookup-push_group k j v m up = rw (push_group-map_entry k v m) (elim (Bool-cases (j == k)) [
    | inl same ↦
        let at : k ≡ j = sym ((e.eqb_iff j k).0 same) in
        rw same (
          subst
            (λ i.
              value_or [] (lookup i (map_entry k [] (λ vs. vs ++ v ∷ []) m))
              ≡ value_or [] (lookup i m) ++ v ∷ [])
            at (ap (value_or []) (lookup-map_entry k [] (λ vs. vs ++ v ∷ []) m up)))
    | inr apart ↦
        let other =
          lookup-map_entry_other k j [] (λ vs. vs ++ v ∷ []) m (λ i. cc ((e.eqb_iff j k).1 i)) in
        rw apart (ap (value_or []) other ∙ sym (append-nil (value_or [] (lookup j m))))
  ])

  -- `retain`, by the length of the groups.
  pub lookup-retain :
      (least : ℕ) (k : K) (m : List (K × List V))
      → 0 < least
      → Ascending m
      → lookup k (keep_if (λ g. leb least (length g.1)) m) ≡ (
          if leb least (length (value_or [] (lookup k m)))
          then some (value_or [] (lookup k m))
          else none)
  lookup-retain least k [] some_ up = ground arith
  lookup-retain least k ((j, vs) ∷ m) some_ up =
      let rest = lookup-retain least k m some_ up.1 in
      elim (Bool-cases (k == j)) [
        | inl same ↦
            let at : j ≡ k = sym ((e.eqb_iff k j).0 same) in
            let out : lookup k m ≡ none =
              lookup-below k m (subst (λ i. All (λ b. o.cmp i b.0 ≡ Ordering.lt) m) at up.0) in
            ground (arith, rest)
        | inr apart ↦ ground (arith, rest)
      ]

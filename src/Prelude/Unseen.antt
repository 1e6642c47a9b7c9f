-- ===== src/Prelude/Unseen.antt =====
-- How many nodes a search has still to see: it bounds the rounds of the search.
use Prim.Native.Nat.{ℕ, suc, ◌+◌, ◌≤◌}
use mathlib.Core.Path.{◌≡◌}
use mathlib.Core.Bool.{true, false}
use mathlib.Core.List.{List, [], ◌∷◌}
use native.Mathlib.Omega.{arith}
use ovecc.Prelude.Tests.{if◌then◌else◌}
use ovecc.Prelude.Lists.{Elem, length}
use ovecc.Prelude.Order.{Eq, contains}

module _ {K : Type 0} ⦃e : Eq K⦄ where
  -- How many of the nodes are not among those seen.
  abbrev pub unseen : List K → List K → ℕ
  unseen seen [] = 0
  unseen seen (u ∷ us) = (if contains u seen then 0 else 1) + unseen seen us

  abbrev pub Grows : List K → List K → Type 0
  Grows seen more = (u : K) → contains u seen ≡ true → contains u more ≡ true

  pub unseen_mono : (seen more us : List K) → Grows seen more → unseen more us ≤ unseen seen us
  unseen_mono seen more [] h = omega arith
  unseen_mono seen more (u ∷ us) h = ground (arith, h u, unseen_mono seen more us h)

  -- A node that was not seen before counts no longer.
  pub unseen_less :
      (a : K) (seen more us : List K)
      → Grows seen more
      → contains a seen ≡ false
      → contains a more ≡ true
      → Elem a us
      → suc (unseen more us) ≤ unseen seen us
  unseen_less a seen more [] h out within m = absurd m
  unseen_less a seen more (u ∷ us) h out within m = ground (
    arith,
    h u,
    e.eqb_iff u a,
    unseen_mono seen more us h,
    unseen_less a seen more us h out within,
  )

  pub unseen-le : (seen us : List K) → unseen seen us ≤ length us
  unseen-le seen [] = omega arith
  unseen-le seen (u ∷ us) = ground (arith, unseen-le seen us)

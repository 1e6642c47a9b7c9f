-- ===== src/Rules/Contract/Coupling/Keys.antt =====
-- `classify_coupling` of contract.rs: the ordered pair of components that a change is counted for.
use Prim.Native.Nat.{Ordering}
use ovecc.Prelude.{
  ◌≡◌, ◌≢◌, ◌↔◌, ◌⊎◌, inl, inr, ⊎_elim, refl, sym, ◌∙◌, subst, Bool, true, ◌||◌, Option, none, some,
  if◌then◌else◌, ◌==◌, ==_iff, list_eqb, list_eqb_iff, list_cmp, list_cmp_eq, list_cmp-flip,
  list_ord, nat_ord, pair_eq, list_eq, nat_eq, Ordering-cases, Bool-cases, pair_ord,
}
use ovecc.Text.{Text}
use ovecc.Rules.Contract.{Pair}
use ovecc.Rules.Contract.Coupling.{is_key}

-- The key of two components, if nothing explains them.
abbrev pub key_if : Bool → Text → Text → Option Pair
key_if explains x y =
    if list_eqb x y || explains
    then none
    else some (elim (list_cmp x y) [ Ordering.lt ↦ (x, y) | _ ↦ (y, x) ])

module _ (P : Text → Text → Type 0) where
  -- One of the two components is the first of the pair, and the other is the second.
  abbrev Sides : Text → Text → Pair → Type 0
  Sides x y q = ((x ≡ q.0) × (y ≡ q.1)) ⊎ ((x ≡ q.1) × (y ≡ q.0))

  abbrev pub IsKey : Text → Text → Pair → Type 0
  IsKey x y q = (list_cmp q.0 q.1 ≡ Ordering.lt) × Sides x y q × (¬ P q.0 q.1) × (¬ P q.1 q.0)

  on_sides : (x y : Text) (q : Pair) → Sides x y q → P x y ⊎ P y x → P q.0 q.1 ⊎ P q.1 q.0
  on_sides x y q (inl (e, f)) =
      ⊎_elim (λ p. inl (subst (λ z. P z q.1) e (subst (λ z. P x z) f p)))
        (λ p. inr (subst (λ z. P z q.0) f (subst (λ z. P y z) e p)))
  on_sides x y q (inr (e, f)) =
      ⊎_elim (λ p. inr (subst (λ z. P z q.0) e (subst (λ z. P x z) f p)))
        (λ p. inl (subst (λ z. P z q.1) f (subst (λ z. P y z) e p)))

  Sides-IsKey :
      (x y a b : Text) (q : Pair)
      → list_cmp a b ≡ Ordering.lt
      → Sides x y (a, b)
      → ¬ (P x y ⊎ P y x)
      → Sides a b (x, y)
      → ((q == (a, b)) ≡ true) ↔ IsKey x y q
  Sides-IsKey x y a b q below named free back = (
    λ h.
        let e : q ≡ (a, b) = (==_iff q (a, b)).0 h in
        subst (IsKey x y) (sym e) (
          below,
          named,
          (λ p. free (on_sides a b (x, y) back (inl p))),
          λ p. free (on_sides a b (x, y) back (inr p)),
        ),
    λ (less, w, n, m). (==_iff q (a, b)).1 (both q less w),
  )
    where
      both : (q : Pair) → list_cmp q.0 q.1 ≡ Ordering.lt → Sides x y q → q ≡ (a, b)
      both q less w =
          let flipped = list_cmp-flip a b in
          ⊎_elim
            (λ (e, f).
              ⊎_elim (λ (g, h). λ i. ((sym e ∙ g) i, (sym f ∙ h) i))
                (λ (g, h). cc (less, below, flipped, sym e ∙ g, sym f ∙ h)) named)
            (λ (e, f).
              ⊎_elim (λ (g, h). cc (less, below, flipped, sym e ∙ g, sym f ∙ h))
                (λ (g, h). λ i. ((sym f ∙ h) i, (sym e ∙ g) i)) named)
            w

  pub key_if-IsKey :
      (explains : Bool) (x y : Text) (q : Pair)
      → (explains ≡ true) ↔ (P x y ⊎ P y x)
      → (is_key q (key_if explains x y) ≡ true) ↔ IsKey x y q
  key_if-IsKey explains x y q law = elim (Bool-cases (list_eqb x y)) [
    | inl same ↦
        rw same
          (λ h. cc, λ (less, w, n, m). absurd (ordered q less (one ((list_eqb_iff x y).0 same) w)))
    | inr differ ↦ elim (Bool-cases explains) [
      | inl known ↦
          rw (differ, known)
            (λ h. cc, λ (less, w, n, m). absurd (⊎_elim n m (on_sides x y q w (law.0 known))))
      | inr unknown ↦
          let free : ¬ (P x y ⊎ P y x) = λ p. let e = law.1 p in cc in
          elim (Ordering-cases (list_cmp x y)) [
            | inl below ↦
                rw (differ, unknown, below)
                  (Sides-IsKey x y x y q below (inl (refl, refl)) free (inl (refl, refl)))
            | inr (inl level) ↦
                absurd (let e = (list_eqb_iff x y).1 ((list_cmp_eq x y).0 level) in cc)
            | inr (inr above) ↦
                let less : list_cmp y x ≡ Ordering.lt = cc (list_cmp-flip x y, above) in
                rw (differ, unknown, above)
                  (Sides-IsKey x y y x q less (inr (refl, refl)) free (inr (refl, refl)))
          ]
    ]
  ]
    where
      one : x ≡ y → Sides x y q → q.0 ≡ q.1
      one e w = ⊎_elim (λ (f, g). sym f ∙ e ∙ g) (λ (f, g). sym g ∙ sym e ∙ f) w

      ordered : (q : Pair) → list_cmp q.0 q.1 ≡ Ordering.lt → q.0 ≢ q.1
      ordered q less e = let level = (list_cmp_eq q.0 q.1).1 e in cc

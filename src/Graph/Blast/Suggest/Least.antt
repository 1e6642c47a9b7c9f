-- ===== src/Graph/Blast/Suggest/Least.antt =====
-- `label_distance` of blast.rs: it is the cost of a cheapest edit script to a spelling of the label.
use ovecc.Prelude.{
  ℕ, ◌≤◌, ◌≡◌, ◌⊎◌, inl, inr, ⊎_elim, refl, sym, ap, ◌∙◌, subst, none, some, min, list_eq, nat_eq,
  list_ord, nat_ord, Option-cases, arith,
}
use native.Mathlib.Decide.{dec_le}
use ovecc.Text.{Text, codes, lower, rsplit_once}
use ovecc.Graph.Blast.Distance.{levenshtein, Script}
use ovecc.Graph.Blast.Distance.Optimal.{levenshtein_minimal}
use ovecc.Graph.Blast.Suggest.{leaf_distance, label_distance}

-- What follows the last separator of a text.
abbrev IsLeaf : Text → Text → Text → Type 0
IsLeaf separator whole leaf = (front : Text) × (rsplit_once separator whole ≡ some (front, leaf))

-- What the input is compared with for a label: all of it, or one of its two leaves, in lower case.
abbrev pub IsSpelling : Text → Text → Type 0
IsSpelling label t =
    ((t ≡ lower label) ⊎ IsLeaf (codes "/") (lower label) t) ⊎ IsLeaf (codes "::") (lower label) t

-- The cost of a cheapest edit script from the needle to one of the spellings.
abbrev pub IsLeast : (Text → Type 0) → Text → ℕ → Type 0
IsLeast Spelling needle d =
    ((t : Text) × Spelling t × Script needle t d)
    × ((t : Text) → Spelling t → (n : ℕ) → Script needle t n → d ≤ n)

leaf_distance-none :
    (separator needle whole : Text) (best : ℕ)
    → rsplit_once separator whole ≡ none
    → leaf_distance separator needle whole best ≡ best
unfolding leaf_distance
leaf_distance-none separator needle whole best e = rw (e, leaf_distance) refl

leaf_distance-some :
    (separator needle whole front leaf : Text) (best : ℕ)
    → rsplit_once separator whole ≡ some (front, leaf)
    → leaf_distance separator needle whole best ≡ min best (levenshtein needle leaf)
unfolding leaf_distance
leaf_distance-some separator needle whole front leaf best e = rw (e, leaf_distance) refl

-- A leaf that competes with the least so far leaves the least of all.
min-IsLeast :
    (Spelling Leaf : Text → Type 0) (needle leaf : Text) (best : ℕ)
    → Leaf leaf
    → ((t : Text) → Leaf t → t ≡ leaf)
    → IsLeast Spelling needle best
    → IsLeast (λ t. Spelling t ⊎ Leaf t) needle (min best (levenshtein needle leaf))
min-IsLeast Spelling Leaf needle leaf best named only ((t, k, s), least) =
    let (there, cheap) = levenshtein_minimal needle leaf in
    let below : (u : Text)
        → Spelling u ⊎ Leaf u
        → (n : ℕ) → Script needle u n
        → min best (levenshtein needle leaf) ≤ n =
      λ u h n r.
        ⊎_elim (λ p. omega (arith, least u p n r))
          (λ p. omega (arith, cheap n (subst (λ v. Script needle v n) (only u p) r))) h in
    elim (dec_le best (levenshtein needle leaf)) [
      | yes h ↦
          let e : best ≡ min best (levenshtein needle leaf) = omega arith in
          ((t, inl k, subst (Script needle t) e s), below)
      | no h ↦
          let e : levenshtein needle leaf ≡ min best (levenshtein needle leaf) = omega arith in
          ((leaf, inr named, subst (Script needle leaf) e there), below)
    ]

leaf_distance-IsLeast :
    (Spelling : Text → Type 0) (separator needle whole : Text) (best : ℕ)
    → IsLeast Spelling needle best
    → IsLeast
        (λ t. Spelling t ⊎ IsLeaf separator whole t)
        needle
        (leaf_distance separator needle whole best)
leaf_distance-IsLeast Spelling separator needle whole best ((t, k, s), least) =
    let Goal : ℕ → Type 0 = IsLeast (λ t. Spelling t ⊎ IsLeaf separator whole t) needle in
    elim (Option-cases (rsplit_once separator whole)) [
      | inl whole_only ↦
          subst Goal (sym (leaf_distance-none separator needle whole best whole_only))
            ((t, inl k, s), λ u h n r. ⊎_elim (λ p. least u p n r) (λ (front, e). cc) h)
      | inr ((front, leaf), split) ↦
          subst Goal (sym (leaf_distance-some separator needle whole front leaf best split)) (
            min-IsLeast Spelling (IsLeaf separator whole) needle leaf best (front, split)
              (λ u (other, e). same_leaf (other, u) (front, leaf) (sym e ∙ split))
              ((t, k, s), least))
    ]
  where
    same_leaf : (p q : Text × Text) → some p ≡ some q → p.1 ≡ q.1
    same_leaf p q h = let e : p ≡ q = cc in ap (λ r. r.1) e

pub label_distance-IsLeast :
    (needle label : Text) → IsLeast (IsSpelling label) needle (label_distance needle label)
unfolding label_distance
label_distance-IsLeast needle label =
    let whole = lower label in
    let (there, cheap) = levenshtein_minimal needle whole in
    leaf_distance-IsLeast _ (codes "::") needle whole _ (
      leaf_distance-IsLeast (λ t. t ≡ whole) (codes "/") needle whole _
        ((whole, refl, there), λ t e n r. cheap n (subst (λ v. Script needle v n) e r)))

pub least_unique :
    (Spelling : Text → Type 0) (needle : Text) (d e : ℕ)
    → IsLeast Spelling needle d
    → IsLeast Spelling needle e
    → d ≡ e
least_unique Spelling needle d e ((t, k, s), least) ((u, l, r), lower_bound) =
    omega (arith, least u l e r, lower_bound t k d s)

-- ===== src/Graph/Blast/Distance/Optimal.antt =====
-- The computed distance is the cost of a cheapest edit script.
use ovecc.Prelude.{
  ℕ, suc, ◌+◌, ◌≤◌, ◌≡◌, refl, ap, sym, ◌∙◌, subst, [], ◌∷◌, min, length, nat_eqb, nat_eqb_iff,
  arith, Bool-cases, inl, inr, ◌⊎◌, ◌↔◌,
}
use native.Mathlib.Decide.{dec_le}
use ovecc.Text.{Text}
use ovecc.Graph.Blast.Distance.{cost, levenshtein, Script, nothing, insert, delete, keep, replace}
use ovecc.Graph.Blast.Distance.Table.{dist, dist-nil, rev_onto, levenshtein-eq-dist}

min-cases : (a b : ℕ) → (min a b ≡ a) ⊎ (min a b ≡ b)
min-cases a b = elim (dec_le a b) [ yes h ↦ inl (omega arith) | no h ↦ inr (omega arith) ]

at_cost : {a b : Text} (m : ℕ) {n : ℕ} → n ≡ m → Script a b m → Script a b n
at_cost {a} {b} m e s = subst (Script a b) (sym e) s

deletes : (a : Text) → Script a [] (length a)
deletes [] = nothing
deletes (x ∷ a) = delete x (deletes a)

inserts : (b : Text) → Script [] b (length b)
inserts [] = nothing
inserts (y ∷ b) = insert y (inserts b)

match_fronts : {a b : Text} (n x y : ℕ) → Script a b n → Script (x ∷ a) (y ∷ b) (n + cost x y)
match_fronts {a} {b} n x y s = elim (Bool-cases (nat_eqb x y)) [
  | inl same ↦
      let e = (nat_eqb_iff x y).0 same in
      at_cost n (ground arith) (subst (λ z. Script (x ∷ a) (z ∷ b) n) e (keep x s))
  | inr other ↦ at_cost (suc n) (ground arith) (replace x y s)
]

dist-Script : (a b : Text) → Script a b (dist a b)
unfolding dist
dist-Script [] b = inserts b
dist-Script (x ∷ a) [] = deletes (x ∷ a)
dist-Script (x ∷ a) (y ∷ b) =
    let third = insert y (dist-Script (x ∷ a) b) in
    let second = delete x (dist-Script a (y ∷ b)) in
    let first = match_fronts (dist a b) x y (dist-Script a b) in
    let p = min (dist a b + cost x y) (dist a (y ∷ b) + 1) in
    elim (min-cases p (dist (x ∷ a) b + 1)) [
      | inl l ↦ elim (min-cases (dist a b + cost x y) (dist a (y ∷ b) + 1)) [
        | inl l' ↦ at_cost (dist a b + cost x y) (l ∙ l') first
        | inr r' ↦ at_cost (suc (dist a (y ∷ b))) (omega arith) second
      ]
      | inr r ↦ at_cost (suc (dist (x ∷ a) b)) (omega arith) third
    ]

dist-insert-le : (a b : Text) (y : ℕ) → dist a (y ∷ b) ≤ suc (dist a b)
unfolding dist
dist-insert-le [] b y = omega arith
dist-insert-le (x ∷ a) b y = omega arith

dist-delete-le : (a b : Text) (x : ℕ) → dist (x ∷ a) b ≤ suc (dist a b)
unfolding dist
dist-delete-le a [] x = omega (arith, dist-nil a)
dist-delete-le a (y ∷ b) x = omega arith

dist-le : {a b : Text} {n : ℕ} → Script a b n → dist a b ≤ n
unfolding dist
dist-le nothing = omega arith
dist-le (insert {a} {b} y s) = omega (arith, dist-insert-le a b y, dist-le s)
dist-le (delete {a} {b} x s) = omega (arith, dist-delete-le a b x, dist-le s)
dist-le (keep {a} {b} {n} x s) = ground (arith, dist-le s)
dist-le (replace x y s) = ground (arith, dist-le s)

Script-rev_onto :
    {a b : Text} {n : ℕ} (ra rb : Text) (m : ℕ)
    → Script a b n
    → Script ra rb m
    → Script (rev_onto a ra) (rev_onto b rb) (n + m)
unfolding rev_onto
Script-rev_onto ra rb m nothing t = at_cost m (omega arith) t
Script-rev_onto ra rb m (insert {n} y s) t =
    at_cost (n + suc m) (omega arith) (Script-rev_onto ra (y ∷ rb) (suc m) s (insert y t))
Script-rev_onto ra rb m (delete {n} x s) t =
    at_cost (n + suc m) (omega arith) (Script-rev_onto (x ∷ ra) rb (suc m) s (delete x t))
Script-rev_onto ra rb m (keep x s) t = Script-rev_onto (x ∷ ra) (x ∷ rb) m s (keep x t)
Script-rev_onto ra rb m (replace {n} x y s) t =
    at_cost (n + suc m) (omega arith) (Script-rev_onto (x ∷ ra) (y ∷ rb) (suc m) s (replace x y t))

rev_onto-rev_onto : (a r : Text) → rev_onto (rev_onto a r) [] ≡ rev_onto r a
unfolding rev_onto
rev_onto-rev_onto [] r = refl
rev_onto-rev_onto (x ∷ a) r = rev_onto-rev_onto a (x ∷ r)

-- The table computes the edit distance: some script of that cost turns the one text into the other,
-- and no script is cheaper.
pub levenshtein_minimal :
    (a b : Text) → Script a b (levenshtein a b) × ((n : ℕ) → Script a b n → levenshtein a b ≤ n)
levenshtein_minimal a b =
    let e = levenshtein-eq-dist a b in
    let back = Script-rev_onto [] [] 0 (dist-Script (rev_onto a []) (rev_onto b [])) nothing in
    (
      subst (λ z. Script z b (levenshtein a b)) (rev_onto_twice a)
          (subst (λ z. Script (rev_onto (rev_onto a []) []) z (levenshtein a b)) (rev_onto_twice b)
            (at_cost _ (omega (arith, e)) back)),
      λ n s. omega (arith, e, dist-le (Script-rev_onto [] [] 0 s nothing)),
    )
  where
    rev_onto_twice : (a : Text) → rev_onto (rev_onto a []) [] ≡ a
    rev_onto_twice a = unfold rev_onto in rev_onto-rev_onto a []

Script-sym : {a b : Text} {n : ℕ} → Script a b n → Script b a n
Script-sym nothing = nothing
Script-sym (insert y s) = delete y (Script-sym s)
Script-sym (delete x s) = insert x (Script-sym s)
Script-sym (keep x s) = keep x (Script-sym s)
Script-sym (replace x y s) = replace y x (Script-sym s)

free-Script : {a b : Text} {n : ℕ} → Script a b n → n ≡ 0 → a ≡ b
free-Script nothing z = refl
free-Script (insert y s) z = absurd (omega arith)
free-Script (delete x s) z = absurd (omega arith)
free-Script (keep x s) z = ap (λ t. x ∷ t) (free-Script s z)
free-Script (replace x y s) z = absurd (omega arith)

copy : (a : Text) → Script a a 0
copy [] = nothing
copy (x ∷ a) = keep x (copy a)

-- The distance does not depend on the order of the texts, and it is zero exactly for equal texts.
pub levenshtein_metric :
    (a b : Text) → (levenshtein a b ≡ levenshtein b a) × ((levenshtein a b ≡ 0) ↔ (a ≡ b))
levenshtein_metric a b =
    let (there, least) = levenshtein_minimal a b in
    let (back, least_back) = levenshtein_minimal b a in
    (
      omega (arith, least _ (Script-sym back), least_back _ (Script-sym there)),
      (free-Script there, λ e. omega (arith, least 0 (subst (λ z. Script a z 0) e (copy a)))),
    )

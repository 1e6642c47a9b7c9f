-- ===== src/Graph/Blast/Distance/Table.antt =====
-- The table of `levenshtein` against the distance by recursion.
use ovecc.Prelude.{
  ℕ, suc, ◌+◌, ◌≡◌, refl, ap, sym, ◌∙◌, subst, List, [], ◌∷◌, min, max, length, get_or, arith,
}
use ovecc.Text.{Text}
use ovecc.Graph.Blast.Distance.{cost, fill, rows, count_up, levenshtein}

-- The cheapest script by recursion on the front of both texts.
unfoldable pub dist : Text → Text → ℕ
dist [] b = length b
dist (x ∷ a) [] = suc (length a)
dist (x ∷ a) (y ∷ b) = min (min (dist a b + cost x y) (dist a (y ∷ b) + 1)) (dist (x ∷ a) b + 1)

pub dist-nil : (a : Text) → dist a [] ≡ length a
unfolding dist
dist-nil [] = refl
dist-nil (x ∷ a) = refl

-- The cells of a row behind the first: the distances of `a` from the extensions of `done` by `b`.
spec_tail : Text → Text → Text → List ℕ
spec_tail a done [] = []
spec_tail a done (c ∷ b) = dist a (c ∷ done) ∷ spec_tail a (c ∷ done) b

fill-spec_tail :
    (x : ℕ) (a done b : Text)
    → fill x b (dist a done ∷ spec_tail a done b) (dist (x ∷ a) done) ≡ spec_tail (x ∷ a) done b
unfolding fill spec_tail dist
fill-spec_tail x a done [] = refl
fill-spec_tail x a done (y ∷ b) =
    ap (λ t. dist (x ∷ a) (y ∷ done) ∷ t) (fill-spec_tail x a (y ∷ done) b)

-- `a` reversed onto `r`.
unfoldable pub rev_onto : Text → Text → Text
rev_onto [] r = r
rev_onto (x ∷ a) r = rev_onto a (x ∷ r)

rows-spec :
    (a ra b : Text)
    → rows (length ra) a b (length ra ∷ spec_tail ra [] b)
      ≡ length (rev_onto a ra) ∷ spec_tail (rev_onto a ra) [] b
unfolding rows rev_onto
rows-spec [] ra b = refl
rows-spec (x ∷ a) ra b =
    ap (λ t. rows (suc (length ra)) a b (suc (length ra) ∷ t)) (row_below x ra b)
    ∙ rows-spec a (x ∷ ra) b
  where
    row_below :
        (x : ℕ) (ra b : Text)
        → fill x b (length ra ∷ spec_tail ra [] b) (suc (length ra)) ≡ spec_tail (x ∷ ra) [] b
    row_below x ra b =
        subst (λ n. fill x b (n ∷ spec_tail ra [] b) (suc (length ra)) ≡ spec_tail (x ∷ ra) [] b)
          (dist-nil ra)
          (subst (λ n. fill x b (dist ra [] ∷ spec_tail ra [] b) n ≡ spec_tail (x ∷ ra) [] b)
            (dist-nil (x ∷ ra)) (fill-spec_tail x ra [] b))

count_up-spec : (done b : Text) → count_up (length done) b ≡ length done ∷ spec_tail [] done b
unfolding count_up spec_tail dist
count_up-spec done [] = refl
count_up-spec done (c ∷ b) = ap (λ t. length done ∷ t) (count_up-spec (c ∷ done) b)

last-spec_tail :
    (a done b : Text)
    → get_or (dist a done ∷ spec_tail a done b) (length b) 0 ≡ dist a (rev_onto b done)
unfolding spec_tail rev_onto
last-spec_tail a done [] = refl
last-spec_tail a done (c ∷ b) = last-spec_tail a (c ∷ done) b

pub length-rev_onto : (a r : Text) → length (rev_onto a r) ≡ length a + length r
unfolding rev_onto
length-rev_onto [] r = omega arith
length-rev_onto (x ∷ a) r = omega (arith, length-rev_onto a (x ∷ r))

table-eq-dist :
    (a b : Text)
    → get_or (rows 0 a b (count_up 0 b)) (length b) 0 ≡ dist (rev_onto a []) (rev_onto b [])
table-eq-dist a b =
    ap (λ r. get_or (rows 0 a b r) (length b) 0) (count_up-spec [] b)
    ∙ ap (λ r. get_or r (length b) 0) (rows-spec a [] b)
    ∙ ap (λ n. get_or (n ∷ spec_tail (rev_onto a []) [] b) (length b) 0)
        (sym (dist-nil (rev_onto a [])))
    ∙ last-spec_tail (rev_onto a []) [] b

pub levenshtein-eq-dist : (a b : Text) → levenshtein a b ≡ dist (rev_onto a []) (rev_onto b [])
unfolding levenshtein
levenshtein-eq-dist [] b = sym (dist_of_empty b)
  where
    dist_of_empty : (b : Text) → dist (rev_onto [] []) (rev_onto b []) ≡ max 0 (length b)
    dist_of_empty b = unfold dist in unfold rev_onto in omega (arith, length-rev_onto b [])
levenshtein-eq-dist (x ∷ a) [] =
    unfold rev_onto in omega (arith, dist-nil (rev_onto (x ∷ a) []), length-rev_onto a (x ∷ []))
levenshtein-eq-dist (x ∷ a) (y ∷ b) = table-eq-dist (x ∷ a) (y ∷ b)

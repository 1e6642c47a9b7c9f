-- ===== src/Core/Architecture/Assign/Contest.antt =====
-- The loop over the candidates in `assign_components` of architecture.rs: it keeps a most specific
-- candidate, and a rival of another component exactly if there is one as specific.
use ovecc.Prelude.{
  ◌≡◌, ◌≢◌, ◌↔◌, ◌⊎◌, inl, inr, ⊎_elim, refl, sym, ◌∙◌, subst, Bool, true, false, Option, none,
  some, List, [], ◌∷◌, Elem, arith, list_eqb, list_eqb_iff, nat_eq, nat_ord, pair_cmp, pair_cmp_eq,
  Bool-cases, Ordering-cases, IsPreorder, by_key, by_key-IsPreorder, pair_ord,
}
use Prim.Native.Nat.{Ordering}
use ovecc.Text.{Text}
use ovecc.Core.Architecture.Assign.{Candidate, Claim, challenge, consider, claim_of, unclaimed}

module _ {Matcher : Type 0} (is_match : Matcher → Text → Bool) (path : Text) where
  abbrev pub Matches : Candidate Matcher → Type 0
  Matches c = is_match c.matcher path ≡ true

  -- The first is not more specific than the second; and if it is as specific, it is of the same
  -- component.
  abbrev pub Below : Candidate Matcher → Candidate Matcher → Type 0
  Below c b = pair_cmp c.specificity b.specificity ≢ Ordering.gt

  abbrev pub Level : Candidate Matcher → Candidate Matcher → Type 0
  Level c b = pair_cmp c.specificity b.specificity ≡ Ordering.eq

  order : IsPreorder (by_key (λ (c : Candidate Matcher). c.specificity))
  order = by_key-IsPreorder (λ c. c.specificity)

  Level-self : (c : Candidate Matcher) → Level c c
  Level-self c = (pair_cmp_eq c.specificity c.specificity).1 refl

  -- What `best` and `contested` say of the candidates that were considered.
  abbrev pub BestOf : (Candidate Matcher → Type 0) → Option (Candidate Matcher) → Type 0
  BestOf S none = (c : Candidate Matcher) → S c → ¬ Matches c
  BestOf S (some b) = S b × Matches b × ((c : Candidate Matcher) → S c → Matches c → Below c b)

  abbrev pub RivalOf :
      (Candidate Matcher → Type 0)
      → Option (Candidate Matcher)
      → Option (Candidate Matcher)
      → Type 0
  RivalOf S none k = k ≡ none
  RivalOf S (some b) none =
      (c : Candidate Matcher) → S c → Matches c → Level c b → c.component ≡ b.component
  RivalOf S (some b) (some k) = S k × Matches k × Level k b × (k.component ≢ b.component)

  pub record Judged (S : Candidate Matcher → Type 0) (claim : Claim Matcher) : Type 0 where
    pub best_of : BestOf S claim.best
    pub rival_of : RivalOf S claim.best claim.contested

  abbrev With : (Candidate Matcher → Type 0) → Candidate Matcher → Candidate Matcher → Type 0
  With S c d = (d ≡ c) ⊎ S d

  abbrev claim_with : Option (Candidate Matcher) → Option (Candidate Matcher) → Claim Matcher
  claim_with b k = record { best = b; contested = k }

  -- To show something of every candidate considered so far, and of one more.
  also :
      {S P : Candidate Matcher → Type 0} (c : Candidate Matcher)
      → P c
      → ((d : Candidate Matcher) → S d → P d)
      → (d : Candidate Matcher) → With S c d
      → P d
  also {P = P} c here rest d m = ⊎_elim (λ e. subst P (sym e) here) (rest d) m

  -- A candidate that is no better than the best leaves it in place.
  best_stays :
      (S : Candidate Matcher → Type 0) (c b : Candidate Matcher)
      → (Matches c → Below c b)
      → BestOf S (some b)
      → BestOf (With S c) (some b)
  best_stays S c b low h = (inr h.0, h.1, also {P = λ d. Matches d → Below d b} c low h.2)

  -- The rival stays if the candidate is none.
  rival_stays :
      (S : Candidate Matcher → Type 0) (c b : Candidate Matcher) (k : Option (Candidate Matcher))
      → (Matches c → Level c b → c.component ≡ b.component)
      → RivalOf S (some b) k
      → RivalOf (With S c) (some b) k
  rival_stays S c b none same h =
      also {P = λ d. Matches d → Level d b → d.component ≡ b.component} c same h
  rival_stays S c b (some k) same h = (inr h.0, h.1, h.2, h.3)

  -- A candidate that does not match changes nothing.
  Judged-skip :
      (S : Candidate Matcher → Type 0) (c : Candidate Matcher) (b k : Option (Candidate Matcher))
      → is_match c.matcher path ≡ false
      → Judged S (claim_with b k)
      → Judged (With S c) (claim_with b k)
  Judged-skip S c none k out h = record {
    best_of = also {P = λ d. ¬ Matches d} c (λ hit. cc) h.best_of;
    rival_of = h.rival_of;
  }
  Judged-skip S c (some b) k out h = record {
    best_of = best_stays S c b (λ hit. cc) h.best_of;
    rival_of = rival_stays S c b k (λ hit. cc) h.rival_of;
  }

  -- A first match.
  Judged-first :
      (S : Candidate Matcher → Type 0) (c : Candidate Matcher)
      → is_match c.matcher path ≡ true
      → Judged S (claim_with none none)
      → Judged (With S c) (claim_with (some c) none)
  Judged-first S c hit h = record {
    best_of = (
      inl refl,
      hit,
      also {P = λ d. Matches d → Below d c} c (λ m. cc (Level-self c))
          (λ d s m. absurd (h.best_of d s m)),
    );
    rival_of =
        also {P = λ d. Matches d → Level d c → d.component ≡ c.component} c (λ m l. refl)
          (λ d s m. absurd (h.best_of d s m));
  }

  -- A match that is more specific than the best.
  Judged-above :
      (S : Candidate Matcher → Type 0) (c b : Candidate Matcher) (k : Option (Candidate Matcher))
      → is_match c.matcher path ≡ true
      → pair_cmp c.specificity b.specificity ≡ Ordering.gt
      → Judged S (claim_with (some b) k)
      → Judged (With S c) (claim_with (some c) none)
  Judged-above S c b k hit above h = record {
    best_of = (
      inl refl,
      hit,
      also {P = λ d. Matches d → Below d c} c (λ m g. cc (Level-self c))
          (λ d s m. order.trans d b c (h.best_of.2 d s m) (λ g. cc (order.flips c b))),
    );
    rival_of =
        also {P = λ d. Matches d → Level d c → d.component ≡ c.component} c (λ m l. refl)
          (λ d s m l. absurd (h.best_of.2 d s m (order.same_left d c b l ∙ above)));
  }

  -- A match as specific as the best, of another component.
  Judged-contest :
      (S : Candidate Matcher → Type 0) (c b : Candidate Matcher) (k : Option (Candidate Matcher))
      → is_match c.matcher path ≡ true
      → Level c b
      → c.component ≢ b.component
      → Judged S (claim_with (some b) k)
      → Judged (With S c) (claim_with (some b) (some c))
  Judged-contest S c b k hit level other h = record {
    best_of = best_stays S c b (λ m g. cc) h.best_of;
    rival_of = (inl refl, hit, level, other);
  }

  Judged-challenge :
      (S : Candidate Matcher → Type 0) (c b : Candidate Matcher) (k : Option (Candidate Matcher))
      → is_match c.matcher path ≡ true
      → Judged S (claim_with (some b) k)
      → Judged (With S c) (challenge is_match (claim_with (some b) k) b c)
  unfolding challenge
  Judged-challenge S c b k hit h = elim (Ordering-cases (pair_cmp c.specificity b.specificity)) [
    | inl low ↦
        rw (low, challenge)
          (record {
            best_of = best_stays S c b (λ m g. cc) h.best_of;
            rival_of = rival_stays S c b k (λ m l. cc) h.rival_of;
          })
    | inr (inr above) ↦ rw (above, challenge) (Judged-above S c b k hit above h)
    | inr (inl level) ↦ elim (Bool-cases (list_eqb c.component b.component)) [
      | inl same ↦
          let e = (list_eqb_iff c.component b.component).0 same in
          rw (level, same, challenge)
            (record {
              best_of = best_stays S c b (λ m g. cc) h.best_of;
              rival_of = rival_stays S c b k (λ m l. e) h.rival_of;
            })
      | inr other ↦
          rw (level, other, challenge)
            (Judged-contest S c b k hit level (λ e. cc ((list_eqb_iff c.component b.component).1 e))
              h)
    ]
  ]

  Judged-consider :
      (S : Candidate Matcher → Type 0) (c : Candidate Matcher) (b k : Option (Candidate Matcher))
      → Judged S (claim_with b k)
      → Judged (With S c) (consider is_match path (claim_with b k) c)
  unfolding consider
  Judged-consider S c none (some k) h = absurd (cc (h.rival_of))
  Judged-consider S c none none h = elim (Bool-cases (is_match c.matcher path)) [
    | inr out ↦ rw out (Judged-skip S c none none out h)
    | inl hit ↦ rw hit (Judged-first S c hit h)
  ]
  Judged-consider S c (some b) k h = elim (Bool-cases (is_match c.matcher path)) [
    | inr out ↦ rw out (Judged-skip S c (some b) k out h)
    | inl hit ↦ rw hit (Judged-challenge S c b k hit h)
  ]

  -- The same candidates in other words.
  BestOf-iff :
      (S T : Candidate Matcher → Type 0) (b : Option (Candidate Matcher))
      → ((c : Candidate Matcher) → S c ↔ T c)
      → BestOf S b
      → BestOf T b
  BestOf-iff S T none law h = λ c s. h c ((law c).1 s)
  BestOf-iff S T (some b) law h = ((law b).0 h.0, h.1, λ c s. h.2 c ((law c).1 s))

  RivalOf-iff :
      (S T : Candidate Matcher → Type 0) (b k : Option (Candidate Matcher))
      → ((c : Candidate Matcher) → S c ↔ T c)
      → RivalOf S b k
      → RivalOf T b k
  RivalOf-iff S T none k law h = h
  RivalOf-iff S T (some b) none law h = λ c s. h c ((law c).1 s)
  RivalOf-iff S T (some b) (some k) law h = ((law k).0 h.0, h.1, h.2, h.3)

  pub Judged-iff :
      (S T : Candidate Matcher → Type 0) (claim : Claim Matcher)
      → ((c : Candidate Matcher) → S c ↔ T c)
      → Judged S claim
      → Judged T claim
  Judged-iff S T claim law h = record {
    best_of = BestOf-iff S T claim.best law h.best_of;
    rival_of = RivalOf-iff S T claim.best claim.contested law h.rival_of;
  }

  pub claim_of-Judged :
      (S : Candidate Matcher → Type 0) (b k : Option (Candidate Matcher))
      (cs : List (Candidate Matcher))
      → Judged S (claim_with b k)
      → Judged (λ c. Elem c cs ⊎ S c) (claim_of is_match path (claim_with b k) cs)
  unfolding claim_of
  claim_of-Judged S b k [] h =
      Judged-iff S _ (claim_with b k) (λ c. (inr, ⊎_elim (λ x. absurd x) (λ m. m))) h
  claim_of-Judged S b k (c ∷ cs) h =
      let next = consider is_match path (claim_with b k) c in
      Judged-iff _ _ (claim_of is_match path next cs) (λ d. ground arith)
        (claim_of-Judged (With S c) next.best next.contested cs (Judged-consider S c b k h))

  -- The loop from its start on.
  pub claim_of_lem :
      (cs : List (Candidate Matcher))
      → Judged (λ c. Elem c cs) (claim_of is_match path unclaimed cs)
  claim_of_lem cs =
      Judged-iff _ _ (claim_of is_match path unclaimed cs) (λ c. ground arith)
        (claim_of-Judged (λ c. ⊥) none none cs (record { best_of = λ c s m. s; rival_of = refl }))

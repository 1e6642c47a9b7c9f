-- ===== src/Core/Architecture/Assign/Ownership.antt =====
-- `assign_components` of architecture.rs: each file goes to the component of its most specific
-- glob, and an error names a glob that does not compile or a tie between two components.
use ovecc.Prelude.{
  ◌≡◌, ◌≢◌, ◌↔◌, ◌⊎◌, inl, inr, ⊎_elim, refl, sym, subst, ◌∙◌, Bool, Option, none, some, List, [],
  ◌∷◌, Elem, arith, ok, err, ◌>>=◌, Result-cases, Bool-cases, lookup, map_insert, lookup-map_insert,
  list_eqb, list_eqb_iff, list_eq, nat_eq, nat_ord, list_ord,
}
use ovecc.Text.{Text}
use ovecc.Core.Architecture.{slashed}
use ovecc.Core.Architecture.Validate.{ContractError, Checked, contested_file}
use ovecc.Core.Architecture.Assign.{Candidate, claim_of, unclaimed, settle, assign_files}
use ovecc.Core.Architecture.Assign.Contest.{Matches, Below, Level, Judged, Judged-iff, claim_of_lem}

module _ {Matcher : Type 0} (is_match : Matcher → Text → Bool)
    (S : Candidate Matcher → Type 0) where
  -- The candidate matches the file, and none that does is more specific.
  pub record Leads (file : Text) (b : Candidate Matcher) : Type 0 where
    pub offered : S b
    pub matching : Matches is_match (slashed file) b
    pub most :
        (c : Candidate Matcher)
        → S c
        → Matches is_match (slashed file) c
        → Below is_match (slashed file) c b

  -- A leading candidate is of the component, and so is every one that is as specific.
  abbrev pub Owns : Text → Text → Type 0
  Owns file component =
      (b : Candidate Matcher) × Leads file b
      × (b.component ≡ component)
      × ((c : Candidate Matcher)
          → S c
          → Matches is_match (slashed file) c
          → Level is_match (slashed file) c b
          → c.component ≡ component)

  abbrev pub Unowned : Text → Type 0
  Unowned file = (c : Candidate Matcher) → S c → ¬ Matches is_match (slashed file) c

  -- A candidate of another component is as specific as the leading one.
  abbrev pub Tied : Text → ContractError → Type 0
  Tied file e =
      (b : Candidate Matcher) × (k : Candidate Matcher) × Leads file b
      × S k
      × Matches is_match (slashed file) k
      × Level is_match (slashed file) k b
      × (k.component ≢ b.component)
      × (e ≡ contested_file (slashed file) b.component b.pattern k.component k.pattern)

  abbrev Settled : Text → List (Text × Text) → Checked (List (Text × Text)) → Type 0
  Settled file m (ok next) =
      (next ≡ m) × Unowned file
      ⊎ ((component : Text) × Owns file component × (next ≡ map_insert file component m))
  Settled file m (err e) = Tied file e

  settle-Settled :
      (file : Text) (b k : Option (Candidate Matcher)) (m : List (Text × Text))
      → Judged is_match (slashed file) S (record { best = b; contested = k })
      → Settled file m (settle is_match file (slashed file) (record { best = b; contested = k }) m)
  unfolding settle
  settle-Settled file none k m h = inl (refl, h.best_of)
  settle-Settled file (some b) none m h = inr (
    b.component,
    (
      b,
      record { offered = h.best_of.0; matching = h.best_of.1; most = h.best_of.2 },
      refl,
      h.rival_of,
    ),
    refl,
  )
  settle-Settled file (some b) (some k) m h = (
    b,
    k,
    record { offered = h.best_of.0; matching = h.best_of.1; most = h.best_of.2 },
    h.rival_of.0,
    h.rival_of.1,
    h.rival_of.2,
    h.rival_of.3,
    refl,
  )

  Settled-by :
      (candidates : List (Candidate Matcher)) (file : Text) (m : List (Text × Text))
      → ((c : Candidate Matcher) → Elem c candidates ↔ S c)
      → Settled file m (
          settle is_match file
            (slashed file)
            (claim_of is_match (slashed file) unclaimed candidates)
            m)
  Settled-by candidates file m law =
      let claim = claim_of is_match (slashed file) unclaimed candidates in
      settle-Settled file claim.best claim.contested m (
        Judged-iff is_match (slashed file) (λ c. Elem c candidates) S claim law
          (claim_of_lem is_match (slashed file) candidates))

  -- What the loop over the files adds to the assignment `m`.
  pub record Added (files : List Text) (m out : List (Text × Text)) : Type 0 where
    pub owned :
        (file component : Text)
        → lookup file out ≡ some component
        → (lookup file m ≡ some component) ⊎ Elem file files × Owns file component
    pub unowned : (file : Text) → Elem file files → lookup file out ≡ none → Unowned file
    pub kept : (file : Text) → lookup file out ≡ none → lookup file m ≡ none

  Added-nil : (m : List (Text × Text)) → Added [] m m
  Added-nil m = record { owned = λ f c h. inl h; unowned = λ f e h. absurd e; kept = λ f h. h }

  Added-skip :
      (file : Text) (files : List Text) (m out : List (Text × Text))
      → Unowned file
      → Added files m out
      → Added (file ∷ files) m out
  Added-skip file files m out free h = record {
    owned = λ f c e. ⊎_elim inl (λ (m, o). inr (inr m, o)) (h.owned f c e);
    unowned = λ f e n. ⊎_elim (λ same. subst Unowned (sym same) free) (λ m. h.unowned f m n) e;
    kept = h.kept;
  }

  -- A lookup after an insertion, by cases.
  inserted :
      (file component f : Text) (m : List (Text × Text))
      → (f ≡ file) × (lookup f (map_insert file component m) ≡ some component)
        ⊎ (lookup f (map_insert file component m) ≡ lookup f m)
  inserted file component f m = elim (Bool-cases (list_eqb f file)) [
    | inl same ↦
        inl ((list_eqb_iff f file).0 same, lookup-map_insert file f component m ∙ rw same refl)
    | inr other ↦ inr (lookup-map_insert file f component m ∙ rw other refl)
  ]

  clash :
      (file component f : Text) (m : List (Text × Text))
      → f ≡ file
      → lookup f (map_insert file component m) ≢ none
  clash file component f m same n =
      ground (arith, list_eqb_iff f file, lookup-map_insert file f component m)

  Added-insert :
      (file component : Text) (files : List Text) (m out : List (Text × Text))
      → Owns file component
      → Added files (map_insert file component m) out
      → Added (file ∷ files) m out
  Added-insert file component files m out own h = record {
    owned = λ f c e.
        ⊎_elim
          (λ k.
            ⊎_elim
              (λ (same, l).
                let e : component ≡ c = cc in
                inr (inl same, subst (λ x. Owns x c) (sym same) (subst (Owns file) e own)))
              (λ l. inl (sym l ∙ k)) (inserted file component f m))
          (λ (k, o). inr (inr k, o)) (h.owned f c e);
    unowned = λ f e n.
        ⊎_elim
          (λ same.
            ⊎_elim (λ (s, l). cc (h.kept f n))
              (λ l. absurd (clash file component f m same (h.kept f n)))
              (inserted file component f m))
          (λ k. h.unowned f k n) e;
    kept = λ f n.
        ⊎_elim (λ (s, l). cc (h.kept f n)) (λ l. sym l ∙ h.kept f n) (inserted file component f m);
  }

  pub assign_files-Added :
      (candidates : List (Candidate Matcher)) (m out : List (Text × Text)) (files : List Text)
      → ((c : Candidate Matcher) → Elem c candidates ↔ S c)
      → assign_files is_match candidates m files ≡ ok out
      → Added files m out
  unfolding assign_files
  assign_files-Added candidates m out [] law h = subst (Added [] m) (cc) (Added-nil m)
  assign_files-Added candidates m out (file ∷ files) law h =
      elim (Result-cases (
        settle is_match file (slashed file) (claim_of is_match (slashed file) unclaimed candidates)
          m)) [
            | inr (e, bad) ↦ cc (rw (bad, ◌>>=◌) at h)
            | inl (next, good) ↦
                let rest =
                  assign_files-Added candidates next out files law (rw (good, ◌>>=◌) at h) in
                ⊎_elim
                  (λ (same, free).
                    Added-skip file files m out free (subst (λ l. Added files l out) same rest))
                  (λ (component, own, same).
                    Added-insert file component files m out own
                      (subst (λ l. Added files l out) same rest))
                  (subst (Settled file m) good (Settled-by candidates file m law))
          ]

  pub assign_files-Tied :
      (candidates : List (Candidate Matcher)) (m : List (Text × Text)) (files : List Text)
      (e : ContractError)
      → ((c : Candidate Matcher) → Elem c candidates ↔ S c)
      → assign_files is_match candidates m files ≡ err e
      → (file : Text) × Elem file files × Tied file e
  unfolding assign_files
  assign_files-Tied candidates m [] e law h = cc
  assign_files-Tied candidates m (file ∷ files) e law h =
      elim (Result-cases (
        settle is_match file (slashed file) (claim_of is_match (slashed file) unclaimed candidates)
          m)) [
            | inr (other, bad) ↦
                let same : other ≡ e = cc (rw (bad, ◌>>=◌) at h) in
                (
                  file,
                  inl refl,
                  subst (Tied file) same
                      (subst (Settled file m) bad (Settled-by candidates file m law)),
                )
            | inl (next, good) ↦
                let (f, k, tie) =
                  assign_files-Tied candidates next files e law (rw (good, ◌>>=◌) at h) in
                (f, inr k, tie)
          ]

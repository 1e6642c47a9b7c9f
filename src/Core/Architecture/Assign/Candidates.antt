-- ===== src/Core/Architecture/Assign/Candidates.antt =====
-- The candidates that `assign_components` of architecture.rs collects: one for each glob of each
-- component.
use ovecc.Prelude.{
  ◌≡◌, ◌↔◌, ◌⊎◌, inl, inr, ⊎_elim, refl, sym, ap, subst, ◌∙◌, Option, none, some, List, [], ◌∷◌,
  ◌++◌, Elem, Elem-append, arith, ok, err, ◌>>=◌, Result-cases, Option-cases,
}
use ovecc.Text.{Text}
use ovecc.Core.Architecture.{ComponentSpec}
use ovecc.Core.Architecture.Validate.{ContractError, unreadable_glob}
use ovecc.Core.Architecture.Assign.{Candidate, specificity_of, candidates_from, all_candidates}

module _ {Matcher : Type 0} (compile_glob : Text → Option Matcher) where
  -- The candidate of one glob of a component.
  pub record Offer (component : Text) (patterns : List Text) (d : Candidate Matcher) : Type 0 where
    pub named : d.component ≡ component
    pub listed : Elem d.pattern patterns
    pub compiled : compile_glob d.pattern ≡ some d.matcher
    pub specific : d.specificity ≡ specificity_of d.pattern

  abbrev made : Text → Text → Matcher → Candidate Matcher
  made component pattern matcher = record {
    component = component;
    matcher = matcher;
    specificity = specificity_of pattern;
    pattern = pattern;
  }

  Offer-cons :
      (component pattern : Text) (patterns : List Text) (matcher : Matcher) (d : Candidate Matcher)
      → compile_glob pattern ≡ some matcher
      → Offer component (pattern ∷ patterns) d
        ↔ ((d ≡ made component pattern matcher) ⊎ Offer component patterns d)
  Offer-cons component pattern patterns matcher d readable = (
    λ h.
        ⊎_elim
          (λ e.
            let same : matcher ≡ d.matcher = cc (ap compile_glob e, h.compiled, readable) in
            let specific : d.specificity ≡ specificity_of pattern =
              h.specific ∙ ap specificity_of e in
            inl (λ i. record {
              component = h.named i;
              matcher = sym same i;
              specificity = specific i;
              pattern = e i;
            }))
          (λ m.
            inr (record {
              named = h.named;
              listed = m;
              compiled = h.compiled;
              specific = h.specific;
            }))
          h.listed,
    ⊎_elim
        (λ e.
          subst (Offer component (pattern ∷ patterns)) (sym e)
            (record { named = refl; listed = inl refl; compiled = readable; specific = refl }))
        (λ h. record {
          named = h.named;
          listed = inr h.listed;
          compiled = h.compiled;
          specific = h.specific;
        }),
  )

  candidates_from-ok :
      (component : Text) (before out : List (Candidate Matcher)) (patterns : List Text)
      → candidates_from compile_glob component before patterns ≡ ok out
      → (d : Candidate Matcher) → Elem d out ↔ (Elem d before ⊎ Offer component patterns d)
  unfolding candidates_from
  candidates_from-ok component before out [] h d =
      let e : before ≡ out = cc in
      (
        λ m. inl (subst (λ l. Elem d l) (sym e) m),
        ⊎_elim (λ m. subst (λ l. Elem d l) e m) (λ o. absurd o.listed),
      )
  candidates_from-ok component before out (p ∷ ps) h d = elim (Option-cases (compile_glob p)) [
    | inl missing ↦ cc (rw (missing, candidates_from) at h)
    | inr (matcher, readable) ↦
        let one = made component p matcher in
        let rest =
          candidates_from-ok component (before ++ one ∷ []) out ps
            (rw (readable, candidates_from) at h) d in
        ground (
          arith,
          rest,
          Elem-append d before (one ∷ []),
          Offer-cons component p ps matcher d readable,
        )
  ]

  -- A glob that does not compile.
  abbrev pub Unreadable : List Text → ContractError → Type 0
  Unreadable patterns e =
      (p : Text) × Elem p patterns × (compile_glob p ≡ none) × (e ≡ unreadable_glob p)

  candidates_from-err :
      (component : Text) (before : List (Candidate Matcher)) (patterns : List Text)
      (e : ContractError)
      → candidates_from compile_glob component before patterns ≡ err e
      → Unreadable patterns e
  unfolding candidates_from
  candidates_from-err component before [] e h = cc
  candidates_from-err component before (p ∷ ps) e h = elim (Option-cases (compile_glob p)) [
    | inl missing ↦
        let k : err (unreadable_glob p) ≡ err e = rw (missing, candidates_from) at h in
        (p, inl refl, missing, cc)
    | inr (matcher, readable) ↦
        let (q, m, miss, same) =
          candidates_from-err component (before ++ made component p matcher ∷ []) ps e
            (rw (readable, candidates_from) at h) in
        (q, inr m, miss, same)
  ]

module _ {F Matcher : Type 0} (compile_glob : Text → Option Matcher) where
  -- The candidate of one glob of one of the components.
  abbrev pub Offers : List (ComponentSpec F) → Candidate Matcher → Type 0
  Offers [] d = ⊥
  Offers (c ∷ cs) d = Offer compile_glob c.name c.paths d ⊎ Offers cs d

  pub all_candidates-ok :
      (before out : List (Candidate Matcher)) (cs : List (ComponentSpec F))
      → all_candidates compile_glob before cs ≡ ok out
      → (d : Candidate Matcher) → Elem d out ↔ (Elem d before ⊎ Offers cs d)
  unfolding all_candidates
  all_candidates-ok before out [] h d =
      let e : before ≡ out = cc in
      (
        λ m. inl (subst (λ l. Elem d l) (sym e) m),
        ⊎_elim (λ m. subst (λ l. Elem d l) e m) (λ o. absurd o),
      )
  all_candidates-ok before out (c ∷ cs) h d =
      elim (Result-cases (candidates_from compile_glob c.name before c.paths)) [
        | inl (next, good) ↦
            let rest = all_candidates-ok next out cs (rw (good, ◌>>=◌) at h) d in
            ground (arith, rest, candidates_from-ok compile_glob c.name before next c.paths good d)
        | inr (e, bad) ↦ cc (rw (bad, ◌>>=◌) at h)
      ]

  pub all_candidates-err :
      (before : List (Candidate Matcher)) (cs : List (ComponentSpec F)) (e : ContractError)
      → all_candidates compile_glob before cs ≡ err e
      → (c : ComponentSpec F) × Elem c cs × Unreadable compile_glob c.paths e
  unfolding all_candidates
  all_candidates-err before [] e h = cc
  all_candidates-err before (c ∷ cs) e h =
      elim (Result-cases (candidates_from compile_glob c.name before c.paths)) [
        | inl (next, good) ↦
            let (b, m, u) = all_candidates-err next cs e (rw (good, ◌>>=◌) at h) in (b, inr m, u)
        | inr (other, bad) ↦
            let same : other ≡ e = cc (rw (bad, ◌>>=◌) at h) in
            (
              c,
              inl refl,
              candidates_from-err compile_glob c.name before c.paths e (bad ∙ ap err same),
            )
      ]

-- ===== src/Rules/Contract/Required/Importers.antt =====
-- `classify_required` of contract.rs: what the map of importers holds after the loop over the
-- dependencies, and what the map of requirements holds.
use ovecc.Prelude.{
  ◌≡◌, ◌≢◌, ◌↔◌, ◌⊎◌, inl, inr, ⊎_elim, refl, sym, ◌∙◌, subst, Option, none, some, List, [], ◌∷◌,
  arith, Elem, map_entry, list_ord, nat_ord, list_eq, nat_eq, lookup, lookup-map_entry,
  lookup-map_entry_other, Ascending, Ascending-map_entry, value_or, Bool-cases, Elem-set_insert,
  list_eqb, list_eqb_iff,
}
use ovecc.Text.{Text}
use ovecc.Core.Legacy.{DependencyRecord}
use ovecc.Rules.Contract.Requirements.{importers_from, reached, note}

-- The dependency leads to a file of the component.
abbrev pub Hits : List (Text × Text) → DependencyRecord → Text → Type 0
Hits component_of d name =
    (path : Text) × (d.target_file_path ≡ some path) × (lookup path component_of ≡ some name)

-- The map has the file, with the name among its values.
abbrev pub Names : List (Text × List Text) → Text → Text → Type 0
Names m file name = (reached : List Text) × (lookup file m ≡ some reached) × Elem name reached

abbrev pub Present : {V : Type 0} → List (Text × V) → Text → Type 0
Present {V} m file = (reached : V) × (lookup file m ≡ some reached)

Elem-note :
    (o : Option Text) (t : Text) (names : List Text)
    → Elem t (note o names) ↔ ((o ≡ some t) ⊎ Elem t names)
Elem-note none t names = ground arith
Elem-note (some name) t names = ground (arith, Elem-set_insert name t names)

Elem-value_or :
    (o : Option (List Text)) (t : Text)
    → Elem t (value_or [] o) ↔ ((r : List Text) × (o ≡ some r) × Elem t r)
Elem-value_or none t = (λ m. absurd m, λ (r, e, m). cc)
Elem-value_or (some r) t =
    (λ m. (r, refl, m), λ (s, e, m). let same : s ≡ r = cc in subst (Elem t) same m)

module _ (m : List (Text × List Text)) (up : Ascending m) (source : Text) (o : Option Text) where
  abbrev noted : List (Text × List Text)
  noted = map_entry source [] (note o) m

  abbrev here : List Text
  here = note o (value_or [] (lookup source m))

  Present-note : (file : Text) → Present noted file ↔ ((source ≡ file) ⊎ Present m file)
  Present-note file = elim (Bool-cases (list_eqb source file)) [
    | inl e ↦
        let same = (list_eqb_iff source file).0 e in
        (
          λ h. inl same,
          λ h. subst (Present noted) same (here, lookup-map_entry source [] (note o) m up),
        )
    | inr e ↦
        let apart : file ≢ source = λ s. cc ((list_eqb_iff source file).1 (sym s)) in
        let kept = lookup-map_entry_other source file [] (note o) m apart in
        (
          λ h. inr (h.0, sym kept ∙ h.1),
          ⊎_elim (λ s. absurd (apart (sym s))) (λ h. (h.0, kept ∙ h.1)),
        )
  ]

  Names-here : (t : Text) → Names noted source t ↔ ((o ≡ some t) ⊎ Names m source t)
  Names-here t =
      let found = lookup-map_entry source [] (note o) m up in
      (
        λ (r, e, k).
            let same : r ≡ here = cc in
            ⊎_elim inl (λ old. inr ((Elem-value_or (lookup source m) t).0 old))
              ((Elem-note o t _).0 (subst (Elem t) same k)),
        λ h. (
          here,
          found,
          (Elem-note o t _).1
              (⊎_elim inl (λ old. inr ((Elem-value_or (lookup source m) t).1 old)) h),
        ),
      )

  Names-note :
      (file t : Text) → Names noted file t ↔ ((source ≡ file) × (o ≡ some t) ⊎ Names m file t)
  Names-note file t = elim (Bool-cases (list_eqb source file)) [
    | inl e ↦
        let same = (list_eqb_iff source file).0 e in
        (
          λ h.
              ⊎_elim (λ k. inl (same, k)) (λ k. inr (subst (λ f. Names m f t) same k))
                ((Names-here t).0 (subst (λ f. Names noted f t) (sym same) h)),
          λ h.
              subst (λ f. Names noted f t) same
                ((Names-here t).1
                  (⊎_elim (λ k. inl k.1) (λ k. inr (subst (λ f. Names m f t) (sym same) k)) h)),
        )
    | inr e ↦
        let apart : file ≢ source = λ s. cc ((list_eqb_iff source file).1 (sym s)) in
        let kept = lookup-map_entry_other source file [] (note o) m apart in
        (
          λ (r, found, k). inr (r, sym kept ∙ found, k),
          ⊎_elim (λ s. absurd (apart (sym s.0))) (λ (r, found, k). (r, kept ∙ found, k)),
        )
  ]

module _ (component_of : List (Text × Text)) where
  Hits-reached :
      (target : Option Text) (t : Text)
      → (reached component_of target ≡ some t)
        ↔ ((path : Text) × (target ≡ some path) × (lookup path component_of ≡ some t))
  Hits-reached none t = (λ e. cc, λ (path, e, k). cc)
  Hits-reached (some path) t = (
    λ e. (path, refl, e),
    λ (other, e, k).
        let same : other ≡ path = cc in subst (λ p. lookup p component_of ≡ some t) same k,
  )

  pub importers-Present :
      (m : List (Text × List Text)) (ds : List DependencyRecord) (file : Text)
      → Ascending m
      → Present (importers_from component_of m ds) file
        ↔ (((d : DependencyRecord) × Elem d ds × (d.source_file_path ≡ file)) ⊎ Present m file)
  importers-Present m [] file up = (inr, ⊎_elim (λ (d, k, e). absurd k) (λ h. h))
  importers-Present m (d ∷ ds) file up =
      let o = reached component_of d.target_file_path in
      let next = noted m up d.source_file_path o in
      let rest =
        importers-Present next ds file (Ascending-map_entry d.source_file_path [] (note o) m up) in
      let step = Present-note m up d.source_file_path o file in
      (
        λ h.
            ⊎_elim (λ (other, k, e). inl (other, inr k, e))
              (λ h. ⊎_elim (λ e. inl (d, inl refl, e)) inr (step.0 h)) (rest.0 h),
        ⊎_elim
            (λ (other, k, e).
              ⊎_elim (λ same. rest.1 (inr (step.1 (inl (cc))))) (λ k. rest.1 (inl (other, k, e))) k)
            (λ h. rest.1 (inr (step.1 (inr h)))),
      )

  pub importers-Names :
      (m : List (Text × List Text)) (ds : List DependencyRecord) (file t : Text)
      → Ascending m
      → Names (importers_from component_of m ds) file t ↔ (
          ((d : DependencyRecord) × Elem d ds × (d.source_file_path ≡ file) × Hits component_of d t)
          ⊎ Names m file t)
  importers-Names m [] file t up = (inr, ⊎_elim (λ (d, k, e, w). absurd k) (λ h. h))
  importers-Names m (d ∷ ds) file t up =
      let o = reached component_of d.target_file_path in
      let next = noted m up d.source_file_path o in
      let rest =
        importers-Names next ds file t (Ascending-map_entry d.source_file_path [] (note o) m up) in
      let step = Names-note m up d.source_file_path o file t in
      let hits = Hits-reached d.target_file_path t in
      (
        λ h.
            ⊎_elim (λ (other, k, e, w). inl (other, inr k, e, w))
              (λ h. ⊎_elim (λ (e, r). inl (d, inl refl, e, hits.0 r)) inr (step.0 h)) (rest.0 h),
        ⊎_elim
            (λ (other, k, e, w).
              ⊎_elim
                (λ same.
                  rest.1
                    (inr (step.1 (inl (cc, hits.1 (subst (λ b. Hits component_of b t) same w))))))
                (λ k. rest.1 (inl (other, k, e, w))) k)
            (λ h. rest.1 (inr (step.1 (inr h)))),
      )

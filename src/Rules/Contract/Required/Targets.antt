-- ===== src/Rules/Contract/Required/Targets.antt =====
-- `classify_required` of contract.rs: the map of requirements, and the loops that report files.
use ovecc.Prelude.{
  ◌≡◌, ◌↔◌, ◌⊎◌, inl, inr, ⊎_elim, refl, sym, ap, ◌∙◌, subst, Option, none, some, List, [], ◌∷◌,
  Elem, Holds, Holds-push_group, push_group, map_insert, lookup-map_insert, list_ord, nat_ord,
  pair_ord, list_eq, nat_eq, list_eqb, list_eqb_iff, lookup, contains, contains_iff, Bool-cases,
}
use ovecc.Text.{Text}
use ovecc.Core.Architecture.{ComponentSpec}
use ovecc.Rules.Contract.{Pair}
use ovecc.Rules.Contract.Requirements.{
  require_targets, require_file, require_files, requirements_from,
}
use ovecc.Rules.Contract.Required.Importers.{Present}

Present-map_insert :
    (m : List (Text × List Text)) (k name : Text) (v : List Text)
    → Present (map_insert k v m) name ↔ ((k ≡ name) ⊎ Present m name)
Present-map_insert m k name v = elim (Bool-cases (list_eqb name k)) [
  | inl same ↦ (
    λ h. inl (sym ((list_eqb_iff name k).0 same)),
    λ h. (v, rw (lookup-map_insert k name v m, same) refl),
  )
  | inr apart ↦
      let kept : lookup name (map_insert k v m) ≡ lookup name m =
        rw (lookup-map_insert k name v m, apart) refl in
      (
        λ h. inr (h.0, sym kept ∙ h.1),
        ⊎_elim (λ e. cc ((list_eqb_iff name k).1 (sym e))) (λ h. (h.0, kept ∙ h.1)),
      )
]

module _ {F : Type 0} where
  abbrev Given : List (ComponentSpec F) → Text → List Text → Type 0
  Given cs name targets =
      (c : ComponentSpec F) × Elem c cs × (c.name ≡ name) × (c.must_depend_on ≡ targets)

  -- What the map has is the requirement of some component of that name.
  pub requirements-Given :
      (m : List (Text × List Text)) (cs : List (ComponentSpec F)) (name : Text)
      (targets : List Text)
      → lookup name (requirements_from m cs) ≡ some targets
      → Given cs name targets ⊎ (lookup name m ≡ some targets)
  requirements-Given m [] name targets e = inr e
  requirements-Given m (c ∷ cs) name targets e =
      let law = requirements-Given (map_insert c.name c.must_depend_on m) cs name targets e in
      let found : lookup name (map_insert c.name c.must_depend_on m) ≡ some targets
          → Given (c ∷ cs) name targets ⊎ (lookup name m ≡ some targets) =
        λ h. elim (Bool-cases (list_eqb name c.name)) [
          | inl same ↦
              let old : ◌≡◌ {A = Option (List Text)} (some c.must_depend_on) (some targets) =
                rw (lookup-map_insert c.name name c.must_depend_on m, same) at h in
              inl (c, inl refl, sym ((list_eqb_iff name c.name).0 same), cc)
          | inr apart ↦ inr (rw (lookup-map_insert c.name name c.must_depend_on m, apart) at h)
        ] in
      ⊎_elim (λ (k, i, s, r). inl (k, inr i, s, r)) found law

  -- Every component is in the map.
  pub requirements-Present :
      (m : List (Text × List Text)) (cs : List (ComponentSpec F)) (name : Text)
      → ((c : ComponentSpec F) × Elem c cs × (c.name ≡ name)) ⊎ Present m name
      → Present (requirements_from m cs) name
  requirements-Present m [] name (inl (c, i, e)) = absurd i
  requirements-Present m [] name (inr h) = h
  requirements-Present m (c ∷ cs) name (inl (k, inl same, e)) =
      requirements-Present (map_insert c.name c.must_depend_on m) cs name
        (inr ((Present-map_insert m c.name name c.must_depend_on).1 (inl cc)))
  requirements-Present m (c ∷ cs) name (inl (k, inr i, e)) =
      requirements-Present (map_insert c.name c.must_depend_on m) cs name (inl (k, i, e))
  requirements-Present m (c ∷ cs) name (inr h) =
      requirements-Present (map_insert c.name c.must_depend_on m) cs name
        (inr ((Present-map_insert m c.name name c.must_depend_on).1 (inr h)))

targets_iff :
    (owner file : Text) (reached targets : List Text) (m : List (Pair × List Text)) (q : Pair)
    (v : Text)
    → Holds q v (require_targets owner file reached targets m)
      ↔ ((q.0 ≡ owner) × (v ≡ file) × Elem q.1 targets × ¬ Elem q.1 reached ⊎ Holds q v m)
targets_iff owner file reached [] m q v = (inr, ⊎_elim (λ (a, b, i, o). absurd i) (λ h. h))
targets_iff owner file reached (t ∷ targets) m q v = elim (Bool-cases (contains t reached)) [
  | inl there ↦
      let law = targets_iff owner file reached targets m q v in
      let met = (contains_iff t reached).0 there in
      rw there (
        λ h. ⊎_elim (λ (a, b, i, o). inl (a, b, inr i, o)) inr (law.0 h),
        ⊎_elim
            (λ (a, b, i, o).
              ⊎_elim (λ e. absurd (o (subst (λ x. Elem x reached) (sym e) met)))
                (λ i. law.1 (inl (a, b, i, o))) i)
            (λ h. law.1 (inr h)),
      )
  | inr missing ↦
      let law = targets_iff owner file reached targets (push_group (owner, t) file m) q v in
      let push = Holds-push_group (owner, t) q file v m in
      let out : ¬ Elem t reached = λ i. cc ((contains_iff t reached).1 i) in
      rw missing (
        λ h.
            ⊎_elim (λ (a, b, i, o). inl (a, b, inr i, o))
              (λ h.
                ⊎_elim
                  (λ (e, w).
                    let at : q.1 ≡ t = ap (λ p. p.1) e in
                    inl (ap (λ p. p.0) e, w, inl at, λ i. out (subst (λ x. Elem x reached) at i)))
                  inr (push.0 h))
              (law.0 h),
        ⊎_elim
            (λ (a, b, i, o).
              ⊎_elim (λ e. law.1 (inr (push.1 (inl (cc, b))))) (λ i. law.1 (inl (a, b, i, o))) i)
            (λ h. law.1 (inr (push.1 (inr h)))),
      )
]

-- Of a file whose component and reached names were looked up: the target is required, not reached.
abbrev pub Unmet : Option (List Text) → Option (List Text) → Text → Type 0
Unmet required names target =
    ((targets : List Text) × (required ≡ some targets) × Elem target targets)
    × ((reached : List Text) × (names ≡ some reached) × ¬ Elem target reached)

file_iff :
    (file owner : Text) (required names : Option (List Text)) (m : List (Pair × List Text))
    (q : Pair) (v : Text)
    → Holds q v (require_file file owner required names m)
      ↔ ((q.0 ≡ owner) × (v ≡ file) × Unmet required names q.1 ⊎ Holds q v m)
file_iff file owner none names m q v = (inr, ⊎_elim (λ (a, b, ((ts, e, i), r)). cc) (λ h. h))
file_iff file owner (some targets) none m q v =
    (inr, ⊎_elim (λ (a, b, (ts, (r, e, o))). cc) (λ h. h))
file_iff file owner (some targets) (some reached) m q v =
    let law = targets_iff owner file reached targets m q v in
    (
      λ h.
          ⊎_elim (λ (a, b, i, o). inl (a, b, ((targets, refl, i), (reached, refl, o)))) inr
            (law.0 h),
      ⊎_elim
          (λ (a, b, ((ts, e, i), (r, k, o))).
            let same : ts ≡ targets = cc in
            let met : r ≡ reached = cc in
            law.1 (inl (a, b, subst (Elem q.1) same i, subst (λ x. ¬ Elem q.1 x) met o)))
          (λ h. law.1 (inr h)),
    )

pub files_iff :
    (required importers : List (Text × List Text)) (files : List (Text × Text))
    (m : List (Pair × List Text)) (q : Pair) (v : Text)
    → Holds q v (require_files required importers files m)
      ↔ (Elem (v, q.0) files × Unmet (lookup q.0 required) (lookup v importers) q.1 ⊎ Holds q v m)
files_iff required importers [] m q v = (inr, ⊎_elim (λ h. absurd h.0) (λ h. h))
files_iff required importers ((file, owner) ∷ rest) m q v =
    let next = require_file file owner (lookup owner required) (lookup file importers) m in
    let law = files_iff required importers rest next q v in
    let step = file_iff file owner (lookup owner required) (lookup file importers) m q v in
    let unmet = λ (o f : Text). Unmet (lookup o required) (lookup f importers) q.1 in
    (
      λ h.
          ⊎_elim (λ (i, u). inl (inr i, u))
            (λ h.
              ⊎_elim
                (λ (a, b, u).
                  inl (inl cc, subst (λ o. unmet o v) (sym a) (subst (unmet owner) (sym b) u)))
                inr (step.0 h))
            (law.0 h),
      ⊎_elim
          (λ (i, u).
            ⊎_elim
              (λ e.
                let at : q.0 ≡ owner = ap (λ p. p.1) e in
                let is : v ≡ file = ap (λ p. p.0) e in
                law.1 (
                  inr
                    (step.1 (inl (at, is, subst (unmet owner) is (subst (λ o. unmet o v) at u))))))
              (λ i. law.1 (inl (i, u))) i)
          (λ h. law.1 (inr (step.1 (inr h)))),
    )

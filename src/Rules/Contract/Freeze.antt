-- ===== src/Rules/Contract/Freeze.antt =====
-- The baseline of contract.rs: pruning leaves out exactly the accepted violations, and what
-- `--freeze` writes accepts all there are.
use ovecc.Prelude.{
  ◌≡◌, ◌≢◌, ◌↔◌, ◌⊎◌, inl, inr, refl, sym, ap, ◌∙◌, subst, Option, none, some, List-cases, not,
  List, [], ◌∷◌, Elem, arith, Holds, Holds-filter_groups, filter_groups-nil, Elem-set_insert,
  contains, contains_iff, nat_ord, list_ord, nat_eq, list_eq,
}
use ovecc.Text.{Text, codes}
use ovecc.Core.Legacy.{DependencyRecord}
use ovecc.Core.Coverage.{Floats}
use ovecc.Core.Architecture.{EnforcementMode, off, warn, strict, new_violations}
use ovecc.Rules.Contract.{ContractInput, Pair, EdgeGroups, no_groups}
use ovecc.Rules.Contract.Measures.{classify_edges}
use ovecc.Rules.Contract.Baseline.{
  Entries, enter, enter_values, enter_groups, dependency_line, capability_line, required_line,
  budget_line, coupling_line, entries_of, violation_entries, without_entries, prune_baselined,
  judged_groups,
}

mode_cases :
    (mode : EnforcementMode)
    → (mode ≡ off) ⊎ (mode ≡ warn) ⊎ (mode ≡ strict) ⊎ (mode ≡ new_violations)
mode_cases off = inl refl
mode_cases warn = inr (inl refl)
mode_cases strict = inr (inr (inl refl))
mode_cases new_violations = inr (inr (inr refl))

-- The line stands under some component.
abbrev pub Recorded : Text → Entries → Type 0
Recorded line [] = ⊥
Recorded line ((component, lines) ∷ entries) = Elem line lines ⊎ Recorded line entries

Recorded-enter :
    (line component new : Text) (entries : Entries)
    → Recorded line (enter component new entries) ↔ ((line ≡ new) ⊎ Recorded line entries)
Recorded-enter line component new [] = ground arith
Recorded-enter line component new ((c, lines) ∷ entries) =
    ground (arith, Elem-set_insert new line lines, Recorded-enter line component new entries)

module _ {V : Type 0} (line : Pair → V → Text) where
  enter_values_keeps :
      (old : Text) (pair : Pair) (vs : List V) (entries : Entries)
      → Recorded old entries
      → Recorded old (enter_values line pair vs entries)
  enter_values_keeps old pair [] entries h = h
  enter_values_keeps old pair (v ∷ vs) entries h =
      enter_values_keeps old pair vs (enter pair.0 (line pair v) entries)
        ((Recorded-enter old pair.0 (line pair v) entries).1 (inr h))

  enter_values-Recorded :
      (pair : Pair) (v : V) (vs : List V) (entries : Entries)
      → Elem v vs
      → Recorded (line pair v) (enter_values line pair vs entries)
  enter_values-Recorded pair v [] entries m = absurd m
  enter_values-Recorded pair v (w ∷ vs) entries (inl e) =
      enter_values_keeps (line pair v) pair vs (enter pair.0 (line pair w) entries)
        ((Recorded-enter (line pair v) pair.0 (line pair w) entries).1 (inl (ap (line pair) e)))
  enter_values-Recorded pair v (w ∷ vs) entries (inr m) =
      enter_values-Recorded pair v vs (enter pair.0 (line pair w) entries) m

  enter_groups_keeps :
      (old : Text) (groups : List (Pair × List V)) (entries : Entries)
      → Recorded old entries
      → Recorded old (enter_groups line groups entries)
  enter_groups_keeps old [] entries h = h
  enter_groups_keeps old ((pair, vs) ∷ groups) entries h =
      enter_groups_keeps old groups (enter_values line pair vs entries)
        (enter_values_keeps old pair vs entries h)

  enter_groups-Recorded :
      (pair : Pair) (v : V) (groups : List (Pair × List V)) (entries : Entries)
      → Holds pair v groups
      → Recorded (line pair v) (enter_groups line groups entries)
  enter_groups-Recorded pair v [] entries m = absurd m
  enter_groups-Recorded pair v ((p, vs) ∷ groups) entries (inl (e, m)) =
      enter_groups_keeps (line pair v) groups (enter_values line p vs entries) (
        subst (λ q. Recorded (line q v) (enter_values line p vs entries)) (sym e)
          (enter_values-Recorded p v vs entries m))
  enter_groups-Recorded pair v ((p, vs) ∷ groups) entries (inr m) =
      enter_groups-Recorded pair v groups (enter_values line p vs entries) m

  -- Exactly the values whose line is not accepted stay.
  pub without_entries-Holds :
      (baseline : List Text) (groups : List (Pair × List V)) (pair : Pair) (v : V)
      → Holds pair v (without_entries line baseline groups)
        ↔ (Holds pair v groups × (¬ Elem (line pair v) baseline))
  unfolding without_entries
  without_entries-Holds baseline groups pair v = ground (
    arith,
    Holds-filter_groups (λ p w. not (contains (line p w) baseline)) pair v groups,
    contains_iff (line pair v) baseline,
  )

  -- If the store has the line of every value, nothing stays.
  without_entries-nil :
      (baseline : List Text) (groups : List (Pair × List V)) (entries : Entries)
      → ((l : Text) → Recorded l (enter_groups line groups entries) → Elem l baseline)
      → without_entries line baseline groups ≡ []
  unfolding without_entries
  without_entries-nil baseline groups entries all =
      filter_groups-nil (λ p w. not (contains (line p w) baseline)) groups
        (λ p w m.
          rw
            ((contains_iff (line p w) baseline).1
              (all (line p w) (enter_groups-Recorded p w groups entries m)))
            refl)

  -- A store with all entries has those from before this loop.
  earlier :
      (baseline : List Text) (groups : List (Pair × List V)) (entries : Entries)
      → ((l : Text) → Recorded l (enter_groups line groups entries) → Elem l baseline)
      → (l : Text) → Recorded l entries
      → Elem l baseline
  earlier baseline groups entries all l m = all l (enter_groups_keeps l groups entries m)

module _ {F : Type 0} where
  -- The groups without any violation that a baseline can accept.
  abbrev pub accepted : EdgeGroups F → EdgeGroups F
  accepted groups = record no_groups { coverage = groups.coverage; observed = groups.observed }

  pub prune_baselined-entries_of :
      (groups : EdgeGroups F) (baseline : List Text)
      → ((l : Text) → Recorded l (entries_of groups) → Elem l baseline)
      → prune_baselined groups baseline ≡ accepted groups
  unfolding prune_baselined entries_of
  prune_baselined-entries_of g baseline hk =
      let dl = dependency_line in
      let a = enter_groups (dl (codes "divergence")) g.divergences [] in
      let b = enter_groups (dl (codes "restricted-access")) g.restricted a in
      let c = enter_groups (dl (codes "forbidden-dependency")) g.forbidden b in
      let d = enter_groups (dl (codes "interface-bypass")) g.bypasses c in
      let e = enter_groups (dl (codes "deprecated-use")) g.deprecated d in
      let f = enter_groups (dl (codes "external-deny")) g.banned e in
      let s = enter_groups (dl (codes "slice-isolation")) g.slices f in
      let h = enter_groups capability_line g.capabilities s in
      let r = enter_groups required_line g.required h in
      let j = enter_groups budget_line g.budgets r in
      let hj = earlier coupling_line baseline g.coupling j hk in
      let hr = earlier budget_line baseline g.budgets r hj in
      let hh = earlier required_line baseline g.required h hr in
      let hs = earlier capability_line baseline g.capabilities s hh in
      let hf = earlier (dl (codes "slice-isolation")) baseline g.slices f hs in
      let he = earlier (dl (codes "external-deny")) baseline g.banned e hf in
      let hd = earlier (dl (codes "deprecated-use")) baseline g.deprecated d he in
      let hc = earlier (dl (codes "interface-bypass")) baseline g.bypasses c hd in
      let hb = earlier (dl (codes "forbidden-dependency")) baseline g.forbidden b hc in
      let ha = earlier (dl (codes "restricted-access")) baseline g.restricted a hb in
      λ i. record {
        divergences = without_entries-nil (dl (codes "divergence")) baseline g.divergences [] ha i;
        restricted =
            without_entries-nil (dl (codes "restricted-access")) baseline g.restricted a hb i;
        forbidden =
            without_entries-nil (dl (codes "forbidden-dependency")) baseline g.forbidden b hc i;
        required = without_entries-nil required_line baseline g.required h hr i;
        bypasses = without_entries-nil (dl (codes "interface-bypass")) baseline g.bypasses c hd i;
        deprecated = without_entries-nil (dl (codes "deprecated-use")) baseline g.deprecated d he i;
        banned = without_entries-nil (dl (codes "external-deny")) baseline g.banned e hf i;
        slices = without_entries-nil (dl (codes "slice-isolation")) baseline g.slices f hs i;
        capabilities = without_entries-nil capability_line baseline g.capabilities s hh i;
        budgets = without_entries-nil budget_line baseline g.budgets r hj i;
        coupling = without_entries-nil coupling_line baseline g.coupling j hk i;
        coverage = g.coverage;
        observed = g.observed;
      }

  live_entries :
      (n : Floats F) (architecture : ContractInput F) (dependencies : List DependencyRecord)
      → architecture.contract.mode ≢ off
      → violation_entries n architecture dependencies
        ≡ entries_of (classify_edges architecture n dependencies)
  unfolding violation_entries
  live_entries n architecture dependencies live = ground arith

  -- With a baseline that holds all the current violation entries, as a freeze writes them, nothing
  -- is left of the violations, save the coverage floors, which cannot be accepted; what was observed
  -- stays as well.
  prune_baselined-violation_entries :
      (n : Floats F) (architecture : ContractInput F) (dependencies : List DependencyRecord)
      (baseline : List Text)
      → architecture.contract.mode ≢ off
      → ((l : Text) → Recorded l (violation_entries n architecture dependencies) → Elem l baseline)
      → prune_baselined (classify_edges architecture n dependencies) baseline
        ≡ accepted (classify_edges architecture n dependencies)
  prune_baselined-violation_entries n architecture dependencies baseline live all =
      prune_baselined-entries_of (classify_edges architecture n dependencies) baseline
        (λ l m. all l (subst (Recorded l) (sym (live_entries n architecture dependencies live)) m))

  judged_groups-pruned :
      (n : Floats F) (architecture : ContractInput F) (dependencies : List DependencyRecord)
      → architecture.contract.mode ≡ new_violations
      → architecture.baseline ≢ []
      → judged_groups n architecture dependencies
        ≡ some (prune_baselined (classify_edges architecture n dependencies) architecture.baseline)
  unfolding judged_groups
  judged_groups-pruned n architecture dependencies mode some_lines =
      elim (List-cases architecture.baseline) [
        | inl empty ↦ absurd (some_lines empty)
        | inr (line, lines, e) ↦ ground arith
      ]

  -- What the check goes on with, by its mode, if all the violations are accepted.
  abbrev pub left_of : EnforcementMode → EdgeGroups F → Option (EdgeGroups F)
  left_of off groups = none
  left_of warn groups = some groups
  left_of new_violations groups = some (accepted groups)
  left_of strict groups = some groups

  -- Where the baseline is not empty and holds all the current violation entries, as a freeze writes
  -- them, the check goes on as its mode says: in new-violations mode with nothing of the violations,
  -- save the coverage floors, which cannot be accepted, and with what was observed; in strict and in
  -- warn mode with all the violations, in spite of the baseline; and if the mode is off it does not
  -- go on.
  pub judged_groups-violation_entries :
      (n : Floats F) (architecture : ContractInput F) (dependencies : List DependencyRecord)
      → architecture.baseline ≢ []
      → ((l : Text)
          → Recorded l (violation_entries n architecture dependencies)
          → Elem l architecture.baseline)
      → judged_groups n architecture dependencies
        ≡ left_of architecture.contract.mode (classify_edges architecture n dependencies)
  unfolding judged_groups
  judged_groups-violation_entries n architecture dependencies some_lines all =
      elim (mode_cases architecture.contract.mode) [
        | inl e ↦ simp (e, judged_groups) refl
        | inr (inl e) ↦ simp (e, judged_groups) refl
        | inr (inr (inl e)) ↦ simp (e, judged_groups) refl
        | inr (inr (inr e)) ↦
            let groups = classify_edges architecture n dependencies in
            judged_groups-pruned n architecture dependencies e some_lines
            ∙ ap some (
                prune_baselined-violation_entries n architecture dependencies architecture.baseline
                  (λ o. cc (e, o)) all)
            ∙ ap (λ mode. left_of mode groups) (sym e)
      ]

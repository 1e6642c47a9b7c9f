-- ===== src/Rules/Contract/Bans.antt =====
-- `classify_external` of contract.rs: the patterns that an import meets.
use ovecc.Prelude.{
  ◌≡◌, ◌↔◌, ◌⊎◌, inl, inr, ⊎_elim, sym, ap, ◌∙◌, true, List, [], ◌∷◌, Elem, Holds, Holds-push_group,
  push_group, pair_ord, list_ord, nat_ord, Bool-cases, nat_eq, list_eq,
}
use ovecc.Text.{Text}
use ovecc.Core.Legacy.{DependencyRecord}
use ovecc.Core.Facts.{capability_eq}
use ovecc.Rules.Specifier.{specifier_matches}
use ovecc.Rules.Contract.{Pair, PairMap}
use ovecc.Rules.Contract.Classify.{ban}

pub ban_iff :
    (source : Text) (d : DependencyRecord) (patterns : List Text) (m : PairMap) (q : Pair)
    (e : DependencyRecord)
    → Holds q e (ban source d patterns m) ↔ (
        (e ≡ d) × (q.0 ≡ source) × Elem q.1 patterns × (specifier_matches d.specifier q.1 ≡ true)
        ⊎ Holds q e m)
unfolding ban
ban_iff source d [] m q e = (inr, ⊎_elim (λ (a, b, i, k). absurd i) (λ h. h))
ban_iff source d (p ∷ patterns) m q e = elim (Bool-cases (specifier_matches d.specifier p)) [
  | inl met ↦
      let law = ban_iff source d patterns (push_group (source, p) d m) q e in
      let push = Holds-push_group (source, p) q d e m in
      rw met (
        λ h.
            ⊎_elim (λ (a, b, i, k). inl (a, b, inr i, k))
              (λ h.
                ⊎_elim
                  (λ (at, is).
                    let same : q.1 ≡ p = ap (λ x. x.1) at in
                    inl (
                      is,
                      ap (λ x. x.0) at,
                      inl same,
                      ap (specifier_matches d.specifier) same ∙ met,
                    ))
                  inr (push.0 h))
              (law.0 h),
        ⊎_elim
            (λ (a, b, i, k).
              ⊎_elim (λ same. law.1 (inr (push.1 (inl (cc, a))))) (λ i. law.1 (inl (a, b, i, k))) i)
            (λ h. law.1 (inr (push.1 (inr h)))),
      )
  | inr unmet ↦
      let law = ban_iff source d patterns m q e in
      rw unmet (
        λ h. ⊎_elim (λ (a, b, i, k). inl (a, b, inr i, k)) inr (law.0 h),
        ⊎_elim
            (λ (a, b, i, k).
              ⊎_elim
                (λ same.
                  let met : specifier_matches d.specifier p ≡ true =
                    ap (specifier_matches d.specifier) (sym same) ∙ k in
                  cc)
                (λ i. law.1 (inl (a, b, i, k))) i)
            (λ h. law.1 (inr h)),
      )
]

-- ===== src/Core/Query/Laws.antt =====
-- What `Query::parse` and `TargetSelector::parse` of query.rs accept, and what they read.
use ovecc.Prelude.{
  ◌≡◌, refl, sym, ap, ◌∙◌, none, some, List, [], ◌∷◌, ◌++◌, All, Bool-cases, Option-cases, inl, inr,
  nat_eq, nat_eqb, nat_eqb_iff, not, ◌&&◌, contains,
}
use ovecc.Text.{Text, codes, trim, empty, split_at, strip_prefix, all, is_alphabetic}
use ovecc.Text.Laws.{split_at-some, strip_prefix-eq-some}
use ovecc.Core.Query.{
  TargetSelector, module_target, symbol, qualified_symbol, api, table, file, finding, free, unquote,
  parse_api, parse_prefixed, prefixed, parse_plain, parse_unquoted, parse_target,
}

-- A selector in the target syntax.
abbrev pub written : TargetSelector → Text
written (module_target s) = s
written (symbol s) = codes "symbol:" ++ s
written (qualified_symbol s) = s
written (table s) = codes "table:" ++ s
written (file s) = codes "file:" ++ s
written (finding s) = codes "finding:" ++ s
written (free s) = s
written (api none path) = codes "api:" ++ path
written (api (some method) path) = codes "api:" ++ method ++ b':' ∷ path

parse_api-written : (rest : Text) → written (parse_api rest) ≡ codes "api:" ++ rest
unfolding parse_api
parse_api-written rest = elim (Option-cases (split_at (λ c. nat_eqb c b':') rest)) [
  | inl missing ↦ rw (missing, parse_api) refl
  | inr ((method, path), found) ↦
      let (c, colon, same) = split_at-some (λ c. nat_eqb c b':') rest method path found in
      let is_colon : c ≡ b':' = (nat_eqb_iff c b':').0 colon in
      elim (Bool-cases (not (empty method) && all is_alphabetic method)) [
        | inl named ↦
            rw (found, named, parse_api)
              (ap (λ z. codes "api:" ++ z) (sym (same ∙ ap (λ z. method ++ z ∷ path) is_colon)))
        | inr unnamed ↦ rw (found, unnamed, parse_api) refl
      ]
]

-- A maker that writes its prefix back.
abbrev Writes : Text × (Text → TargetSelector) → Type 0
Writes (prefix, make) = (rest : Text) → written (make rest) ≡ prefix ++ rest

parse_plain-written : (t : Text) → written (parse_plain t) ≡ t
unfolding parse_plain
parse_plain-written t = elim (Bool-cases (contains b'.' t)) [
  | inl dotted ↦ rw (dotted, parse_plain) refl
  | inr plain ↦ rw (plain, parse_plain) refl
]

parse_prefixed-written :
    (makers : List (Text × (Text → TargetSelector))) (t : Text) (selector : TargetSelector)
    → All Writes makers
    → parse_prefixed makers t ≡ some selector
    → written selector ≡ t
unfolding parse_prefixed
parse_prefixed-written [] t selector laws h = cc
parse_prefixed-written ((prefix, make) ∷ more) t selector laws h =
    elim (Option-cases (strip_prefix prefix t)) [
      | inl missing ↦
          parse_prefixed-written more t selector laws.1 (rw (missing, parse_prefixed) at h)
      | inr (rest, found) ↦
          let made : some (make rest) ≡ some selector = rw (found, parse_prefixed) at h in
          let same : make rest ≡ selector = cc in
          ap written (sym same) ∙ laws.0 rest ∙ sym (strip_prefix-eq-some prefix t rest found)
    ]

prefixed-Writes : All Writes prefixed
prefixed-Writes = (λ rest. refl, (λ rest. refl, (λ rest. refl, (λ rest. refl, tt))))

-- Nothing of a target is lost: the selector that it parses to, written in the target syntax, is
-- the input less the white space around it and one pair of matching quotes.
pub parse_target-written : (t : Text) → written (parse_target t) ≡ unquote (trim t)
unfolding parse_target parse_unquoted
parse_target-written t =
    let u = unquote (trim t) in
    elim (Option-cases (strip_prefix (codes "api:") u)) [
      | inr (rest, found) ↦
          rw (found, parse_unquoted)
            (parse_api-written rest ∙ sym (strip_prefix-eq-some (codes "api:") u rest found))
      | inl no_api ↦ elim (Option-cases (parse_prefixed prefixed u)) [
        | inr (selector, found) ↦
            rw (no_api, found, parse_unquoted)
              (parse_prefixed-written prefixed u selector prefixed-Writes found)
        | inl plain ↦ rw (no_api, plain, parse_unquoted) (parse_plain-written u)
      ]
    ]

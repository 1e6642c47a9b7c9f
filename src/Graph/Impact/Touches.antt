-- ===== src/Graph/Impact/Touches.antt =====
-- The neighbours of a module by the local dependencies.
use ovecc.Prelude.{
  ◌≡◌, ◌↔◌, ◌⊎◌, inl, inr, ⊎_elim, refl, sym, subst, true, List, [], ◌∷◌, Elem, arith, list_eqb_iff,
  list_eq, nat_eq, list_ord, nat_ord, pair_ord, set_insert, Elem-set_insert,
}
use ovecc.Text.{Text}
use ovecc.Core.Legacy.{DependencyRecord, ImpactDirection, looks_down, looks_up}
use ovecc.Graph.Impact.{is_local, add_neighbors, neighbors_from, neighbors, record_ends}

-- Some local dependency record leads from module `u` to module `v`.
abbrev pub DependsOn : List DependencyRecord → Text → Text → Type 0
DependsOn ds u v =
    (d : DependencyRecord) × Elem d ds
    × (is_local d ≡ true)
    × (d.source_module ≡ u)
    × (d.target_module ≡ v)

abbrev pub Touches : List DependencyRecord → ImpactDirection → Text → Text → Type 0
Touches ds direction u v =
    (looks_down direction ≡ true) × DependsOn ds v u
    ⊎ (looks_up direction ≡ true) × DependsOn ds u v

-- The same for one record.
abbrev pub RecordTouches : DependencyRecord → ImpactDirection → Text → Text → Type 0
RecordTouches d direction u v =
    (is_local d ≡ true)
    × ((looks_down direction ≡ true) × (d.target_module ≡ u) × (v ≡ d.source_module)
        ⊎ (looks_up direction ≡ true) × (d.source_module ≡ u) × (v ≡ d.target_module))

pub Elem-add_neighbors :
    (u : Text) (direction : ImpactDirection) (found : List Text) (d : DependencyRecord) (v : Text)
    → Elem v (add_neighbors u direction found d) ↔ (RecordTouches d direction u v ⊎ Elem v found)
unfolding add_neighbors
Elem-add_neighbors u direction found d v = ground (
  arith,
  list_eqb_iff d.target_module u,
  list_eqb_iff d.source_module u,
  Elem-set_insert d.source_module v found,
  Elem-set_insert d.target_module v (set_insert d.source_module found),
  Elem-set_insert d.target_module v found,
)

pub DependsOn-cons :
    (d : DependencyRecord) (ds : List DependencyRecord) (u v : Text)
    → DependsOn (d ∷ ds) u v
      ↔ ((is_local d ≡ true) × (d.source_module ≡ u) × (d.target_module ≡ v) ⊎ DependsOn ds u v)
DependsOn-cons d ds u v = (
  λ (x, m, i, s, t).
      ⊎_elim
        (λ q. inl (
          subst (λ y. (is_local y ≡ true) × (y.source_module ≡ u) × (y.target_module ≡ v)) q
            (i, s, t)))
        (λ n. inr (x, n, i, s, t)) m,
  ⊎_elim (λ (i, s, t). (d, inl refl, i, s, t)) (λ (x, m, i, s, t). (x, inr m, i, s, t)),
)

pub Touches-cons :
    (d : DependencyRecord) (ds : List DependencyRecord) (direction : ImpactDirection) (u v : Text)
    → Touches (d ∷ ds) direction u v ↔ (RecordTouches d direction u v ⊎ Touches ds direction u v)
Touches-cons d ds direction u v =
    let down = DependsOn-cons d ds v u in
    let up = DependsOn-cons d ds u v in
    (
      ⊎_elim
          (λ (b, x).
            ⊎_elim (λ (i, s, t). inl (i, inl (b, t, sym s))) (λ r. inr (inl (b, r))) (down.0 x))
          (λ (b, x).
            ⊎_elim (λ (i, s, t). inl (i, inr (b, s, sym t))) (λ r. inr (inr (b, r))) (up.0 x)),
      ⊎_elim
          (λ (i, c).
            ⊎_elim (λ (b, t, s). inl (b, down.1 (inl (i, sym s, t))))
              (λ (b, s, t). inr (b, up.1 (inl (i, s, sym t)))) c)
          (⊎_elim (λ (b, r). inl (b, down.1 (inr r))) (λ (b, r). inr (b, up.1 (inr r)))),
    )

pub Touches-nil : (direction : ImpactDirection) (u v : Text) → ¬ Touches [] direction u v
Touches-nil direction u v = ⊎_elim (λ (b, x). x.1) (λ (b, x). x.1)

pub neighbors_from-Touches :
    (u : Text) (direction : ImpactDirection) (found : List Text) (ds : List DependencyRecord)
    (v : Text)
    → Elem v (neighbors_from u direction found ds) ↔ (Touches ds direction u v ⊎ Elem v found)
unfolding neighbors_from
neighbors_from-Touches u direction found [] v =
    (inr, ⊎_elim (λ t. absurd (Touches-nil direction u v t)) (λ m. m))
neighbors_from-Touches u direction found (d ∷ ds) v =
    let rest = neighbors_from-Touches u direction (add_neighbors u direction found d) ds v in
    let first = Elem-add_neighbors u direction found d v in
    let cons = Touches-cons d ds direction u v in
    (
      λ m.
          ⊎_elim (λ t. inl (cons.1 (inr t)))
            (λ n. ⊎_elim (λ r. inl (cons.1 (inl r))) inr (first.0 n)) (rest.0 m),
      ⊎_elim (λ t. ⊎_elim (λ r. rest.1 (inr (first.1 (inl r)))) (λ q. rest.1 (inl q)) (cons.0 t))
          (λ m. rest.1 (inr (first.1 (inr m)))),
    )

pub neighbors-Touches :
    (u : Text) (direction : ImpactDirection) (ds : List DependencyRecord) (v : Text)
    → Elem v (neighbors u direction ds) ↔ Touches ds direction u v
unfolding neighbors
neighbors-Touches u direction ds v =
    let e = neighbors_from-Touches u direction [] ds v in
    (λ m. ⊎_elim (λ t. t) (λ x. absurd x) (e.0 m), λ t. e.1 (inl t))

pub DependsOn-ends :
    (ds : List DependencyRecord) (u v : Text)
    → DependsOn ds u v
    → Elem u (record_ends ds) × Elem v (record_ends ds)
DependsOn-ends [] u v h = absurd (h.1)
DependsOn-ends (d ∷ ds) u v h = elim ((DependsOn-cons d ds u v).0 h) [
  | inl (i, s, t) ↦ (inl (sym s), inr (inl (sym t)))
  | inr r ↦ let e = DependsOn-ends ds u v r in (inr (inr e.0), inr (inr e.1))
]

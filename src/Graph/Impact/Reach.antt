-- ===== src/Graph/Impact/Reach.antt =====
-- The affected modules of an impact report are those that chains of local dependencies reach.
use ovecc.Prelude.{
  ℕ, zero, suc, ◌≤◌, ◌≡◌, ◌≢◌, ◌↔◌, inl, inr, ⊎_elim, refl, sym, subst, none, some, List, [], ◌∷◌,
  ◌++◌, Elem, All-of_Elem, Option-cases, list_eq, nat_eq, list_ord, nat_ord, pair_ord,
}
use ovecc.Text.{Text}
use ovecc.Core.Legacy.{DependencyRecord, ImpactDirection, ImpactReport}
use ovecc.Graph.Traversal.{Search}
use ovecc.Graph.Traversal.Work.{search_from_total}
use ovecc.Graph.Traversal.Invariant.{Walk, here, step}
use ovecc.Graph.Traversal.Correct.{search_sound, search_complete}
use ovecc.Graph.Blast.Radius.{answer}
use ovecc.Graph.Impact.{
  neighbors, record_ends, match_module, impact_search, impact, no_impact, impact_report,
}
use ovecc.Graph.Impact.Touches.{Touches, neighbors-Touches, DependsOn-ends}

impact_search_total :
    (start : Text) (direction : ImpactDirection) (max_depth : ℕ) (ds : List DependencyRecord)
    → (t : Search Text) × (impact_search start direction max_depth ds ≡ some t)
unfolding impact_search
impact_search_total start direction max_depth ds =
    search_from_total (record_ends ds) start (λ m. neighbors m direction ds) max_depth
      λ u. All-of_Elem _ _ λ v m.
        ⊎_elim (λ (b, q). (DependsOn-ends ds v u q).0) (λ (b, q). (DependsOn-ends ds u v q).1)
          ((neighbors-Touches u direction ds v).0 m)

-- A chain of `n` local dependencies that carries a change of module `start` to `m`.
pub data Chain (ds : List DependencyRecord) (direction : ImpactDirection) (start : Text)
    : ℕ → Text → Type 0 where
  root : Chain ds direction start zero start
  extend :
      {n : ℕ} {u : Text} (v : Text)
      → Chain ds direction start n u
      → Touches ds direction u v
      → Chain ds direction start (suc n) v

module _ (ds : List DependencyRecord) (direction : ImpactDirection) (start : Text) where
  abbrev next : Text → List Text
  next m = neighbors m direction ds

  Walk→Chain :
      {path : List Text} {n : ℕ} {k : Text}
      → Walk start next path n k
      → Chain ds direction start n k
  Walk→Chain here = root
  Walk→Chain (step {k} v w m) = extend v (Walk→Chain w) ((neighbors-Touches k direction ds v).0 m)

  Chain→Walk :
      {n : ℕ} {k : Text}
      → Chain ds direction start n k
      → (path : List Text) × Walk start next path n k
  Chain→Walk root = (start ∷ [], here)
  Chain→Walk (extend {u} v c a) =
      let (path, w) = Chain→Walk c in
      (path ++ v ∷ [], step v w ((neighbors-Touches u direction ds v).1 a))

impact_search-visited :
    (start : Text) (direction : ImpactDirection) (max_depth : ℕ) (ds : List DependencyRecord)
    (t : Search Text)
    → impact_search start direction max_depth ds ≡ some t
    → (m : Text)
    → Elem m t.visited ↔ ((m ≢ start) × ((n : ℕ) × Chain ds direction start n m × (n ≤ max_depth)))
unfolding impact_search
impact_search-visited start direction max_depth ds t h m =
    let next = λ (k : Text). neighbors k direction ds in
    (
      λ v.
          let (r, f) = search_sound start next max_depth (record_ends ds) h m v in
          let (path, n, w, l) = f in (r, (n, Walk→Chain ds direction start w, l)),
      λ (r, f).
          let (n, c, l) = f in
          let (path, w) = Chain→Walk ds direction start c in
          search_complete start next max_depth (record_ends ds) h w l r,
    )

-- What a report has to say: which module was matched, and which modules are affected.
abbrev pub IsImpactOf :
    Text → ImpactDirection → ℕ → List Text → List DependencyRecord → ImpactReport → Type 0
IsImpactOf target direction max_depth modules ds r =
    (r.matched_module ≡ match_module target modules)
    × (match_module target modules ≡ none → r.affected_modules ≡ [])
    × ((start m : Text)
        → match_module target modules ≡ some start
        → Elem m r.affected_modules
          ↔ ((m ≢ start) × ((n : ℕ) × Chain ds direction start n m × (n ≤ max_depth))))

-- An impact report always comes to an answer. It names the module that matched. If none matched it
-- lists no module, and otherwise exactly the other modules that a chain of at most `max_depth`
-- local dependencies connects to the match.
pub impact-affected :
    (target : Text) (direction : ImpactDirection) (max_depth : ℕ) (modules : List Text)
    (ds : List DependencyRecord)
    → (r : ImpactReport) × (impact target direction max_depth modules ds ≡ answer r)
      × IsImpactOf target direction max_depth modules ds r
unfolding impact
impact-affected target direction max_depth modules ds =
    elim (Option-cases (match_module target modules)) [
      | inl nobody ↦ (
        no_impact target direction,
        rw (nobody, impact),
        (sym nobody, λ _. refl, λ start m e. cc (e, nobody)),
      )
      | inr (start, matched) ↦
          let (t, found) = impact_search_total start direction max_depth ds in
          (
            impact_report target direction start t,
            rw (matched, found, impact),
            (
              sym matched,
              λ e. cc (e, matched),
              λ other m e.
                  let same : start ≡ other = cc (e, matched) in
                  subst
                    (λ s.
                      Elem m t.visited
                      ↔ ((m ≢ s) × ((n : ℕ) × Chain ds direction s n m × (n ≤ max_depth))))
                    same (impact_search-visited start direction max_depth ds t found m),
            ),
          )
    ]

-- ===== src/Worklist.antt =====
-- The loops of crates/ovecc-rules/src/deadcode.rs that grow a set until it is closed: what enters
-- the set enters a work list too, and the loop follows what it takes from there. `bfs_reachable`
-- takes from a queue, `propagate_forwards` from a stack. A hash set is a list without duplicates.
pub mod Closed
use ovecc.Prelude.{
  ℕ, zero, suc, ◌≡◌, ◌↔◌, ◌⊎◌, Option, none, some, List, [], ◌∷◌, ◌++◌, if◌then◌else◌, arith, Eq,
  contains, length, length-append, Elem, Elem-append, refl,
}

-- Where a work list takes new members. The next one leaves at its head.
pub record Discipline (K : Type 0) : Type 0 where
  pub push : K → List K → List K
  pub Elem-push : (a k : K) (work : List K) → Elem a (push k work) ↔ ((a ≡ k) ⊎ Elem a work)
  pub length-push : (k : K) (work : List K) → length (push k work) ≡ suc (length work)

module _ {K : Type 0} where
  pub Elem-last : (a k : K) (work : List K) → Elem a (work ++ k ∷ []) ↔ ((a ≡ k) ⊎ Elem a work)
  Elem-last a k work = ground (arith, Elem-append a work (k ∷ []))

  pub length-last : (k : K) (work : List K) → length (work ++ k ∷ []) ≡ suc (length work)
  length-last k work = omega (arith, length-append work (k ∷ []))

  -- `VecDeque`, with `push_back` and `pop_front`.
  abbrev pub deque : Discipline K
  deque = record {
    push = λ k work. work ++ k ∷ [];
    Elem-push = Elem-last;
    length-push = length-last;
  }

  pub Elem-first : (a k : K) (work : List K) → Elem a (k ∷ work) ↔ ((a ≡ k) ⊎ Elem a work)
  Elem-first a k work = (λ m. m, λ m. m)

  pub length-first : (k : K) (work : List K) → length (k ∷ work) ≡ suc (length work)
  length-first k work = refl

  -- `Vec`, with `push` and `pop`; the head of the list is its end.
  abbrev pub stack : Discipline K
  stack = record { push = λ k work. k ∷ work; Elem-push = Elem-first; length-push = length-first }

pub record Growth (K : Type 0) : Type 0 where
  pub seen : List K
  pub work : List K

abbrev pub nothing_seen : {K : Type 0} → Growth K
nothing_seen = record { seen = []; work = [] }

module _ {K : Type 0} ⦃e : Eq K⦄ (discipline : Discipline K) where
  -- `if seen.insert(key) { work.push(key) }`
  unfoldable pub reach : K → Growth K → Growth K
  reach k g =
      if contains k g.seen then g else record { seen = k ∷ g.seen; work = discipline.push k g.work }

  unfoldable pub reach_all : List K → Growth K → Growth K
  unfolding reach
  reach_all [] g = g
  reach_all (k ∷ ks) g = reach_all ks (reach k g)

  -- The `while` loop, on fuel; it leaves the set.
  unfoldable pub grow : (K → List K) → ℕ → Growth K → Option (List K)
  unfolding reach_all
  grow targets zero g = elim g.work [ [] ↦ some g.seen | _ ∷ _ ↦ none ]
  grow targets (suc fuel) g = elim g.work [
    | [] ↦ some g.seen
    | k ∷ rest ↦ grow targets fuel (reach_all (targets k) (record g { work = rest }))
  ]

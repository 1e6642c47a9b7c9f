-- ===== src/Graph/Traversal.antt =====
-- The depth-bounded breadth-first search that `impact` (crates/ovecc-graph/src/lib.rs) and
-- `blast_radius` (crates/ovecc-graph/src/blast.rs) both write out: a queue of nodes with the path
-- that led to them, and a visited set that never holds the start. The `while` loop runs on fuel.
pub mod Work
mod Step
pub mod Invariant
pub mod Round
pub mod Correct
use ovecc.Prelude.{
  ℕ, zero, suc, ◌+◌, Bool, ◌||◌, Option, none, some, List, [], ◌∷◌, ◌++◌, if◌then◌else◌, leb, Eq,
  ◌==◌, Ord, contains, set_insert, length,
}

pub record Entry (K : Type 0) : Type 0 where
  pub node : K
  pub path : List K
  pub depth : ℕ

pub record Search (K : Type 0) : Type 0 where
  pub visited : List K
  pub paths : List (List K)
  pub queue : List (Entry K)

module _ {K : Type 0} ⦃e : Eq K⦄ ⦃o : Ord K⦄ (start : K) where
  -- The body of the `for neighbor in neighbors` loop.
  pub offer : List K → ℕ → Search K → K → Search K
  offer path depth s neighbor =
      if neighbor == start || contains neighbor s.visited then s else record s {
        visited = set_insert neighbor s.visited;
        paths = s.paths ++ (path ++ neighbor ∷ []) ∷ [];
        queue =
            s.queue
            ++ record { node = neighbor; path = path ++ neighbor ∷ []; depth = suc depth } ∷ [];
      }

  pub offers : List K → ℕ → Search K → List K → Search K
  offers path depth s [] = s
  offers path depth s (n ∷ ns) = offers path depth (offer path depth s n) ns

  module _ (neighbors : K → List K) (max_depth : ℕ) where
    -- One round of the `while` loop, after the entry left the queue.
    pub round : Search K → Entry K → Search K
    round s x = if leb max_depth x.depth then s else offers x.path x.depth s (neighbors x.node)

    pub run : ℕ → Search K → Option (Search K)
    run zero s = elim s.queue [ [] ↦ some s | _ ∷ _ ↦ none ]
    run (suc fuel) s = elim s.queue [
      | [] ↦ some s
      | x ∷ rest ↦ run fuel (round (record s { queue = rest }) x)
    ]

    pub initial : Search K
    initial = record {
      visited = [];
      paths = [];
      queue = record { node = start; path = start ∷ []; depth = 0 } ∷ [];
    }

    -- `nodes` holds every node that can be a neighbour, so it bounds the rounds.
    unfoldable pub search_from : List K → Option (Search K)
    unfolding run round offers offer initial
    search_from nodes = run (suc (length nodes)) initial

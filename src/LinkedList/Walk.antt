-- ===== src/LinkedList/Walk.antt =====
-- Walking a list of include/thingset++/internal/IntrusiveLinkedList.hpp: range-based `for` and `count`.
use thingsetplusplus.Prelude.{ℕ, zero, suc, ◌+◌, ◌<◌, ◌≡◌, List, [], ◌∷◌, some, arith, length}
use thingsetplusplus.LinkedList.{Ptr, Links, State, begin, visit, count, count_loop}
use thingsetplusplus.LinkedList.Segment.{Chain, IsList}

visit-Chain :
    (fuel : ℕ) (next : Links) (p : Ptr) (xs : List Ptr)
    → length xs < fuel
    → Chain next p xs
    → visit fuel next p ≡ some xs
unfolding visit
visit-Chain zero next p xs h c = absurd (omega arith)
visit-Chain (suc fuel) next p [] h c = ground arith
visit-Chain (suc fuel) next p (x ∷ xs) h c =
    rw c.0 (ground (arith, visit-Chain fuel next (next x) xs (omega arith) c.2))

count_loop-Chain :
    (fuel : ℕ) (next : Links) (p n : ℕ) (xs : List Ptr)
    → length xs < fuel
    → Chain next p xs
    → count_loop fuel next p n ≡ some (n + length xs)
unfolding count_loop
count_loop-Chain zero next p n xs h c = absurd (omega arith)
count_loop-Chain (suc fuel) next p n [] h c = ground arith
count_loop-Chain (suc fuel) next p n (x ∷ xs) h c =
    rw c.0 (ground (arith, count_loop-Chain fuel next (next x) (n + 1) xs (omega arith) c.2))

-- With more steps than there are nodes, the iterators visit the nodes in order and `count` counts them.
pub walk_lem :
    (fuel : ℕ) (s : State) (xs : List Ptr)
    → IsList s xs
    → length xs < fuel
    → (visit fuel s.1 (begin s.0) ≡ some xs) × (count fuel s ≡ some (length xs))
unfolding begin count
walk_lem fuel s xs is h = (
  visit-Chain fuel s.1 s.0.head xs h is.chain,
  ground (arith, count_loop-Chain fuel s.1 s.0.head 0 xs h is.chain),
)

-- ===== src/LinkedList/Push.antt =====
-- `push_back` of include/thingset++/internal/IntrusiveLinkedList.hpp.
use thingsetplusplus.Prelude.{
  ℕ, zero, suc, ◌+◌, ◌≡◌, ◌≢◌, refl, false, List, [], ◌∷◌, ◌++◌, none, arith,
}
use thingsetplusplus.LinkedList.{Ptr, null, Links, State, set_next, push_back, count, count_loop}
use thingsetplusplus.LinkedList.Segment.{
  has, Distinct, last, Chain, IsList, has-last, Distinct-snoc, null-not-has, last-snoc,
}

-- Linking a fresh node behind the last one.
Chain-snoc :
    (a : Ptr) (next : Links) (x : Ptr) (xs : List Ptr)
    → a ≢ null
    → next a ≡ null
    → has a (x ∷ xs) ≡ false
    → Distinct (x ∷ xs)
    → Chain next x (x ∷ xs)
    → Chain (set_next (last x xs) a next) x (x ∷ xs ++ a ∷ [])
unfolding set_next
Chain-snoc a next x [] ne unlinked fresh d c = (refl, c.1, ground arith)
Chain-snoc a next x (y ∷ ys) ne unlinked fresh d c =
    let rest = Chain-snoc a next y ys ne unlinked (ground arith) d.1 (ground arith) in
    (refl, c.1, ground (arith, rest, has-last y ys))

last-ne-null : (next : Links) (x : Ptr) (xs : List Ptr) → Chain next x (x ∷ xs) → last x xs ≢ null
last-ne-null next x xs c = ground (arith, has-last x xs, null-not-has next x (x ∷ xs))

-- A node that is in no list, and not yet in this one, is appended: the list holds the same nodes and
-- then it, and the links of nodes outside it are unchanged.
pub push_back-IsList :
    (a : Ptr) (s : State) (xs : List Ptr)
    → IsList s xs
    → a ≢ null
    → s.1 a ≡ null
    → has a xs ≡ false
    → IsList (push_back a s) (xs ++ a ∷ [])
      × ((b : Ptr) → has b xs ≡ false → (push_back a s).1 b ≡ s.1 b)
unfolding push_back set_next
push_back-IsList a s [] is ne unlinked fresh =
    (ground (arith, is.tail), λ b out. ground (arith, is.tail))
push_back-IsList a s (x ∷ xs) is ne unlinked fresh =
    let chain : Chain s.1 x (x ∷ xs) = (refl, is.chain.1, is.chain.2) in
    let filled = last-ne-null s.1 x xs chain in
    let longer = Chain-snoc a s.1 x xs ne unlinked fresh is.distinct chain in
    (
      ground (
        arith,
        is.tail,
        filled,
        longer,
        is.chain.0,
        Distinct-snoc a (x ∷ xs) is.distinct fresh,
        last-snoc x a xs,
      ),
      λ b out. ground (arith, is.tail, filled, has-last x xs),
    )

-- A node that is already linked to a next one, in whatever list, is not pushed.
pub push_back_linked : (a : Ptr) (s : State) → s.1 a ≢ null → push_back a s ≡ s
unfolding push_back
push_back_linked a s h = ground arith

count_loop_cycle :
    (fuel : ℕ) (next : Links) (a n : ℕ) → a ≢ null → next a ≡ a → count_loop fuel next a n ≡ none
unfolding count_loop
count_loop_cycle zero next a n ne cycle = refl
count_loop_cycle (suc fuel) next a n ne cycle =
    ground (arith, count_loop_cycle fuel next a (n + 1) ne cycle)

-- From a node on the way to the cycle the walk does not end either.
count_loop-Chain_cycle :
    (fuel : ℕ) (next after : Links) (x n : ℕ) (xs : List Ptr)
    → Distinct (x ∷ xs)
    → Chain next x (x ∷ xs)
    → ((b : Ptr) → b ≢ last x xs → after b ≡ next b)
    → after (last x xs) ≡ last x xs
    → count_loop fuel after x n ≡ none
unfolding count_loop
count_loop-Chain_cycle fuel next after x n [] d c same cycle =
    count_loop_cycle fuel after x n c.1 cycle
count_loop-Chain_cycle zero next after x n (y ∷ ys) d c same cycle = refl
count_loop-Chain_cycle (suc fuel) next after x n (y ∷ ys) d c same cycle = ground (
  arith,
  has-last y ys,
  same x,
  count_loop-Chain_cycle fuel next after y (n + 1) ys d.1 (refl, c.2.1, c.2.2) same cycle,
)

next-last :
    (next : Links) (x : Ptr) (xs : List Ptr) → Chain next x (x ∷ xs) → next (last x xs) ≡ null
next-last next x [] c = c.2
next-last next x (y ∷ ys) c = next-last next y ys (refl, c.2.1, c.2.2)

push_back-last :
    (s : State) (x : Ptr) (xs : List Ptr)
    → IsList s (x ∷ xs)
    → push_back (last x xs) s
      ≡ (record { head = x; tail = last x xs }, set_next (last x xs) (last x xs) s.1)
unfolding push_back
push_back-last s x xs is =
    let chain : Chain s.1 x (x ∷ xs) = (refl, is.chain.1, is.chain.2) in
    ground (arith, is.tail, is.chain.0, next-last s.1 x xs chain, last-ne-null s.1 x xs chain)

-- `push_back` takes the last node of a list for one that is in no list, and links it to itself, after
-- which no walk from the head ends, for any number of steps.
pub push_back-last_cycle :
    (fuel : ℕ) (s : State) (x : Ptr) (xs : List Ptr)
    → IsList s (x ∷ xs)
    → ((push_back (last x xs) s).1 (last x xs) ≡ last x xs)
      × (count fuel (push_back (last x xs) s) ≡ none)
unfolding set_next count
push_back-last_cycle fuel s x xs is =
    let chain : Chain s.1 x (x ∷ xs) = (refl, is.chain.1, is.chain.2) in
    rw (push_back-last s x xs is) (
      ground arith,
      count_loop-Chain_cycle fuel s.1 (set_next (last x xs) (last x xs) s.1) x 0 xs is.distinct
          chain (λ b other. ground arith) (ground arith),
    )

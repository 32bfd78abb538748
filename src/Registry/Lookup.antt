-- ===== src/Registry/Lookup.antt =====
-- The search loops of src/ThingSetRegistry.cpp find the first node of a bucket that passes their test.
use thingsetplusplus.Prelude.{
  ℕ, zero, suc, ◌<◌, ◌≡◌, refl, Bool, true, false, List, [], ◌∷◌, ◌++◌, Option, none, some, arith,
  if◌then◌else◌, length,
}
use thingsetplusplus.LinkedList.{Ptr, Links}
use thingsetplusplus.LinkedList.Segment.{has, Chain}
use thingsetplusplus.Outcome.{done}
use thingsetplusplus.Registry.{find_in}

-- The first node that passes.
unfoldable pub first : (Ptr → Bool) → List Ptr → Option Ptr
first test [] = none
first test (x ∷ xs) = if test x then some x else first test xs

pub find_in-first :
    (fuel : ℕ) (test : Ptr → Bool) (next : Links) (p : Ptr) (xs : List Ptr)
    → length xs < fuel
    → Chain next p xs
    → find_in fuel test next p ≡ done (first test xs)
unfolding find_in first
find_in-first zero test next p xs h c = absurd (omega arith)
find_in-first (suc fuel) test next p [] h c = ground (arith, c)
find_in-first (suc fuel) test next p (x ∷ xs) h c =
    rw c.0 (ground (arith, find_in-first fuel test next (next x) xs (omega arith) c.2))

-- A node that is found is in the list and passes.
pub first-some :
    (test : Ptr → Bool) (xs : List Ptr) (x : Ptr)
    → first test xs ≡ some x
    → (has x xs ≡ true) × (test x ≡ true)
unfolding first
first-some test [] x e = cc
first-some test (y ∷ ys) x e = ground (arith, first-some test ys x)

-- None is found exactly where none passes.
pub first-none :
    (test : Ptr → Bool) (xs : List Ptr) (x : Ptr)
    → first test xs ≡ none
    → has x xs ≡ true
    → test x ≡ false
unfolding first
first-none test [] x e mem = cc
first-none test (y ∷ ys) x e mem = ground (arith, first-none test ys x)

pub first-eq-none :
    (test : Ptr → Bool) (xs : List Ptr)
    → ((x : Ptr) → has x xs ≡ true → test x ≡ false)
    → first test xs ≡ none
unfolding first
first-eq-none test [] h = refl
first-eq-none test (x ∷ xs) h =
    ground (arith, h x, first-eq-none test xs (λ a mem. h a (ground arith)))

-- Behind nodes of which none passes, the next node that passes is found.
pub first-snoc :
    (test : Ptr → Bool) (xs : List Ptr) (x : Ptr)
    → first test xs ≡ none
    → test x ≡ true
    → first test (xs ++ x ∷ []) ≡ some x
unfolding first
first-snoc test [] x e h = ground arith
first-snoc test (y ∷ ys) x e h = ground (arith, first-snoc test ys x)

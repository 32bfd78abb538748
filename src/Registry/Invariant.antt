-- ===== src/Registry/Invariant.antt =====
-- The buckets of the registry (src/ThingSetRegistry.cpp) as lists of nodes, and what registration
-- keeps of them.
pub mod Register
pub mod Initial
pub mod Find
pub mod Duplicate
pub mod Unregister
pub mod Lookup
use thingsetplusplus.Prelude.{ℕ, ◌+◌, ◌<◌, ◌≡◌, Bool, true, false, List, [], ◌∷◌, length}
use thingsetplusplus.LinkedList.{Ptr, null}
use thingsetplusplus.LinkedList.Segment.{has, IsList}
use thingsetplusplus.Flattening.Traverse.{concat}
use thingsetplusplus.Node.{Node}
use thingsetplusplus.Registry.{Registry, effective_id, bucket_of}

-- The bucket in which a node belongs.
abbrev pub home : Node → ℕ
home n = bucket_of (effective_id n)

-- The registry's buckets hold the nodes `bs`, each in its own bucket, and a node outside them is not
-- linked.
pub record Holds (info : Ptr → Node) (r : Registry) (bs : ℕ → List Ptr) : Type 0 where
  pub lists : (i : ℕ) → IsList (r.buckets i, r.links) (bs i)
  pub at_home : (i : ℕ) (p : Ptr) → has p (bs i) ≡ true → home (info p) ≡ i
  pub unlinked : (p : Ptr) → has p (bs (home (info p))) ≡ false → r.links p ≡ null

-- The lists of the eight buckets, and the number of nodes in them.
abbrev pub all_buckets : (ℕ → List Ptr) → List (List Ptr)
all_buckets bs = bs 0 ∷ bs 1 ∷ bs 2 ∷ bs 3 ∷ bs 4 ∷ bs 5 ∷ bs 6 ∷ bs 7 ∷ []

abbrev pub total : (ℕ → List Ptr) → ℕ
total bs = length (concat (all_buckets bs))

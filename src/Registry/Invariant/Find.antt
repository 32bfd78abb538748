-- ===== src/Registry/Invariant/Find.antt =====
-- Looking up nodes in a registry whose buckets hold given nodes: `findById`, `findParentById` and the
-- loops over all nodes of src/ThingSetRegistry.cpp.
use thingsetplusplus.Prelude.{
  ℕ, zero, suc, ◌+◌, ◌≤◌, ◌<◌, ◌≡◌, ap, refl, List, [], ◌∷◌, map, Option, some, arith, ◌==◌, length,
  length-append,
}
use mathlib.Core.List.{filter_map}
use thingsetplusplus.Flattening.Traverse.{concat, traverse-concat}
use thingsetplusplus.LinkedList.{Ptr, visit, begin}
use thingsetplusplus.LinkedList.Walk.{walk_lem}
use thingsetplusplus.Node.{Node}
use thingsetplusplus.Outcome.{done}
use thingsetplusplus.Registry.{
  Registry, bucket_of, find_by_id, as_parent, find_parent_by_id, visit_buckets, nodes,
}
use thingsetplusplus.Registry.Lookup.{first, find_in-first}
use thingsetplusplus.Registry.Invariant.{Holds, all_buckets, total}

bucket-lengths :
    (bs : ℕ → List Ptr)
    → total bs
      ≡ length (bs 0)
        + length (bs 1)
        + length (bs 2)
        + length (bs 3)
        + length (bs 4)
        + length (bs 5)
        + length (bs 6)
        + length (bs 7)
unfolding concat
bucket-lengths bs = omega (
  arith,
  length-append (bs 0) (concat (bs 1 ∷ bs 2 ∷ bs 3 ∷ bs 4 ∷ bs 5 ∷ bs 6 ∷ bs 7 ∷ [])),
  length-append (bs 1) (concat (bs 2 ∷ bs 3 ∷ bs 4 ∷ bs 5 ∷ bs 6 ∷ bs 7 ∷ [])),
  length-append (bs 2) (concat (bs 3 ∷ bs 4 ∷ bs 5 ∷ bs 6 ∷ bs 7 ∷ [])),
  length-append (bs 3) (concat (bs 4 ∷ bs 5 ∷ bs 6 ∷ bs 7 ∷ [])),
  length-append (bs 4) (concat (bs 5 ∷ bs 6 ∷ bs 7 ∷ [])),
  length-append (bs 5) (concat (bs 6 ∷ bs 7 ∷ [])),
  length-append (bs 6) (concat (bs 7 ∷ [])),
  length-append (bs 7) (concat ([])),
)

bucket-le : (bs : ℕ → List Ptr) (i : ℕ) → i < 8 → length (bs i) ≤ total bs
bucket-le bs zero h = omega (arith, bucket-lengths bs)
bucket-le bs (suc zero) h = omega (arith, bucket-lengths bs)
bucket-le bs (suc (suc zero)) h = omega (arith, bucket-lengths bs)
bucket-le bs (suc (suc (suc zero))) h = omega (arith, bucket-lengths bs)
bucket-le bs (suc (suc (suc (suc zero)))) h = omega (arith, bucket-lengths bs)
bucket-le bs (suc (suc (suc (suc (suc zero))))) h = omega (arith, bucket-lengths bs)
bucket-le bs (suc (suc (suc (suc (suc (suc zero)))))) h = omega (arith, bucket-lengths bs)
bucket-le bs (suc (suc (suc (suc (suc (suc (suc zero))))))) h = omega (arith, bucket-lengths bs)
bucket-le bs (suc (suc (suc (suc (suc (suc (suc (suc n)))))))) h = absurd (omega arith)

pub bucket_of-le : (bs : ℕ → List Ptr) (id : ℕ) → length (bs (bucket_of id)) ≤ total bs
bucket_of-le bs id = bucket-le bs (bucket_of id) (omega arith)

module _ (info : Ptr → Node) (fuel : ℕ) (r : Registry) (bs : ℕ → List Ptr) (holds : Holds info r bs)
    (enough : total bs < fuel) where
  pub find_by_id-first :
      (id : ℕ)
      → find_by_id info fuel r id ≡ done (first (λ n. (info n).id == id) (bs (bucket_of id)))
  unfolding find_by_id
  find_by_id-first id =
      find_in-first fuel _ r.links _ (bs (bucket_of id)) (omega (arith, bucket_of-le bs id))
        (holds.lists (bucket_of id)).chain

  pub find_parent_by_id-first :
      (id : ℕ)
      → find_parent_by_id info fuel r id
        ≡ done (as_parent info (first (λ n. (info n).id == id) (bs (bucket_of id))))
  unfolding find_parent_by_id
  find_parent_by_id-first id = rw (find_by_id-first id)

  visit_bucket : (i : ℕ) → i < 8 → visit fuel r.links (begin (r.buckets i)) ≡ some (bs i)
  visit_bucket i h =
      (walk_lem fuel (r.buckets i, r.links) (bs i) (holds.lists i)
        (omega (arith, bucket-le bs i h))).0

  visit_buckets_lem : visit_buckets info fuel 8 0 r ≡ done (all_buckets bs)
  unfolding visit_buckets
  visit_buckets_lem = rw (
    visit_bucket 0 (omega arith),
    visit_bucket 1 (omega arith),
    visit_bucket 2 (omega arith),
    visit_bucket 3 (omega arith),
    visit_bucket 4 (omega arith),
    visit_bucket 5 (omega arith),
    visit_bucket 6 (omega arith),
    visit_bucket 7 (omega arith),
  )

  filter_map-some : (xs : List Ptr) → filter_map (λ (n : Option Ptr). n) (map some xs) ≡ xs
  unfolding filter_map
  filter_map-some [] = refl
  filter_map-some (x ∷ xs) = ap (◌∷◌ x) (filter_map-some xs)

  -- The loops over the registry read the nodes of all buckets.
  pub nodes_lem : nodes info fuel r ≡ done (concat (all_buckets bs))
  unfolding nodes
  nodes_lem = rw (visit_buckets_lem, traverse-concat fuel (all_buckets bs) enough, filter_map-some)

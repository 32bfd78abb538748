-- ===== src/Registry/Invariant/Initial.antt =====
-- The constructor of the registry (src/ThingSetRegistry.cpp).
use thingsetplusplus.Prelude.{ℕ, ◌≡◌, ◌≢◌, refl, ap, subst, false, List, [], none, arith}
use thingsetplusplus.LinkedList.{Ptr, null, push_back}
use thingsetplusplus.Node.{Node, record_member}
use thingsetplusplus.Registry.{
  Registry, update, effective_id, bucket_of, no_nodes, store_node, initial,
}
use thingsetplusplus.Registry.Lookup.{first}
use thingsetplusplus.Registry.Invariant.{Holds, home}
use thingsetplusplus.Registry.Invariant.Register.{same_id, registered, pushed, push-Holds}

no_nodes-Holds : (info : Ptr → Node) → Holds info no_nodes (λ i. [])
no_nodes-Holds info = record {
  lists = λ i. record { chain = refl; distinct = tt; tail = refl };
  at_home = λ i p mem. cc;
  unlinked = λ p out. refl;
}

plain_id : (n : Node) → n.casts record_member ≡ false → effective_id n ≡ n.id
unfolding effective_id
plain_id n plain = rw plain

store_node-Holds :
    (info : Ptr → Node) (node : Ptr) (r : Registry) (bs : ℕ → List Ptr)
    → Holds info r bs
    → node ≢ null
    → (info node).casts record_member ≡ false
    → first (same_id info node) (bs (home (info node))) ≡ none
    → Holds info (store_node info node r) (registered info node bs)
unfolding store_node pushed
store_node-Holds info node r bs holds ne plain fresh =
    let id = plain_id (info node) plain in
    subst (λ i. Holds info (store_at i) (registered info node bs)) (ap bucket_of id)
      (push-Holds info node r bs holds ne fresh)
  where
    store_at : ℕ → Registry
    store_at i =
        let (l, next) = push_back node (r.buckets i, r.links) in
        record r { buckets = update r.buckets i l; links = next }

-- The registry starts in order: the root node, whose ID is 0, and the node for metadata, whose ID is 25, are
-- in their buckets, and nothing else is.
pub initial-Holds :
    (info : Ptr → Node) (root_node metadata_node : Ptr)
    → root_node ≢ null
    → metadata_node ≢ null
    → (info root_node).casts record_member ≡ false
    → (info metadata_node).casts record_member ≡ false
    → (info root_node).id ≡ 0
    → (info metadata_node).id ≡ 25
    → Holds info
        (initial info root_node metadata_node)
        (registered info metadata_node (registered info root_node (λ i. [])))
unfolding initial first
initial-Holds info root_node metadata_node ne ne' plain plain' id id' =
    let e = plain_id (info root_node) plain in
    let e' = plain_id (info metadata_node) plain' in
    store_node-Holds info metadata_node _ _
      (store_node-Holds info root_node no_nodes (λ i. []) (no_nodes-Holds info) ne plain refl) ne'
      plain' (ground (arith, e, e'))

-- ===== src/Registry.antt =====
-- src/ThingSetRegistry.cpp and include/thingset++/ThingSetRegistry.hpp, over the linked lists of
-- LinkedList.antt. `info` is what the virtual functions of the node at an address return. The lists of
-- the eight buckets share the member `list` of the nodes, `links` here, and the lists of the children
-- of each parent node share the member `children`, `child_links` here. Walks take fuel.
pub mod Identity
pub mod Lookup
pub mod Invariant
pub mod Examples
use thingsetplusplus.Prelude.{
  ℕ, zero, suc, ◌+◌, ◌*◌, ◌%◌, ◌^◌, Bool, true, false, not, ◌&&◌, bit_and, List, [], ◌∷◌, ◌++◌,
  Option, none, some, ◌==◌, if◌then◌else◌,
}
use mathlib.Core.Option
use mathlib.Core.List.{filter_map}
use thingsetplusplus.LinkedList.{
  Ptr, null, Links, State, LinkedList, empty, push_back, remove, visit, begin,
}
use thingsetplusplus.Flattening.{flatten, flatten_end, traverse}
use thingsetplusplus.Node.{Node, NodeType, has_children, a_record, record_member}
use thingsetplusplus.Outcome.{Outcome, done, aborted, out_of_fuel, ◌>>=◌, walk}

abbrev pub node_map_lookup_buckets : ℕ
node_map_lookup_buckets = 8

pub record Registry : Type 0 where
  pub buckets : ℕ → LinkedList
  pub links : Links
  pub children : Ptr → LinkedList
  pub child_links : Links

-- An entry of an array, or the member of one object, is overwritten.
abbrev pub update {ℓ} : {A : Type ℓ} → (ℕ → A) → ℕ → A → ℕ → A
update f i a j = if j == i then a else f j

-- The parameters are `uint16_t`, to which a wider argument is cut.
unfoldable pub calculate_id : ℕ → ℕ → ℕ
calculate_id id parent_id = ((parent_id % 2 ^ 16 % 255) * 0x10000 + id % 2 ^ 16 + 1) % 2 ^ 32

unfoldable pub effective_id : Node → ℕ
unfolding calculate_id
effective_id n = if n.casts record_member then calculate_id n.id n.parent_id else n.id

abbrev pub bucket_of : ℕ → ℕ
bucket_of id = id % node_map_lookup_buckets

-- `for (n : list) if (test(n)) return n;`
unfoldable pub find_in : ℕ → (Ptr → Bool) → Links → Ptr → Outcome (Option Ptr)
find_in zero test next node = out_of_fuel
find_in (suc fuel) test next node =
    let rest = find_in fuel test next (next node) in
    if node == null then done none else if test node then done (some node) else rest

keep : (Ptr → Bool) → List Ptr → List Ptr
keep test [] = []
keep test (x ∷ xs) = if test x then x ∷ keep test xs else keep test xs

-- `node->tryCastTo(ThingSetNodeType::hasChildren, &target)` on what a search found.
unfoldable pub as_parent : (Ptr → Node) → Option Ptr → Option Ptr
as_parent info none = none
as_parent info (some node) = if (info node).casts has_children then some node else none

-- The constructor: the root node and the node for metadata are put into the empty buckets.
abbrev pub no_nodes : Registry
no_nodes = record {
  buckets = λ i. empty;
  links = λ p. null;
  children = λ p. empty;
  child_links = λ p. null;
}

unfoldable pub store_node : (Ptr → Node) → Ptr → Registry → Registry
store_node info node r =
    let i = bucket_of (info node).id in
    let (l, next) = push_back node (r.buckets i, r.links) in
    record r { buckets = update r.buckets i l; links = next }

unfoldable pub initial : (Ptr → Node) → Ptr → Ptr → Registry
unfolding store_node
initial info root_node metadata_node =
    store_node info metadata_node (store_node info root_node no_nodes)

module _ (info : Ptr → Node) (fuel : ℕ) where
  unfoldable pub find_by_id_in_node_list : LinkedList → Links → ℕ → Outcome (Option Ptr)
  unfolding begin
  find_by_id_in_node_list list links id = find_in fuel (λ n. (info n).id == id) links (begin list)

  unfoldable pub find_by_id : Registry → ℕ → Outcome (Option Ptr)
  unfolding find_by_id_in_node_list
  find_by_id r id = find_by_id_in_node_list (r.buckets (bucket_of id)) r.links id

  unfoldable pub find_parent_by_id : Registry → ℕ → Outcome (Option Ptr)
  unfolding as_parent
  find_parent_by_id r id = do found ← find_by_id r id; done (as_parent info found)

  -- The member of one record, by its ID and the ID of the record.
  unfoldable pub find_member_by_id : Registry → ℕ → ℕ → Outcome (Option Ptr)
  unfolding find_parent_by_id begin
  find_member_by_id r id parent_id = do
    found ← find_parent_by_id r parent_id
    elim found [
      | none ↦ done none
      | some parent ↦
          if (info parent).casts a_record
          then find_in fuel (λ n. (info n).id == id && (info n).parent_id == parent_id) r.links
              (begin (r.buckets (bucket_of (calculate_id id parent_id))))
          else done none
    ]

  -- ThingSetParentNode::addChild and removeChild.
  unfoldable pub add_child : Ptr → Ptr → Registry → Registry
  add_child parent child r =
      let (l, next) = push_back child (r.children parent, r.child_links) in
      record r { children = update r.children parent l; child_links = next }

  unfoldable pub remove_child : Ptr → Ptr → Registry → Outcome Registry
  remove_child parent child r = do
    (found, (l, next)) ← walk (remove fuel child (r.children parent, r.child_links))
    done (record r { children = update r.children parent l; child_links = next })

  unfoldable pub on_parent :
      (Ptr → Registry → Outcome Registry) → Option Ptr → Registry → Outcome Registry
  on_parent parent_node_action none r = done r
  on_parent parent_node_action (some parent) r = parent_node_action parent r

  -- The second half of `registerOrUnregisterNode`: the parent, if it is registered, is told.
  unfoldable pub tell_parent :
      Ptr → (Ptr → Registry → Outcome Registry) → Registry → Outcome Registry
  unfolding on_parent
  tell_parent node parent_node_action r =
      let told = (do
        found ← find_parent_by_id r (info node).parent_id
        on_parent parent_node_action found r) in
      if (info node).parent_id == effective_id (info node) then done r else told

  unfoldable pub register_or_unregister_node :
      Ptr
      → (State → Outcome State)
      → (Ptr → Registry → Outcome Registry)
      → Registry
      → Outcome Registry
  unfolding tell_parent
  register_or_unregister_node node node_list_action parent_node_action r = do
    let i = bucket_of (effective_id (info node))
    (l, next) ← node_list_action (r.buckets i, r.links)
    tell_parent node parent_node_action (record r { buckets = update r.buckets i l; links = next })

  -- The action of `registerNode` on the bucket. With assertions compiled in (`ndebug` is false) a
  -- duplicate ends the program; without them the action returns early.
  unfoldable pub push_unless_duplicate : Bool → Ptr → State → Outcome State
  unfolding begin
  push_unless_duplicate ndebug node (l, next) = do
    duplicate ←
        find_in fuel (λ en. effective_id (info en) == effective_id (info node)) next (begin l)
    elim duplicate [
      | none ↦ done (push_back node (l, next))
      | some en ↦ if ndebug then done (l, next) else aborted
    ]

  -- The nodes of the buckets, in order, as the loops over the registry read them.
  unfoldable pub visit_buckets : ℕ → ℕ → Registry → Outcome (List (List Ptr))
  unfolding begin
  visit_buckets zero i r = done []
  visit_buckets (suc k) i r = do
    nodes ← walk (visit fuel r.links (begin (r.buckets i)))
    rest ← visit_buckets k (i + 1) r
    done (nodes ∷ rest)

  unfoldable pub nodes : Registry → Outcome (List Ptr)
  unfolding visit_buckets
  nodes r = do
    buckets ← visit_buckets node_map_lookup_buckets 0 r
    read ← walk (traverse fuel (flatten buckets) flatten_end)
    done (filter_map (λ n. n) read)

  -- `nodesInSubset`: the nodes whose subset mask has every bit of `subset`.
  unfoldable pub nodes_in_subset : ℕ → Registry → Outcome (List Ptr)
  unfolding keep
  nodes_in_subset subset r = do
    all ← nodes r
    done (keep (λ n. bit_and (info n).subsets subset == subset) all)

  -- The loop of `registerNode` over the nodes that were registered before their parent.
  unfoldable pub adopt : Ptr → List Ptr → Registry → Registry
  adopt node [] r = r
  adopt node (n ∷ ns) r =
      adopt node ns (if (info n).parent_id == (info node).id then add_child node n r else r)

  unfoldable pub register_node : Bool → Ptr → Registry → Outcome Registry
  register_node ndebug node r = do
    r' ←
        register_or_unregister_node node (push_unless_duplicate ndebug node)
          (λ p s. done (add_child p node s)) r
    elim ((info node).casts has_children) [
      | true ↦ do ns ← nodes r'; done (adopt node ns r')
      | false ↦ done r'
    ]

  unfoldable pub unregister_node : Ptr → Registry → Outcome Registry
  unregister_node node r =
      register_or_unregister_node node
        (λ s. walk (Option.map (λ (found, t). t) (remove fuel node s)))
        (λ p s. remove_child p node s) r

-- ===== src/Registry/Examples.antt =====
-- A registry of two nodes, and the theorems on src/ThingSetRegistry.cpp and src/ThingSetParentNode.cpp
-- at it.
use thingsetplusplus.Prelude.{
  ℕ, ◌<◌, ◌≡◌, ◌≢◌, refl, Bool, true, false, List, [], ◌∷◌, none, some, arith, ◌==◌, if◌then◌else◌,
  length,
}
use thingsetplusplus.LinkedList.{Ptr, null, LinkedList, empty}
use thingsetplusplus.LinkedList.Segment.{has, IsList}
use thingsetplusplus.Node.{
  Node, NodeType, has_children, encodable, decodable, record_member, user_read, any_read_write,
}
use thingsetplusplus.Outcome.{done, aborted}
use thingsetplusplus.ParentNode.{Found, find_by_name}
use thingsetplusplus.ParentNode.Resolve.{join, found, resolve, find_by_name-resolve}
use thingsetplusplus.Registry.{
  Registry, effective_id, find_by_id, find_in, find_parent_by_id, register_node, unregister_node,
  initial,
}
use thingsetplusplus.Registry.Identity.{effective_id_clash}
use thingsetplusplus.Registry.Lookup.{first}
use thingsetplusplus.Registry.Invariant.{Holds, home, total}
use thingsetplusplus.Registry.Invariant.Initial.{initial-Holds}
use thingsetplusplus.Registry.Invariant.Register.{registered, same_id, register_node-Holds}
use thingsetplusplus.Registry.Invariant.Unregister.{unregistered, ChildLists, unregister_node-Holds}
use thingsetplusplus.Registry.Invariant.Duplicate.{register_node-duplicate}
use thingsetplusplus.Registry.Invariant.Lookup.{find_by_id-register_node}
use thingsetplusplus.Flattening.Traverse.{concat}

abbrev is_group : NodeType → Bool
is_group has_children = true
is_group _ = false

abbrev is_property : NodeType → Bool
is_property encodable = true
is_property decodable = true
is_property _ = false

-- A group "g", a value "v" in it, and any number of further values outside groups.
abbrev pub group_node : Node
group_node = record {
  name = 103 ∷ [];
  id = 16;
  parent_id = 0;
  access = any_read_write;
  subsets = 0;
  casts = is_group;
}

abbrev pub value_node : Node
value_node = record {
  name = 118 ∷ [];
  id = 17;
  parent_id = 16;
  access = user_read;
  subsets = 0;
  casts = is_property;
}

abbrev pub other_node : Node
other_node = record {
  name = 119 ∷ [];
  id = 18;
  parent_id = 16;
  access = any_read_write;
  subsets = 0;
  casts = is_property;
}

abbrev pub info : Ptr → Node
info p = if p == 1 then group_node else if p == 2 then value_node else other_node

abbrev single : Ptr → LinkedList
single p = record { head = p; tail = p }

abbrev pub two_nodes : Registry
two_nodes = record {
  buckets = λ i. if i == 0 then single 1 else if i == 1 then single 2 else empty;
  links = λ p. null;
  children = λ p. if p == 1 then single 2 else empty;
  child_links = λ p. null;
}

abbrev pub held : ℕ → List Ptr
held i = if i == 0 then 1 ∷ [] else if i == 1 then 2 ∷ [] else []

abbrev pub kids : Ptr → List Ptr
kids p = if p == 1 then 2 ∷ [] else []

pub info-id : (p : Ptr) → (info p).id < 65536
info-id p = ground arith

two_nodes-lists : (i : ℕ) → IsList (two_nodes.buckets i, two_nodes.links) (held i)
two_nodes-lists i = ground arith

two_nodes-at_home : (i : ℕ) (p : Ptr) → has p (held i) ≡ true → home (info p) ≡ i
unfolding effective_id
two_nodes-at_home i p h = ground arith

pub two_nodes-Holds : Holds info two_nodes held
two_nodes-Holds = record {
  lists = two_nodes-lists;
  at_home = two_nodes-at_home;
  unlinked = λ p h. refl;
}

pub two_nodes-total : total held < 10
unfolding concat
two_nodes-total = omega arith

pub two_nodes-kids : (p : Ptr) → IsList (two_nodes.children p, two_nodes.child_links) (kids p)
two_nodes-kids p = ground arith

pub kids-length : (p : Ptr) → length (kids p) < 10
kids-length p = ground arith

-- Node 3 duplicates neither, and is registered behind node 1's and 2's buckets.
fresh : first (same_id info 3) (held (home (info 3))) ≡ none
unfolding first effective_id
fresh = refl

grown : total (registered info 3 held) < 10
unfolding concat effective_id
grown = omega arith

other_node-plain : (info 3).casts record_member ≡ false
other_node-plain = refl

three_nodes :
    (t : Registry) × (register_node info 10 false 3 two_nodes ≡ done t)
    × Holds info t (registered info 3 held)
three_nodes =
    register_node-Holds info 10 false 3 two_nodes held two_nodes-Holds grown (λ e. omega arith)
      fresh

register_node-Holds_example :
    (t : Registry) × (register_node info 10 false 3 two_nodes ≡ done t)
    × Holds info t (registered info 3 held)
register_node-Holds_example =
    register_node-Holds info 10 false 3 two_nodes held two_nodes-Holds grown (λ e. omega arith)
      fresh

find_by_id-register_node_example : find_by_id info 10 three_nodes.0 18 ≡ done (some 3)
find_by_id-register_node_example =
    find_by_id-register_node info info-id 10 false 3 two_nodes three_nodes.0 held two_nodes-Holds
      grown (λ e. omega arith) other_node-plain fresh three_nodes.1

found_value : find_by_id info 10 two_nodes 17 ≡ done (some 2)
unfolding find_by_id find_in
found_value = refl

child_lists : ChildLists 10 two_nodes
child_lists p = (kids p, two_nodes-kids p, kids-length p)

value_held : has 2 (held (home (info 2))) ≡ true
unfolding effective_id
value_held = refl

shrunk : total (unregistered info 2 held) < 10
unfolding concat effective_id
shrunk = omega arith

unregister_node-Holds_example :
    (t : Registry) × (unregister_node info 10 2 two_nodes ≡ done t)
    × Holds info t (unregistered info 2 held)
    × (t.links 2 ≡ null)
unregister_node-Holds_example =
    unregister_node-Holds info 10 2 two_nodes held two_nodes-Holds two_nodes-total child_lists
      value_held shrunk

-- Address 5 is a second object with the ID of the value, under the same parent.
duplicated : Ptr → Node
duplicated p = if p == 5 then value_node else info p

duplicated-Holds : Holds duplicated two_nodes held
unfolding duplicated effective_id
duplicated-Holds = record {
  lists = two_nodes-lists;
  at_home = λ i p h. ground arith;
  unlinked = λ p h. refl;
}

taken_id : first (same_id duplicated 5) (held (home (duplicated 5))) ≡ some 2
unfolding first effective_id duplicated
taken_id = refl

leaf : (duplicated 5).casts has_children ≡ false
unfolding duplicated
leaf = refl

under_group : (duplicated 5).parent_id ≢ effective_id (duplicated 5)
unfolding duplicated effective_id
under_group = λ e. omega arith

parent_found : find_parent_by_id duplicated 10 two_nodes (duplicated 5).parent_id ≡ done (some 1)
unfolding find_parent_by_id duplicated find_by_id find_in
parent_found = refl

register_node-duplicate_example :
    (register_node duplicated 10 false 5 two_nodes ≡ aborted)
    × (t : Registry) × (register_node duplicated 10 true 5 two_nodes ≡ done t)
    × (t.buckets ≡ two_nodes.buckets)
    × (t.links ≡ two_nodes.links)
    × IsList (t.children 1, t.child_links) (2 ∷ 5 ∷ [])
register_node-duplicate_example =
    register_node-duplicate duplicated 10 5 two_nodes held duplicated-Holds two_nodes-total 2
      taken_id 1 (2 ∷ []) leaf under_group parent_found (two_nodes-kids 1) (λ e. omega arith) refl
      refl

abbrev is_member : NodeType → Bool
is_member record_member = true
is_member _ = false

abbrev member_node : Node
member_node = record {
  name = 109 ∷ [];
  id = 17;
  parent_id = 510;
  access = user_read;
  subsets = 0;
  casts = is_member;
}

effective_id_clash_example : effective_id member_node ≡ effective_id other_node
effective_id_clash_example =
    effective_id_clash member_node other_node (omega arith) (omega arith) refl refl refl refl

-- The path "g/v", from a root at address 4 whose child is the group.
abbrev rooted : Registry
rooted = record two_nodes {
  children = λ p. if p == 4 then single 1 else if p == 1 then single 2 else empty;
}

abbrev rooted_kids : Ptr → List Ptr
rooted_kids p = if p == 4 then 1 ∷ [] else if p == 1 then 2 ∷ [] else []

rooted-lists : (p : Ptr) → IsList (rooted.children p, rooted.child_links) (rooted_kids p)
rooted-lists p = ground arith

rooted-length : (p : Ptr) → length (rooted_kids p) < 10
rooted-length p = ground arith

find_by_name-resolve_example :
    (f : Found) × (find_by_name info (λ p. none) rooted 10 5 4 (join (103 ∷ []) ((118 ∷ []) ∷ []))
      ≡ done f)
    × (found f ≡ resolve info rooted_kids 4 (103 ∷ []) ((118 ∷ []) ∷ []))
find_by_name-resolve_example =
    find_by_name-resolve info (λ p. none) rooted 10 rooted_kids rooted-lists rooted-length
      (λ p. refl) 5 4 (103 ∷ []) ((118 ∷ []) ∷ []) (refl, (refl, tt)) (omega arith)

-- The nodes of the constructor, at the addresses 6 and 7.
abbrev root_node : Node
root_node = record {
  name = [];
  id = 0;
  parent_id = 0;
  access = user_read;
  subsets = 0;
  casts = is_group;
}

abbrev metadata_node : Node
metadata_node = record {
  name = 95 ∷ [];
  id = 25;
  parent_id = 0;
  access = user_read;
  subsets = 0;
  casts = is_group;
}

abbrev overlays : Ptr → Node
overlays p = if p == 6 then root_node else if p == 7 then metadata_node else info p

initial-Holds_example :
    Holds overlays (initial overlays 6 7) (registered overlays 7 (registered overlays 6 (λ i. [])))
initial-Holds_example =
    initial-Holds overlays 6 7 (λ e. omega arith) (λ e. omega arith) refl refl refl refl

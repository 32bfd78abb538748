-- ===== src/ParentNode.antt =====
-- src/ThingSetParentNode.cpp: nodes found by path among the children that the registry links, with
-- the override for arrays of records of include/thingset++/ThingSetProperty.hpp.
pub mod Resolve
pub mod Termination
use thingsetplusplus.Prelude.{
  ℕ, zero, suc, Bool, true, false, not, ◌&&◌, List, [], ◌∷◌, Option, none, some, if◌then◌else◌, ltb,
}
use thingsetplusplus.Bytes.{equal, split_at, is_digit, atoi}
use thingsetplusplus.LinkedList.{Ptr, begin}
use thingsetplusplus.Node.{Node, Name, has_children}
use thingsetplusplus.Outcome.{Outcome, done, out_of_fuel, ◌>>=◌}
use thingsetplusplus.Registry.{Registry, find_in}

-- What the function returns and writes through its pointers; an index `none` is SIZE_MAX.
pub record Found : Type 0 where
  pub success : Bool
  pub node : Ptr
  pub index : Option ℕ

abbrev pub is_none : Option Name → Bool
is_none none = true
is_none (some _) = false

-- The override: `size` is the length of the array if the node is an array of records.
unfoldable pub find_by_index : Option ℕ → Name → Found → Found
find_by_index none name found = found
find_by_index (some size) [] found = found
find_by_index (some size) (c ∷ cs) found =
    if is_digit c
    then record found { success = ltb (atoi (c ∷ cs)) size; index = some (atoi (c ∷ cs)) }
    else found

-- `info` is what virtual functions return, `array_size` the length of a node that is an array of
-- records, and `steps` bounds the walk along the children of one node.
module _ (info : Ptr → Node) (array_size : Ptr → Option ℕ) (r : Registry) (steps : ℕ) where
  -- What is done with the first child that has the name sought; `find` is the call on that child.
  unfoldable pub descend :
      (Ptr → Name → Outcome Found) → Ptr → Option Name → Option Ptr → Outcome Found
  descend find this rest none = done (record { success = false; node = this; index = none })
  descend find this none (some child) = done (record { success = true; node = child; index = none })
  descend find this (some rest) (some child) =
      if (info child).casts has_children
      then find child rest
      else done (record { success = false; node = child; index = none })

  -- ThingSetParentNode::findByName; `find` is the virtual call on a child.
  unfoldable pub find_by_name_base : (Ptr → Name → Outcome Found) → Ptr → Name → Outcome Found
  unfolding descend
  find_by_name_base find this name =
      let (token, rest) = split_at b'/' name in
      if equal (info this).name token && is_none rest
      then done (record { success = true; node = this; index = none })
      else do
        child ←
            find_in steps (λ c. equal (info c).name token) r.child_links (begin (r.children this))
        descend find this rest child

  -- The virtual function, on at most as many levels as there is fuel.
  unfoldable pub find_by_name : ℕ → Ptr → Name → Outcome Found
  unfolding find_by_name_base find_by_index
  find_by_name zero this name = out_of_fuel
  find_by_name (suc fuel) this name = do
    found ← find_by_name_base (find_by_name fuel) this name
    done (find_by_index (array_size this) name found)

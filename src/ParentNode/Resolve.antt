-- ===== src/ParentNode/Resolve.antt =====
-- What `findByName` of src/ThingSetParentNode.cpp finds for a path of names.
use thingsetplusplus.Prelude.{
  ℕ, zero, suc, ◌<◌, ◌≡◌, refl, inl, inr, Bool, true, false, ◌&&◌, List, [], ◌∷◌, ◌++◌, Option,
  none, some, arith, if◌then◌else◌, length, Bool-cases,
}
use thingsetplusplus.Bytes.{equal, lacks, split_at-lacks, split_at-append}
use thingsetplusplus.LinkedList.{Ptr, begin}
use thingsetplusplus.LinkedList.Segment.{IsList}
use thingsetplusplus.Node.{Node, Name, has_children}
use thingsetplusplus.Outcome.{Outcome, done, ◌>>=◌}
use thingsetplusplus.Registry.{Registry, find_in}
use thingsetplusplus.Registry.Lookup.{first, find_in-first}
use thingsetplusplus.ParentNode.{Found, find_by_name, find_by_index, descend}

and_false : (b : Bool) → (b && false) ≡ false
and_false b = ground arith

-- The path of a first name and further ones.
unfoldable pub join : Name → List Name → Name
join name [] = name
join name (next ∷ more) = name ++ b'/' ∷ join next more

-- No name holds a slash.
abbrev pub Plain : List Name → Type 0
Plain [] = Unit {0}
Plain (name ∷ more) = (lacks b'/' name ≡ true) × Plain more

-- The node that was found, if there is one.
abbrev pub found : Found → Option Ptr
found f = if f.success then some f.node else none

abbrev pub named : (Ptr → Node) → Name → Ptr → Bool
named info name c = equal (info c).name name

abbrev pub and_then : Option Ptr → (Ptr → Option Ptr) → Option Ptr
and_then none f = none
and_then (some a) f = f a

-- The specification. Each name but the last leads to the first child of that name, which must be able
-- to have children; the last one may also be the name of the node itself.
unfoldable pub resolve : (Ptr → Node) → (Ptr → List Ptr) → Ptr → Name → List Name → Option Ptr
resolve info children this name [] =
    if named info name this then some this else first (named info name) (children this)
resolve info children this name (next ∷ more) =
    and_then (first (named info name) (children this)) λ child.
      if (info child).casts has_children then resolve info children child next more else none

module _ (info : Ptr → Node) (array_size : Ptr → Option ℕ) (r : Registry) (steps : ℕ)
    (children : Ptr → List Ptr)
    (lists : (p : Ptr) → IsList (r.children p, r.child_links) (children p))
    (enough : (p : Ptr) → length (children p) < steps)
    (no_arrays : (p : Ptr) → array_size p ≡ none) where
  first_child :
      (this : Ptr) (name : Name)
      → find_in steps (named info name) r.child_links (begin (r.children this))
        ≡ done (first (named info name) (children this))
  unfolding begin
  first_child this name =
      find_in-first steps _ r.child_links _ (children this) (enough this) (lists this).chain

  -- A call that ends and finds what is given.
  abbrev Finds : Outcome Found → Option Ptr → Type 0
  Finds call o = (f : Found) × (call ≡ done f) × (found f ≡ o)

  -- The end of a path: the child that was found is the result.
  descend_last :
      (find : Ptr → Name → Outcome Found) (this : Ptr) (name : Name) (child : Option Ptr)
      → Finds
          (do
            f ← descend info array_size r steps find this none child
            done (find_by_index none name f))
          child
  unfolding descend find_by_index
  descend_last find this name none = (_, refl, refl)
  descend_last find this name (some child) = (_, refl, refl)

  -- Further names: the search goes on in a child that can have children.
  descend_on :
      (find : Ptr → Name → Outcome Found) (this : Ptr) (name rest : Name) (child : Option Ptr)
      (goal : Ptr → Option Ptr)
      → ((c : Ptr) → Finds (find c rest) (goal c))
      → Finds
          (do
            f ← descend info array_size r steps find this (some rest) child
            done (find_by_index none name f))
          (and_then child (λ c. if (info c).casts has_children then goal c else none))
  unfolding descend find_by_index
  descend_on find this name rest none goal below = (_, refl, refl)
  descend_on find this name rest (some c) goal below =
      let (f, e, same) = below c in
      elim (Bool-cases ((info c).casts has_children)) [
        | inl group ↦ rw (group, e) (f, refl, same)
        | inr leaf ↦ rw leaf (_, refl, refl)
      ]

  -- If no node is an array of records, whose index `findByName` would read from the path, then with more levels of
  -- calls than names in the path `findByName` ends, and finds what the path resolves to:
  -- each name but the last leads to the first child of that name, which must be able to have children, and
  -- the last one may also be the name of the node itself. For names without a slash, lists of children that
  -- are in order, and more steps than any node has children.
  pub find_by_name-resolve :
      (fuel : ℕ) (this : Ptr) (name : Name) (more : List Name)
      → Plain (name ∷ more)
      → length more < fuel
      → (f : Found) × (find_by_name info array_size r steps fuel this (join name more) ≡ done f)
        × (found f ≡ resolve info children this name more)
  unfolding find_by_name join resolve
  find_by_name-resolve zero this name more plain h = absurd (omega arith)
  find_by_name-resolve (suc fuel) this name [] plain h = elim (Bool-cases (named info name this)) [
    | inl own ↦ rw (split_at-lacks b'/' name plain.0, own, no_arrays this) (_, refl, refl)
    | inr other ↦
        rw (split_at-lacks b'/' name plain.0, other, no_arrays this, first_child this name)
          (descend_last (find_by_name info array_size r steps fuel) this name
            (first (named info name) (children this)))
  ]
  find_by_name-resolve (suc fuel) this name (next ∷ more) plain h =
      rw
        (
          split_at-append b'/' name (join next more) plain.0,
          and_false (named info name this),
          no_arrays this,
          first_child this name,
        )
        (descend_on (find_by_name info array_size r steps fuel) this (join name (next ∷ more))
          (join next more) (first (named info name) (children this))
          (λ c. resolve info children c next more)
          (λ c. find_by_name-resolve fuel c next more plain.1 (omega arith)))

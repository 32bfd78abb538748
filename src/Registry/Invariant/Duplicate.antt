-- ===== src/Registry/Invariant/Duplicate.antt =====
-- `registerNode` of src/ThingSetRegistry.cpp on a node whose effective ID is taken.
use thingsetplusplus.Prelude.{
  ℕ, ◌<◌, ◌≡◌, ◌≢◌, refl, Bool, true, false, List, [], ◌∷◌, ◌++◌, some, arith, ◌==◌, if◌then◌else◌,
}
use mathlib.Core.Path.{fun_ext}
use thingsetplusplus.LinkedList.{Ptr, null}
use thingsetplusplus.LinkedList.Segment.{has, IsList}
use thingsetplusplus.LinkedList.Push.{push_back-IsList}
use thingsetplusplus.Node.{Node, has_children}
use thingsetplusplus.Outcome.{done, aborted}
use thingsetplusplus.Registry.{
  Registry, update, effective_id, push_unless_duplicate, register_node, add_child,
  register_or_unregister_node, find_parent_by_id, tell_parent,
}
use thingsetplusplus.Registry.Lookup.{first, find_in-first}
use thingsetplusplus.Registry.Invariant.{Holds, home, total}
use thingsetplusplus.Registry.Invariant.Find.{bucket_of-le}
use thingsetplusplus.Registry.Invariant.Register.{same_id}

-- Writing back what is there.
same_buckets : (r : Registry) (i : ℕ) → record r { buckets = update r.buckets i (r.buckets i) } ≡ r
same_buckets r i = λ k. record r { buckets = fun_ext (λ j. back j) k }
  where
    back : (j : ℕ) → update r.buckets i (r.buckets i) j ≡ r.buckets j
    back j = ground arith

not-eq : {a b : ℕ} → a ≢ b → (a == b) ≡ false
not-eq h = ground arith

update-same : {A : Type 0} → (f : ℕ → A) (i : ℕ) (v : A) → update f i v i ≡ v
update-same f i v = ground arith

module _ (info : Ptr → Node) (fuel : ℕ) (node : Ptr) (r : Registry) (bs : ℕ → List Ptr)
    (holds : Holds info r bs) (enough : total bs < fuel) (en : Ptr)
    (duplicate : first (same_id info node) (bs (home (info node))) ≡ some en) where
  push_unless_duplicate-taken :
      (ndebug : Bool)
      → push_unless_duplicate info fuel ndebug node (r.buckets (home (info node)), r.links)
        ≡ (if ndebug then done (r.buckets (home (info node)), r.links) else aborted)
  unfolding push_unless_duplicate
  push_unless_duplicate-taken ndebug = rw (
    find_in-first fuel (same_id info node) r.links _ (bs (home (info node)))
        (omega (arith, bucket_of-le bs (effective_id (info node))))
        (holds.lists (home (info node))).chain,
    duplicate,
  )

  -- Take a leaf whose effective ID another registered node has, which is in no list of children, and
  -- whose parent, with another ID, is registered, in a registry in order and with more steps than it
  -- has nodes. Its registration ends the program where assertions are compiled in. Where they are not,
  -- the buckets and their links stay as they are, but the leaf becomes the last child of that parent
  -- all the same.
  pub register_node-duplicate :
      (parent : Ptr) (xs : List Ptr)
      → (info node).casts has_children ≡ false
      → (info node).parent_id ≢ effective_id (info node)
      → find_parent_by_id info fuel r (info node).parent_id ≡ done (some parent)
      → IsList (r.children parent, r.child_links) xs
      → node ≢ null
      → r.child_links node ≡ null
      → has node xs ≡ false
      → (register_node info fuel false node r ≡ aborted)
        × (t : Registry) × (register_node info fuel true node r ≡ done t)
        × (t.buckets ≡ r.buckets)
        × (t.links ≡ r.links)
        × IsList (t.children parent, t.child_links) (xs ++ node ∷ [])
  unfolding register_node register_or_unregister_node tell_parent add_child
  register_node-duplicate parent xs leaf other found children ne unlinked fresh = (
    rw (push_unless_duplicate-taken false),
    add_child info fuel parent node r,
    rw (
      push_unless_duplicate-taken true,
      same_buckets r (home (info node)),
      not-eq other,
      found,
      leaf,
    ),
    refl,
    refl,
    rw (update-same r.children parent _)
        (push_back-IsList node (r.children parent, r.child_links) xs children ne unlinked fresh).0,
  )

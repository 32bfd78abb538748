-- ===== src/Registry/Invariant/Unregister.antt =====
-- `unregisterNode` of src/ThingSetRegistry.cpp on the buckets.
use thingsetplusplus.Prelude.{
  ℕ, ◌<◌, ◌≡◌, refl, inl, inr, true, false, List, arith, ◌==◌, length, Bool-cases,
}
use thingsetplusplus.LinkedList.{Ptr, null, State}
use thingsetplusplus.LinkedList.Segment.{
  has, erase, IsList, IsList-frame, has-erase, has-erase-cases, has-erase_self, Distinct,
}
use thingsetplusplus.LinkedList.Remove.{Taken, remove-Taken, remove-absent}
use thingsetplusplus.Node.{Node}
use thingsetplusplus.Outcome.{done}
use thingsetplusplus.Registry.{
  Registry, update, effective_id, unregister_node, remove_child, register_or_unregister_node,
}
use thingsetplusplus.Registry.Invariant.{Holds, home, total}
use thingsetplusplus.Registry.Invariant.Find.{bucket_of-le}
use thingsetplusplus.Registry.Invariant.Register.{apart, tell_parent-Holds, Holds-children}

-- The buckets without the node.
abbrev pub unregistered : (Ptr → Node) → Ptr → (ℕ → List Ptr) → ℕ → List Ptr
unregistered info node bs = update bs (home (info node)) (erase node (bs (home (info node))))

-- The children of every node are a list that is shorter than the number of steps.
abbrev pub ChildLists : ℕ → Registry → Type 0
ChildLists fuel r =
    (p : Ptr) → (xs : List Ptr) × IsList (r.children p, r.child_links) xs × (length xs < fuel)

module _ (info : Ptr → Node) (node : Ptr) (r : Registry) (bs : ℕ → List Ptr)
    (holds : Holds info r bs) (t : State)
    (taken : Taken node (bs (home (info node))) (r.buckets (home (info node)), r.links) t) where
  taken-unlinked :
      (p : Ptr) → has p (unregistered info node bs (home (info p))) ≡ false → t.1 p ≡ null
  taken-unlinked p out = elim (Bool-cases (has p (bs (home (info node))))) [
    | inl mem ↦ ground (
      arith,
      holds.at_home (home (info node)) p mem,
      has-erase-cases p node (bs (home (info node))) mem,
      taken.unlinked,
    )
    | inr other ↦ ground (arith, taken.same p other, holds.unlinked p)
  ]

  taken-home : (i : ℕ) (p : Ptr) → has p (unregistered info node bs i) ≡ true → home (info p) ≡ i
  taken-home i p mem = ground (arith, holds.at_home i p, has-erase p node (bs (home (info node))))

  taken-Holds :
      Holds info
        (record r { buckets = update r.buckets (home (info node)) t.0; links = t.1 })
        (unregistered info node bs)
  taken-Holds = record {
    lists = λ i. elim (Bool-cases (i == home (info node))) [
      | inl here ↦ rw here taken.left
      | inr other ↦ rw other (
          IsList-frame (r.buckets i) r.links t.1 (bs i)
            (λ a mem. taken.same a (apart info node r bs holds i a other mem)) (holds.lists i))
    ];
    at_home = taken-home;
    unlinked = taken-unlinked;
  }

module _ (info : Ptr → Node) (fuel : ℕ) (node : Ptr) (r : Registry) (bs : ℕ → List Ptr)
    (holds : Holds info r bs) where
  remove_child-Holds :
      (p : Ptr)
      → ChildLists fuel r
      → (t : Registry) × (remove_child info fuel p node r ≡ done t) × Holds info t bs
  unfolding remove_child
  remove_child-Holds p lists =
      let (xs, is, fits) = lists p in
      elim (Bool-cases (has node xs)) [
        | inl mem ↦
            let (t, e, taken) = remove-Taken fuel node _ xs is fits mem in
            rw e (_, refl, Holds-children info r bs _ _ holds)
        | inr out ↦
            rw (remove-absent fuel node _ xs is fits out)
              (_, refl, Holds-children info r bs _ _ holds)
      ]

module _ (info : Ptr → Node) (fuel : ℕ) (node : Ptr) (r : Registry) (bs : ℕ → List Ptr)
    (holds : Holds info r bs) (enough : total bs < fuel) (children : ChildLists fuel r)
    (mem : has node (bs (home (info node))) ≡ true)
    (enough' : total (unregistered info node bs) < fuel) where
  gone :
      Distinct (bs (home (info node)))
      → has node (unregistered info node bs (home (info node))) ≡ false
  gone distinct = ground (arith, has-erase_self node (bs (home (info node))) distinct)

  -- A registered node is taken out of its bucket, all other nodes stay in theirs in the same order, and
  -- the node is not linked any more, so that it can be registered again. For a registry and lists of
  -- children in order, and more steps than they have nodes.
  pub unregister_node-Holds :
      (t : Registry) × (unregister_node info fuel node r ≡ done t)
      × Holds info t (unregistered info node bs)
      × (t.links node ≡ null)
  unfolding unregister_node register_or_unregister_node
  unregister_node-Holds =
      let (s, e, taken) =
        remove-Taken fuel node _ _ (holds.lists (home (info node)))
          (omega (arith, bucket_of-le bs (effective_id (info node)))) mem in
      let after = taken-Holds info node r bs holds s taken in
      let (t, e', h) =
        tell_parent-Holds info fuel node (λ p s. remove_child info fuel p node s) _ _ after enough'
          (λ p. remove_child-Holds info fuel node _ _ after p children) in
      rw (e, e') (t, refl, h, h.unlinked node (gone (holds.lists (home (info node))).distinct))

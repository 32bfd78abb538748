-- ===== src/Registry/Invariant/Register.antt =====
-- `registerNode` and `unregisterNode` of src/ThingSetRegistry.cpp on the buckets.
use thingsetplusplus.Prelude.{
  ℕ, ◌<◌, ◌≡◌, ◌≢◌, refl, inl, inr, Bool, true, false, List, [], ◌∷◌, ◌++◌, Option, none, some,
  arith, ◌==◌, length, length-append, Bool-cases, ap,
}
use thingsetplusplus.LinkedList.{Ptr, null, Links, LinkedList, State, push_back}
use thingsetplusplus.LinkedList.Segment.{has, IsList, IsList-frame, has-append}
use thingsetplusplus.LinkedList.Push.{push_back-IsList}
use thingsetplusplus.Node.{Node, has_children}
use thingsetplusplus.Outcome.{Outcome, done}
use thingsetplusplus.Registry.{
  Registry, update, effective_id, bucket_of, push_unless_duplicate, register_node, add_child, adopt,
  register_or_unregister_node, tell_parent, on_parent, as_parent,
}
use thingsetplusplus.Registry.Lookup.{first, find_in-first, first-none}
use thingsetplusplus.Registry.Invariant.{Holds, home, total}
use thingsetplusplus.Registry.Invariant.Find.{bucket_of-le, find_parent_by_id-first, nodes_lem}

abbrev pub same_id : (Ptr → Node) → Ptr → Ptr → Bool
same_id info node en = effective_id (info en) == effective_id (info node)

module _ (info : Ptr → Node) (node : Ptr) (r : Registry) (bs : ℕ → List Ptr)
    (holds : Holds info r bs) where
  -- A node that no registered node duplicates is not registered itself.
  absent :
      first (same_id info node) (bs (home (info node))) ≡ none
      → has node (bs (home (info node))) ≡ false
  absent e = elim (Bool-cases (has node (bs (home (info node))))) [
    | inl mem ↦ ground (arith, first-none (same_id info node) (bs (home (info node))) node e mem)
    | inr out ↦ out
  ]

  -- A node of another bucket is not in this one.
  pub apart :
      (i : ℕ) (a : Ptr)
      → (i == home (info node)) ≡ false
      → has a (bs i) ≡ true
      → has a (bs (home (info node))) ≡ false
  apart i a other mem = elim (Bool-cases (has a (bs (home (info node))))) [
    | inl here ↦ ground (arith, holds.at_home i a, holds.at_home (home (info node)) a)
    | inr out ↦ out
  ]

  module _ (ne : node ≢ null)
      (fresh : first (same_id info node) (bs (home (info node))) ≡ none) where
    unfoldable pub pushed : State
    pushed = push_back node (r.buckets (home (info node)), r.links)

    pushed_lem :
        IsList pushed (bs (home (info node)) ++ node ∷ [])
        × ((b : Ptr) → has b (bs (home (info node))) ≡ false → pushed.1 b ≡ r.links b)
    unfolding pushed
    pushed_lem =
        push_back-IsList node _ _ (holds.lists (home (info node))) ne
          (holds.unlinked node (absent fresh)) (absent fresh)

    pushed-home :
        (i : ℕ) (p : Ptr)
        → has p (update bs (home (info node)) (bs (home (info node)) ++ node ∷ []) i) ≡ true
        → home (info p) ≡ i
    pushed-home i p mem = elim (Bool-cases (i == home (info node))) [
      | inl here ↦
          ground (arith, has-append p (bs (home (info node))) (node ∷ []), holds.at_home i p)
      | inr other ↦ holds.at_home i p (rw other at mem)
    ]

    pushed-unlinked :
        (p : Ptr)
        → has p (update bs (home (info node)) (bs (home (info node)) ++ node ∷ []) (home (info p)))
          ≡ false
        → pushed.1 p ≡ null
    pushed-unlinked p out = elim (Bool-cases (home (info p) == home (info node))) [
      | inl here ↦ ground (
        arith,
        has-append p (bs (home (info node))) (node ∷ []),
        holds.unlinked p,
        pushed_lem.1 p,
      )
      | inr other ↦
          ground (arith, holds.unlinked p, pushed_lem.1 p, holds.at_home (home (info node)) p)
    ]

    pub push-Holds :
        Holds info
          (record r { buckets = update r.buckets (home (info node)) pushed.0; links = pushed.1 })
          (update bs (home (info node)) (bs (home (info node)) ++ node ∷ []))
    push-Holds = record {
      lists = λ i. elim (Bool-cases (i == home (info node))) [
        | inl here ↦ rw here pushed_lem.0
        | inr other ↦ rw other (
            IsList-frame (r.buckets i) r.links pushed.1 (bs i)
              (λ a mem. pushed_lem.1 a (apart i a other mem)) (holds.lists i))
      ];
      at_home = λ i p mem. pushed-home i p mem;
      unlinked = λ p out. pushed-unlinked p out;
    }

-- Children change neither the buckets nor the links of their nodes.
pub Holds-children :
    (info : Ptr → Node) (r : Registry) (bs : ℕ → List Ptr) (c : Ptr → LinkedList) (l : Links)
    → Holds info r bs
    → Holds info (record r { children = c; child_links = l }) bs
Holds-children info r bs c l h = record {
  lists = h.lists;
  at_home = h.at_home;
  unlinked = h.unlinked;
}

module _ (info : Ptr → Node) (fuel : ℕ) where
  add_child-Holds :
      (p n : Ptr) (r : Registry) (bs : ℕ → List Ptr)
      → Holds info r bs
      → Holds info (add_child info fuel p n r) bs
  unfolding add_child
  add_child-Holds p n r bs h = Holds-children info r bs _ _ h

  adopt-Holds :
      (node : Ptr) (ns : List Ptr) (r : Registry) (bs : ℕ → List Ptr)
      → Holds info r bs
      → Holds info (adopt info fuel node ns r) bs
  unfolding adopt
  adopt-Holds node [] r bs h = h
  adopt-Holds node (n ∷ ns) r bs h = elim (Bool-cases ((info n).parent_id == (info node).id)) [
    | inl child ↦ rw child (adopt-Holds node ns _ bs (add_child-Holds node n r bs h))
    | inr other ↦ rw other (adopt-Holds node ns r bs h)
  ]

pub update_self : {A : Type 0} (f : ℕ → A) (i : ℕ) (a : A) → update f i a i ≡ a
update_self f i a = ground arith

-- Telling a parent ends, and keeps what the parent's action keeps.
pub tell_parent-Holds :
    (info : Ptr → Node) (fuel : ℕ) (node : Ptr) (act : Ptr → Registry → Outcome Registry)
    (r : Registry) (bs : ℕ → List Ptr)
    → Holds info r bs
    → total bs < fuel
    → ((p : Ptr) → (t : Registry) × (act p r ≡ done t) × Holds info t bs)
    → (t : Registry) × (tell_parent info fuel node act r ≡ done t) × Holds info t bs
unfolding tell_parent
tell_parent-Holds info fuel node act r bs h enough acts =
    elim (Bool-cases ((info node).parent_id == effective_id (info node))) [
      | inl own ↦ rw own (r, refl, h)
      | inr other ↦
          rw (other, find_parent_by_id-first info fuel r bs h enough (info node).parent_id)
            (go (
              as_parent info (
                first (λ n. (info n).id == (info node).parent_id)
                  (bs (bucket_of (info node).parent_id)))))
    ]
  where
    go :
        (o : Option Ptr) → (t : Registry) × (on_parent info fuel act o r ≡ done t) × Holds info t bs
    go none = (r, refl, h)
    go (some p) = acts p

-- The buckets with the node at the end of its own.
abbrev pub registered : (Ptr → Node) → Ptr → (ℕ → List Ptr) → ℕ → List Ptr
registered info node bs = update bs (home (info node)) (bs (home (info node)) ++ node ∷ [])

module _ (info : Ptr → Node) (fuel : ℕ) (ndebug : Bool) (node : Ptr) (r : Registry)
    (bs : ℕ → List Ptr) (holds : Holds info r bs)
    (enough : total (registered info node bs) < fuel) where
  bucket-fits : length (bs (home (info node))) < fuel
  bucket-fits = omega (
    arith,
    bucket_of-le (registered info node bs) (effective_id (info node)),
    ap length (update_self bs (home (info node)) (bs (home (info node)) ++ node ∷ [])),
    length-append (bs (home (info node))) (node ∷ []),
  )

  -- The bucket's action where nothing is duplicated.
  push_unless_duplicate-fresh :
      first (same_id info node) (bs (home (info node))) ≡ none
      → push_unless_duplicate info fuel ndebug node (r.buckets (home (info node)), r.links)
        ≡ done (push_back node (r.buckets (home (info node)), r.links))
  unfolding push_unless_duplicate
  push_unless_duplicate-fresh fresh = rw (
    find_in-first fuel (same_id info node) r.links _ (bs (home (info node))) bucket-fits
        (holds.lists (home (info node))).chain,
    fresh,
  )

  module _ (ne : node ≢ null)
      (fresh : first (same_id info node) (bs (home (info node))) ≡ none) where
    -- A node that duplicates no other: it is put at the end of its bucket, all other buckets keep their
    -- nodes, and the registration ends without an abort, also where the node gets children. For a
    -- registry in order, and more steps than it then has nodes.
    pub register_node-Holds :
        (t : Registry) × (register_node info fuel ndebug node r ≡ done t)
        × Holds info t (registered info node bs)
    unfolding register_node register_or_unregister_node pushed
    register_node-Holds =
        let (t, e, h) =
          tell_parent-Holds info fuel node (λ p s. done (add_child info fuel p node s)) _
            (registered info node bs) (push-Holds info node r bs holds ne fresh) enough
            (λ p. (
              add_child info fuel p node _,
              refl,
              add_child-Holds info fuel p node _ _ (push-Holds info node r bs holds ne fresh),
            )) in
        elim (Bool-cases ((info node).casts has_children)) [
          | inl group ↦
              rw (push_unless_duplicate-fresh fresh, e, group, nodes_lem info fuel t _ h enough)
                (_, refl, adopt-Holds info fuel node _ t _ h)
          | inr leaf ↦ rw (push_unless_duplicate-fresh fresh, e, leaf) (t, refl, h)
        ]

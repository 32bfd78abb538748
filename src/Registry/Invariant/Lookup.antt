-- ===== src/Registry/Invariant/Lookup.antt =====
-- What `findById` of src/ThingSetRegistry.cpp finds.
use thingsetplusplus.Prelude.{
  ℕ, ◌^◌, ◌<◌, ◌≡◌, ◌≢◌, inl, inr, Bool, true, false, List, [], ◌∷◌, ◌++◌, none, some, arith, ◌==◌,
  ap, Bool-cases, ==_iff, sym, ◌∙◌,
}
use thingsetplusplus.LinkedList.{Ptr, null}
use thingsetplusplus.LinkedList.Segment.{has}
use thingsetplusplus.Node.{Node, record_member}
use thingsetplusplus.Outcome.{Outcome, done}
use thingsetplusplus.Registry.{Registry, effective_id, bucket_of, find_by_id, register_node}
use thingsetplusplus.Registry.Identity.{effective_id-bucket}
use thingsetplusplus.Registry.Lookup.{first, first-some, first-none, first-eq-none, first-snoc}
use thingsetplusplus.Registry.Invariant.{Holds, home, total}
use thingsetplusplus.Registry.Invariant.Find.{find_by_id-first}
use thingsetplusplus.Registry.Invariant.Register.{
  same_id, registered, update_self, register_node-Holds,
}

abbrev has_id : (Ptr → Node) → ℕ → Ptr → Bool
has_id info id n = (info n).id == id

-- A node in its own bucket whose own ID belongs in that bucket is no member of a record.
not-member : (n : Node) → n.id < 2 ^ 16 → home n ≡ bucket_of n.id → n.casts record_member ≡ false
not-member n h e = elim (Bool-cases (n.casts record_member)) [
  | inl member ↦ absurd (effective_id-bucket n h member e)
  | inr plain ↦ plain
]

plain-effective : (n : Node) → n.casts record_member ≡ false → effective_id n ≡ n.id
unfolding effective_id
plain-effective n plain = rw plain

done-injective : {A : Type 0} {a b : A} → ◌≡◌ {A = Outcome A} (done a) (done b) → a ≡ b
done-injective e = cc

module _ (info : Ptr → Node) (ids : (p : Ptr) → (info p).id < 2 ^ 16) where
  -- A node that is found is registered, has the ID that was looked up, and is no member of a record.
  pub find_by_id_sound :
      (fuel : ℕ) (r : Registry) (bs : ℕ → List Ptr) (id : ℕ) (n : Ptr)
      → Holds info r bs
      → total bs < fuel
      → find_by_id info fuel r id ≡ done (some n)
      → (has n (bs (bucket_of id)) ≡ true)
        × ((info n).id ≡ id)
        × ((info n).casts record_member ≡ false)
  find_by_id_sound fuel r bs id n holds enough found =
      let e : first (has_id info id) (bs (bucket_of id)) ≡ some n =
        done-injective (sym (find_by_id-first info fuel r bs holds enough id) ∙ found) in
      let (mem, same) = first-some (has_id info id) (bs (bucket_of id)) n e in
      let n_id = (==_iff (info n).id id).0 same in
      (
        mem,
        n_id,
        not-member (info n) (ids n) (holds.at_home (bucket_of id) n mem ∙ ap bucket_of (sym n_id)),
      )

  -- No node before a fresh one in its bucket has its ID.
  none-before :
      (node : Ptr) (r : Registry) (bs : ℕ → List Ptr)
      → Holds info r bs
      → (info node).casts record_member ≡ false
      → first (same_id info node) (bs (bucket_of (info node).id)) ≡ none
      → (x : Ptr) → has x (bs (bucket_of (info node).id)) ≡ true
      → has_id info (info node).id x ≡ false
  none-before node r bs holds plain fresh x mem = elim (Bool-cases (has_id info (info node).id x)) [
    | inl hit ↦
        let same = (==_iff (info x).id (info node).id).0 hit in
        let x_plain =
          not-member (info x) (ids x) (holds.at_home _ x mem ∙ ap bucket_of (sym same)) in
        ground (
          arith,
          first-none (same_id info node) _ x fresh mem,
          plain-effective (info x) x_plain,
          plain-effective (info node) plain,
        )
    | inr miss ↦ miss
  ]

  found-registered :
      (fuel : ℕ) (node : Ptr) (r t : Registry) (bs : ℕ → List Ptr)
      → Holds info r bs
      → Holds info t (registered info node bs)
      → total (registered info node bs) < fuel
      → (info node).casts record_member ≡ false
      → first (same_id info node) (bs (home (info node))) ≡ none
      → find_by_id info fuel t (info node).id ≡ done (some node)
  found-registered fuel node r t bs holds after enough plain fresh =
      let id = (info node).id in
      let at : home (info node) ≡ bucket_of id = ap bucket_of (plain-effective (info node) plain) in
      let fresh' : first (same_id info node) (bs (bucket_of id)) ≡ none = rw at at fresh in
      let self : (id == id) ≡ true = ground arith in
      let here : registered info node bs (bucket_of id) ≡ bs (bucket_of id) ++ node ∷ [] =
        rw at (update_self bs (bucket_of id) (bs (bucket_of id) ++ node ∷ [])) in
      rw (find_by_id-first info fuel t _ after enough id, here)
        (ap done (
          first-snoc (has_id info id) (bs (bucket_of id)) node
            (first-eq-none (has_id info id) (bs (bucket_of id))
              (none-before node r bs holds plain fresh'))
            self))

  -- A node outside records that duplicates no other is found by its ID once it has been registered,
  -- in a registry in order and with more steps than it then has nodes.
  pub find_by_id-register_node :
      (fuel : ℕ) (ndebug : Bool) (node : Ptr) (r t : Registry) (bs : ℕ → List Ptr)
      → Holds info r bs
      → total (registered info node bs) < fuel
      → node ≢ null
      → (info node).casts record_member ≡ false
      → first (same_id info node) (bs (home (info node))) ≡ none
      → register_node info fuel ndebug node r ≡ done t
      → find_by_id info fuel t (info node).id ≡ done (some node)
  find_by_id-register_node fuel ndebug node r t bs holds enough ne plain fresh e =
      let (u, e', after) = register_node-Holds info fuel ndebug node r bs holds enough ne fresh in
      rw (done-injective (sym e ∙ e'))
        (found-registered fuel node r u bs holds after enough plain fresh)

-- ===== src/LinkedList/Remove.antt =====
-- `remove` of include/thingset++/internal/IntrusiveLinkedList.hpp.
use thingsetplusplus.Prelude.{
  ℕ, zero, suc, ◌<◌, ◌≡◌, sym, subst, refl, inl, inr, Bool, true, false, List, [], ◌∷◌, Option,
  some, arith, ◌==◌, if◌then◌else◌, length, Bool-cases, ==_iff,
}
use thingsetplusplus.LinkedList.{Ptr, null, Links, State, set_next, unlink, remove_loop, remove}
use thingsetplusplus.LinkedList.Segment.{
  has, Distinct, last, erase, Chain, IsList, has-last, Chain-set_next, has-erase, erase-Distinct,
}

-- What is left behind the node `prev` once `node` is taken from the nodes `ys` that follow it.
record Removed (node prev : Ptr) (ys : List Ptr) (s t : State) : Type 0 where
  head : t.0.head ≡ s.0.head
  tail : t.0.tail ≡ last prev (erase node ys)
  chain : Chain t.1 prev (prev ∷ erase node ys)
  unlinked : t.1 node ≡ null
  same : (b : Ptr) → has b (prev ∷ ys) ≡ false → t.1 b ≡ s.1 b

-- The tail moves back only if the last node is taken.
last-unlink :
    (node prev : Ptr) (ys : List Ptr)
    → has node ys ≡ false
    → (if last node ys == node then prev else last node ys) ≡ last prev ys
last-unlink node prev [] h = ground arith
last-unlink node prev (y ∷ ys) h = ground (arith, has-last y ys)

unlink-Removed :
    (node prev : Ptr) (ys : List Ptr) (s : State)
    → Distinct (prev ∷ node ∷ ys)
    → Chain s.1 prev (prev ∷ node ∷ ys)
    → s.0.tail ≡ last node ys
    → Removed node prev (node ∷ ys) s (unlink node prev s)
unfolding unlink
unlink-Removed node prev ys s distinct chain tail =
    let after = s.1 node in
    let rest : Chain (set_next node null (set_next prev after s.1)) after ys =
      Chain-set_next node null _ after ys distinct.1.0
        (Chain-set_next prev after s.1 after ys (ground arith) chain.2.2) in
    record {
      head = ground arith;
      tail = ground (arith, last-unlink node prev ys distinct.1.0);
      chain = ground (arith, rest);
      unlinked = ground arith;
      same = λ b out. ground arith;
    }

Removed-cons :
    (node prev y : Ptr) (ys : List Ptr) (s t : State)
    → (y == node) ≡ false
    → Distinct (prev ∷ y ∷ ys)
    → Chain s.1 prev (prev ∷ y ∷ ys)
    → Removed node y ys s t
    → Removed node prev (y ∷ ys) s t
Removed-cons node prev y ys s t miss distinct chain r = record {
  head = r.head;
  tail = ground (arith, r.tail);
  chain = ground (arith, r.chain, r.same prev);
  unlinked = r.unlinked;
  same = λ b out. r.same b (ground arith);
}

abbrev Removes : Ptr → Ptr → List Ptr → State → Option (Bool × State) → Type 0
Removes node prev ys s r = (t : State) × (r ≡ some (true, t)) × Removed node prev ys s t

remove_loop-Removes :
    (fuel : ℕ) (node prev : Ptr) (ys : List Ptr) (s : State)
    → length ys < fuel
    → Distinct (prev ∷ ys)
    → Chain s.1 prev (prev ∷ ys)
    → s.0.tail ≡ last prev ys
    → has node ys ≡ true
    → Removes node prev ys s (remove_loop fuel node prev (s.1 prev) s)
unfolding remove_loop
remove_loop-Removes zero node prev ys s h distinct chain tail mem = absurd (omega arith)
remove_loop-Removes (suc fuel) node prev [] s h distinct chain tail mem = cc
remove_loop-Removes (suc fuel) node prev (y ∷ ys) s h distinct chain tail mem =
    let chain' : Chain s.1 y (y ∷ ys) = (refl, chain.2.1, chain.2.2) in
    elim (Bool-cases (y == node)) [
      | inl hit ↦ (
        unlink node prev s,
        ground arith,
        subst (λ (x : Ptr). Removed node prev (x ∷ ys) s (unlink node prev s))
            (sym ((==_iff y node).0 hit))
            (unlink-Removed node prev ys s (ground arith) (ground arith) (ground arith)),
      )
      | inr miss ↦
          let (t, e, r) =
            remove_loop-Removes fuel node y ys s (omega arith) distinct.1 chain' tail
              (ground arith) in
          (t, ground arith, Removed-cons node prev y ys s t miss distinct chain r)
    ]

remove_loop-absent :
    (fuel : ℕ) (node prev p : Ptr) (ys : List Ptr) (s : State)
    → length ys < fuel
    → Chain s.1 p ys
    → has node ys ≡ false
    → remove_loop fuel node prev p s ≡ some (false, s)
unfolding remove_loop
remove_loop-absent zero node prev p ys s h chain out = absurd (omega arith)
remove_loop-absent (suc fuel) node prev p [] s h chain out = ground arith
remove_loop-absent (suc fuel) node prev p (y ∷ ys) s h chain out =
    ground (arith, chain.0, remove_loop-absent fuel node y (s.1 y) ys s (omega arith) chain.2)

-- What `remove` leaves of a list of the nodes `xs`.
pub record Taken (node : Ptr) (xs : List Ptr) (s t : State) : Type 0 where
  pub left : IsList t (erase node xs)
  pub unlinked : t.1 node ≡ null
  pub same : (b : Ptr) → has b xs ≡ false → t.1 b ≡ s.1 b

last-unlink_head :
    (next : Links) (node : Ptr) (ys : List Ptr)
    → has node ys ≡ false
    → Chain next (next node) ys
    → (if last node ys == node then next node else last node ys) ≡ last null ys
last-unlink_head next node [] h chain = ground arith
last-unlink_head next node (y ∷ ys) h chain = ground (arith, has-last y ys)

-- The head is taken: the list starts at the next node.
unlink-head :
    (node : Ptr) (ys : List Ptr) (s : State)
    → IsList s (node ∷ ys)
    → Taken node (node ∷ ys) s (unlink node null s)
unfolding unlink
unlink-head node ys s is =
    let rest = Chain-set_next node null s.1 (s.1 node) ys is.distinct.0 is.chain.2 in
    record {
      left = record {
        chain = ground (arith, rest);
        distinct = ground arith;
        tail = ground (arith, last-unlink_head s.1 node ys is.distinct.0 is.chain.2, is.tail);
      };
      unlinked = ground arith;
      same = λ b out. ground arith;
    }

-- A node behind the head is taken: the head stays.
Taken-behind :
    (node x : Ptr) (ys : List Ptr) (s t : State)
    → (x == node) ≡ false
    → IsList s (x ∷ ys)
    → Removed node x ys s t
    → Taken node (x ∷ ys) s t
Taken-behind node x ys s t miss is r = record {
  left = record {
    chain = ground (arith, r.chain, r.head, is.chain.0);
    distinct = ground (arith, erase-Distinct node ys is.distinct.1, has-erase x node ys);
    tail = ground (arith, r.tail);
  };
  unlinked = r.unlinked;
  same = r.same;
}

-- With more steps than there are nodes, `remove` finds a node of the list and says so: the list holds
-- the same nodes in the same order without it, the node's link is null, so that it can be pushed
-- again, and the links of nodes outside the list are unchanged.
pub remove-Taken :
    (fuel : ℕ) (node : Ptr) (s : State) (xs : List Ptr)
    → IsList s xs
    → length xs < fuel
    → has node xs ≡ true
    → (t : State) × (remove fuel node s ≡ some (true, t)) × Taken node xs s t
unfolding remove
remove-Taken fuel node s [] is h mem = cc
remove-Taken zero node s (x ∷ ys) is h mem = absurd (omega arith)
remove-Taken (suc fuel) node s (x ∷ ys) is h mem =
    let chain : Chain s.1 x (x ∷ ys) = (refl, is.chain.1, is.chain.2) in
    elim (Bool-cases (x == node)) [
      | inl hit ↦ (
        unlink node null s,
        ground (arith, is.chain.0),
        subst (λ (x : Ptr). Taken node (x ∷ ys) s (unlink node null s))
            (sym ((==_iff x node).0 hit))
            (unlink-head node ys s
              (subst (λ (x : Ptr). IsList s (x ∷ ys)) ((==_iff x node).0 hit) is)),
      )
      | inr miss ↦
          let (t, e, r) =
            remove_loop-Removes fuel node x ys s (omega arith) is.distinct chain is.tail
              (ground arith) in
          (t, ground (arith, is.chain.0), Taken-behind node x ys s t miss is r)
    ]

-- With more steps than there are nodes, `remove` says that a node is not in the list, and changes
-- nothing.
pub remove-absent :
    (fuel : ℕ) (node : Ptr) (s : State) (xs : List Ptr)
    → IsList s xs
    → length xs < fuel
    → has node xs ≡ false
    → remove fuel node s ≡ some (false, s)
unfolding remove
remove-absent fuel node s xs is h out =
    remove_loop-absent fuel node null s.0.head xs s h is.chain out

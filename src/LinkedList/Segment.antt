-- ===== src/LinkedList/Segment.antt =====
-- What a list of include/thingset++/internal/IntrusiveLinkedList.hpp stands for: the nodes in order.
use thingsetplusplus.Prelude.{
  ◌≡◌, ◌≢◌, refl, Bool, true, false, ◌||◌, List, [], ◌∷◌, ◌++◌, arith, ◌==◌, if◌then◌else◌,
}
use thingsetplusplus.LinkedList.{Ptr, null, Links, LinkedList, set_next, State}
use mathlib.Core.Bool.{or_assoc}

abbrev pub has : Ptr → List Ptr → Bool
has a [] = false
has a (x ∷ xs) = (a == x) || has a xs

abbrev pub Distinct : List Ptr → Type 0
Distinct [] = Unit {0}
Distinct (x ∷ xs) = (has x xs ≡ false) × Distinct xs

-- The last node, or `d` if there is none.
abbrev pub last : Ptr → List Ptr → Ptr
last d [] = d
last d (x ∷ xs) = last x xs

-- Drops the first occurrence.
abbrev pub erase : Ptr → List Ptr → List Ptr
erase a [] = []
erase a (x ∷ xs) = if x == a then xs else x ∷ erase a xs

-- From `p` the links lead through the nodes `xs` to the null pointer.
abbrev pub Chain : Links → Ptr → List Ptr → Type 0
Chain next p [] = p ≡ null
Chain next p (x ∷ xs) = (p ≡ x) × (x ≢ null) × Chain next (next x) xs

-- The representation invariant.
pub record IsList (s : State) (xs : List Ptr) : Type 0 where
  pub chain : Chain s.1 s.0.head xs
  pub distinct : Distinct xs
  pub tail : s.0.tail ≡ last null xs

pub has-append : (a : Ptr) (xs ys : List Ptr) → has a (xs ++ ys) ≡ (has a xs || has a ys)
has-append a [] ys = refl
has-append a (x ∷ xs) ys = rw (has-append a xs ys, or_assoc)

pub has-last : (x : Ptr) (xs : List Ptr) → has (last x xs) (x ∷ xs) ≡ true
has-last x [] = ground arith
has-last x (y ∷ ys) = ground (arith, has-last y ys)

pub has-erase : (a b : Ptr) (xs : List Ptr) → has a xs ≡ false → has a (erase b xs) ≡ false
has-erase a b [] h = refl
has-erase a b (x ∷ xs) h = ground (arith, has-erase a b xs)

pub erase-Distinct : (a : Ptr) (xs : List Ptr) → Distinct xs → Distinct (erase a xs)
erase-Distinct a [] d = tt
erase-Distinct a (x ∷ xs) d = ground (arith, erase-Distinct a xs d.1, has-erase x a xs)

pub has-erase_self : (a : Ptr) (xs : List Ptr) → Distinct xs → has a (erase a xs) ≡ false
has-erase_self a [] d = refl
has-erase_self a (x ∷ xs) d = ground (arith, has-erase_self a xs d.1)

pub Distinct-snoc :
    (a : Ptr) (xs : List Ptr) → Distinct xs → has a xs ≡ false → Distinct (xs ++ a ∷ [])
Distinct-snoc a [] d h = (refl, tt)
Distinct-snoc a (x ∷ xs) d h = ground (arith, has-append x xs (a ∷ []), Distinct-snoc a xs d.1)

-- No node of a chain is the null pointer.
pub null-not-has : (next : Links) (p : Ptr) (xs : List Ptr) → Chain next p xs → has null xs ≡ false
null-not-has next p [] c = refl
null-not-has next p (x ∷ xs) c = ground (arith, null-not-has next (next x) xs c.2)

-- A chain survives a write at a node outside it.
pub Chain-set_next :
    (a q : Ptr) (next : Links) (p : Ptr) (xs : List Ptr)
    → has a xs ≡ false
    → Chain next p xs
    → Chain (set_next a q next) p xs
unfolding set_next
Chain-set_next a q next p [] h c = c
Chain-set_next a q next p (x ∷ xs) h c =
    (c.0, c.1, ground (arith, Chain-set_next a q next (next x) xs, c.2))

pub last-snoc : (d a : Ptr) (xs : List Ptr) → last d (xs ++ a ∷ []) ≡ a
last-snoc d a [] = refl
last-snoc d a (x ∷ xs) = last-snoc x a xs

-- A chain depends only on the links of its own nodes.
pub Chain-frame :
    (next next' : Links) (p : Ptr) (xs : List Ptr)
    → ((a : Ptr) → has a xs ≡ true → next' a ≡ next a)
    → Chain next p xs
    → Chain next' p xs
Chain-frame next next' p [] same c = c
Chain-frame next next' p (x ∷ xs) same c = (
  c.0,
  c.1,
  Chain-frame next next' (next' x) xs (λ a mem. same a (ground arith))
      (ground (arith, same x, c.2)),
)

-- A list whose nodes keep their links is the same list.
pub IsList-frame :
    (l : LinkedList) (next next' : Links) (xs : List Ptr)
    → ((a : Ptr) → has a xs ≡ true → next' a ≡ next a)
    → IsList (l, next) xs
    → IsList (l, next') xs
IsList-frame l next next' xs same is = record {
  chain = Chain-frame next next' l.head xs same is.chain;
  distinct = is.distinct;
  tail = is.tail;
}

-- What is erased is the node given, and nothing else.
pub has-erase-cases :
    (a b : Ptr) (xs : List Ptr) → has a xs ≡ true → has a (erase b xs) ≡ false → a ≡ b
has-erase-cases a b [] mem out = cc
has-erase-cases a b (x ∷ xs) mem out = ground (arith, has-erase-cases a b xs)

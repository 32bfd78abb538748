-- ===== src/ParentNode/Termination.antt =====
-- The recursion of `findByName` (src/ThingSetParentNode.cpp) ends for any path, well-formed or not.
use thingsetplusplus.Prelude.{
  ℕ, zero, suc, ◌<◌, ◌≤◌, ◌≡◌, refl, inl, inr, ◌&&◌, List, [], ◌∷◌, Option, none, some, arith,
  length, Bool-cases, ◌==◌,
}
use thingsetplusplus.Bytes.{Bytes, equal, split_at}
use thingsetplusplus.LinkedList.{Ptr, begin}
use thingsetplusplus.LinkedList.Segment.{IsList}
use thingsetplusplus.Node.{Node, Name, has_children}
use thingsetplusplus.Outcome.{Outcome, done}
use thingsetplusplus.Registry.{Registry}
use thingsetplusplus.Registry.Lookup.{first, find_in-first}
use thingsetplusplus.ParentNode.{Found, find_by_name, find_by_name_base, descend, is_none}

-- What is left after a separator is shorter.
abbrev Shorter : ℕ → Option Bytes → Type 0
Shorter k none = Unit {0}
Shorter k (some rest) = length rest < k

weaken : (rest : Option Bytes) (j k : ℕ) → j ≤ k → Shorter j rest → Shorter k rest
weaken none j k h short = tt
weaken (some rest) j k h short = omega arith

split_at-Shorter : (c : ℕ) (name : Bytes) → Shorter (length name) (split_at c name).1
unfolding split_at
split_at-Shorter c [] = tt
split_at-Shorter c (x ∷ xs) = elim (Bool-cases (x == c)) [
  | inl e ↦ rw (e) (omega arith)
  | inr e ↦
      rw (e) (
        weaken (split_at c xs).1 (length xs) (suc (length xs)) (omega arith)
          (split_at-Shorter c xs))
]

module _ (info : Ptr → Node) (array_size : Ptr → Option ℕ) (r : Registry) (steps : ℕ)
    (children : Ptr → List Ptr)
    (lists : (p : Ptr) → IsList (r.children p, r.child_links) (children p))
    (enough : (p : Ptr) → length (children p) < steps) where
  descend-ends :
      (fuel : ℕ) (find : Ptr → Name → Outcome Found)
      → ((p : Ptr) (name : Name) → length name < fuel → (f : Found) × (find p name ≡ done f))
      → (this : Ptr) (rest : Option Name) (child : Option Ptr) → Shorter fuel rest
      → (f : Found) × (descend info array_size r steps find this rest child ≡ done f)
  unfolding descend
  descend-ends fuel find below this none none short = (_, refl)
  descend-ends fuel find below this (some rest) none short = (_, refl)
  descend-ends fuel find below this none (some child) short = (_, refl)
  descend-ends fuel find below this (some rest) (some child) short =
      elim (Bool-cases ((info child).casts has_children)) [
        | inl group ↦ rw (group) (below child rest short)
        | inr leaf ↦ rw (leaf) (_, refl)
      ]

  -- With more levels of calls than bytes in the path, `findByName` ends.
  pub find_by_name-ends :
      (fuel : ℕ) (this : Ptr) (name : Name)
      → length name < fuel
      → (f : Found) × (find_by_name info array_size r steps fuel this name ≡ done f)
  unfolding find_by_name find_by_name_base begin
  find_by_name-ends zero this name h = absurd (omega arith)
  find_by_name-ends (suc fuel) this name h =
      let (token, rest) = split_at b'/' name in
      elim (Bool-cases (equal (info this).name token && is_none rest)) [
        | inl own ↦ rw (own) (_, refl)
        | inr other ↦
            let child =
              find_in-first steps (λ c. equal (info c).name token) r.child_links _ (children this)
                (enough this) (lists this).chain in
            let short = weaken rest (length name) fuel (omega arith) (split_at-Shorter b'/' name) in
            let (f, e) =
              descend-ends fuel (find_by_name info array_size r steps fuel)
                (λ p rest_name le. find_by_name-ends fuel p rest_name le) this rest
                (first (λ c. equal (info c).name token) (children this)) short in
            rw (other, child, e) (_, refl)
      ]

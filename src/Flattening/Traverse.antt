-- ===== src/Flattening/Traverse.antt =====
-- A loop over a `FlatteningIterator` (include/thingset++/FlatteningIterator.hpp) reads the elements of
-- all containers, in order.
use thingsetplusplus.Prelude.{
  ℕ, zero, suc, ◌<◌, ◌≡◌, refl, List, [], ◌∷◌, ◌++◌, map, some, arith, length,
}
use thingsetplusplus.Flattening.{
  FlatteningIterator, advance_past_empty_inner_containers, flatten, flatten_end, increment,
  traverse, begin_inner,
}

module _ {ℓ} {A : Type ℓ} where
  -- The elements in order.
  unfoldable pub concat : List (List A) → List A
  concat [] = []
  concat (c ∷ cs) = c ++ concat cs

  abbrev rest_of : List (List A) → List A
  rest_of [] = []
  rest_of (c ∷ cs) = concat cs

  -- What is left to read: nothing at the end, else the inner rest and the later containers.
  abbrev left : List (List A) → List A → List A
  left [] inner = []
  left (c ∷ cs) inner = inner ++ concat cs

  -- An iterator between two steps is at the end or at an element.
  data Ready : FlatteningIterator A → List A → Type ℓ where
    at_end : (inner : List A) → Ready (record { outer = []; inner = inner }) []
    at :
        (c : List A) (cs : List (List A)) (x : A) (xs : List A)
        → Ready (record { outer = c ∷ cs; inner = x ∷ xs }) (x ∷ xs ++ concat cs)

  advance-Ready :
      (cs : List (List A)) (inner : List A)
      → Ready (advance_past_empty_inner_containers cs inner) (left cs inner)
  unfolding advance_past_empty_inner_containers concat begin_inner
  advance-Ready [] inner = at_end inner
  advance-Ready (c ∷ cs) (x ∷ xs) = at c cs x xs
  advance-Ready (c ∷ []) [] = at_end []
  advance-Ready (c ∷ d ∷ cs) [] = advance-Ready (d ∷ cs) d

  flatten-Ready : (cs : List (List A)) → Ready (flatten cs) (concat cs)
  unfolding flatten concat
  flatten-Ready [] = at_end []
  flatten-Ready (c ∷ cs) = advance-Ready (c ∷ cs) c

  increment-Ready :
      (c : List A) (cs : List (List A)) (x : A) (xs : List A)
      → Ready (increment (record { outer = c ∷ cs; inner = x ∷ xs })) (xs ++ concat cs)
  unfolding increment
  increment-Ready c cs x [] = advance-Ready (c ∷ cs) []
  increment-Ready c cs x (y ∷ ys) = at c cs y ys

  traverse-Ready :
      (fuel : ℕ) {it : FlatteningIterator A} {xs : List A}
      → Ready it xs
      → length xs < fuel
      → traverse fuel it flatten_end ≡ some (map some xs)
  unfolding traverse
  traverse-Ready zero r h = absurd (omega arith)
  traverse-Ready (suc fuel) (at_end inner) h = refl
  traverse-Ready (suc fuel) (at c cs x xs) h =
      ground (arith, traverse-Ready fuel (increment-Ready c cs x xs) (omega arith))

  -- With more steps than there are elements, the loop ends and reads the elements of all containers in
  -- order, without a read through an end iterator, whichever of the containers are empty.
  pub traverse-concat :
      (fuel : ℕ) (cs : List (List A))
      → length (concat cs) < fuel
      → traverse fuel (flatten cs) flatten_end ≡ some (map some (concat cs))
  traverse-concat fuel cs h = traverse-Ready fuel (flatten-Ready cs) h

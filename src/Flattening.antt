-- ===== src/Flattening.antt =====
-- include/thingset++/FlatteningIterator.hpp. An iterator is the part of its range that is left: the
-- containers from `outer_it_` to `outer_end_`, and the elements from `inner_it_` to the end of the
-- first of them. Two iterators over one range are equal where as much is left.
pub mod Traverse
use thingsetplusplus.Prelude.{
  ℕ, zero, suc, Bool, true, false, not, ◌&&◌, ◌||◌, List, [], ◌∷◌, Option, none, some, ◌==◌,
  if◌then◌else◌, length,
}
use mathlib.Core.Option

pub record FlatteningIterator {ℓ} (A : Type ℓ) : Type ℓ where
  pub outer : List (List A)
  pub inner : List A

module _ {ℓ} {A : Type ℓ} where
  abbrev pub is_empty : List A → Bool
  is_empty [] = true
  is_empty (x ∷ xs) = false

  -- `outer_it_->begin()`, where there is a container.
  unfoldable pub begin_inner : List (List A) → List A → List A
  begin_inner [] inner = inner
  begin_inner (c ∷ cs) inner = c

  unfoldable pub advance_past_empty_inner_containers : List (List A) → List A → FlatteningIterator A
  unfolding begin_inner
  advance_past_empty_inner_containers [] inner = record { outer = []; inner = inner }
  advance_past_empty_inner_containers (c ∷ cs) (x ∷ xs) = record { outer = c ∷ cs; inner = x ∷ xs }
  advance_past_empty_inner_containers (c ∷ cs) [] =
      advance_past_empty_inner_containers cs (begin_inner cs [])

  -- `flatten(first, last)`, and `flatten(last)`, whose range is empty.
  unfoldable pub flatten : List (List A) → FlatteningIterator A
  unfolding advance_past_empty_inner_containers
  flatten [] = record { outer = []; inner = [] }
  flatten (c ∷ cs) = advance_past_empty_inner_containers (c ∷ cs) c

  abbrev pub flatten_end : FlatteningIterator A
  flatten_end = record { outer = []; inner = [] }

  -- `operator*`; `none` is a read through an end iterator.
  unfoldable pub get : FlatteningIterator A → Option A
  get it = elim it.inner [ [] ↦ none | x ∷ xs ↦ some x ]

  tail : List A → List A
  tail [] = []
  tail (x ∷ xs) = xs

  -- `operator++`
  unfoldable pub increment : FlatteningIterator A → FlatteningIterator A
  unfolding advance_past_empty_inner_containers tail
  increment it =
      let inner = tail it.inner in
      if is_empty inner
      then advance_past_empty_inner_containers it.outer inner
      else record it { inner = inner }

  unfoldable pub equals : FlatteningIterator A → FlatteningIterator A → Bool
  equals a b =
      if not (length a.outer == length b.outer)
      then false
      else if (not (length a.outer == 0)
          && (not (length b.outer == 0) && not (length a.inner == length b.inner)))
      then false
      else true

  -- The elements that a range-based `for` up to `last` reads.
  unfoldable pub traverse :
      ℕ → FlatteningIterator A → FlatteningIterator A → Option (List (Option A))
  unfolding get increment equals
  traverse zero it last = none
  traverse (suc fuel) it last =
      let rest = Option.map (◌∷◌ (get it)) (traverse fuel (increment it) last) in
      if equals it last then some [] else rest

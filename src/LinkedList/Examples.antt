-- ===== src/LinkedList/Examples.antt =====
-- The theorems on include/thingset++/internal/IntrusiveLinkedList.hpp and
-- include/thingset++/FlatteningIterator.hpp at small lists.
use thingsetplusplus.Prelude.{
  ℕ, ◌<◌, ◌≡◌, refl, true, false, List, [], ◌∷◌, map, some, none, arith, ◌==◌, if◌then◌else◌,
  length,
}
use thingsetplusplus.LinkedList.{Ptr, null, State, count, push_back, remove}
use thingsetplusplus.LinkedList.Segment.{has, IsList}
use thingsetplusplus.LinkedList.Push.{push_back-IsList, push_back-last_cycle}
use thingsetplusplus.LinkedList.Remove.{Taken, remove-Taken}
use thingsetplusplus.Flattening.{flatten, flatten_end, traverse}
use thingsetplusplus.Flattening.Traverse.{concat, traverse-concat}

-- The list of the nodes 3, 5 and 4.
abbrev three : State
three = (record { head = 3; tail = 4 }, λ p. if p == 3 then 5 else if p == 5 then 4 else null)

abbrev nodes : List Ptr
nodes = 3 ∷ 5 ∷ 4 ∷ []

three-IsList : IsList three nodes
three-IsList = ground arith

push_back-IsList_example :
    IsList (push_back 7 three) (3 ∷ 5 ∷ 4 ∷ 7 ∷ [])
    × ((b : Ptr) → has b nodes ≡ false → (push_back 7 three).1 b ≡ three.1 b)
push_back-IsList_example = push_back-IsList 7 three nodes three-IsList (λ e. omega arith) refl refl

push_back-last_cycle_example :
    ((push_back 4 three).1 4 ≡ 4) × (count 100 (push_back 4 three) ≡ none)
push_back-last_cycle_example = push_back-last_cycle 100 three 3 (5 ∷ 4 ∷ []) three-IsList

remove-Taken_example : (t : State) × (remove 4 5 three ≡ some (true, t)) × Taken 5 nodes three t
remove-Taken_example = remove-Taken 4 5 three nodes three-IsList (omega arith) refl

abbrev containers : List (List ℕ)
containers = [] ∷ (1 ∷ 2 ∷ []) ∷ [] ∷ (3 ∷ []) ∷ [] ∷ []

few : length (concat containers) < 4
unfolding concat
few = omega arith

traverse-concat_example :
    traverse 4 (flatten containers) flatten_end ≡ some (map some (concat containers))
traverse-concat_example = traverse-concat 4 containers few

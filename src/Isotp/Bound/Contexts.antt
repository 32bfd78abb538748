-- ===== src/Isotp/Bound/Contexts.antt =====
-- The lists of contexts of a bound context (Isotp/Bound.antt), where no other context has the address.
use thingsetplusplus.Prelude.{ℕ, ◌≡◌, List, [], ◌∷◌, ◌++◌, none, some, arith}
use thingsetplusplus.Isotp.Bound.{find, put, remove}

module _ {C : Type 0} (address : C → ℕ) where
  pub find-last :
      (cs : List C) (c : C)
      → find address (address c) cs ≡ none
      → find address (address c) (cs ++ c ∷ []) ≡ some c
  unfolding find
  find-last [] c h = ground arith
  find-last (d ∷ ds) c h = ground (arith, find-last ds c)

  pub put-last :
      (cs : List C) (c d : C)
      → find address (address c) cs ≡ none
      → address d ≡ address c
      → put address d (cs ++ c ∷ []) ≡ cs ++ d ∷ []
  unfolding find put
  put-last [] c d h e = ground arith
  put-last (x ∷ xs) c d h e = ground (arith, put-last xs c d)

  pub remove-last :
      (cs : List C) (c : C)
      → find address (address c) cs ≡ none
      → remove address (address c) (cs ++ c ∷ []) ≡ cs
  unfolding find remove
  remove-last [] c h = ground arith
  remove-last (x ∷ xs) c h = ground (arith, remove-last xs c)

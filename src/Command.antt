-- ===== src/Command.antt =====
-- Commands on a world of mutable state: a C++ statement that returns a value, may change the state, and
-- may fail to end. `also` is `&&` between calls, which does not make the second call if the first
-- returns false.
use thingsetplusplus.Prelude.{Bool, true, false}
use thingsetplusplus.Outcome.{Outcome, done, aborted, out_of_fuel}

abbrev pub Cmd : Type 0 → Type 0 → Type 0
Cmd W A = W → Outcome (A × W)

abbrev pub pure : {W A : Type 0} → A → Cmd W A
pure a w = done (a, w)

abbrev pub and_then : {W A B : Type 0} → Outcome (A × W) → (A → Cmd W B) → Outcome (B × W)
and_then (done (a, w)) k = k a w
and_then aborted k = aborted
and_then out_of_fuel k = out_of_fuel

infixl 5 ◌>>=◌ ◌>>◌
abbrev pub ◌>>=◌ : {W A B : Type 0} → Cmd W A → (A → Cmd W B) → Cmd W B
m >>= k = λ w. and_then (m w) k

abbrev pub ◌>>◌ : {W A B : Type 0} → Cmd W A → Cmd W B → Cmd W B
m >> n = m >>= λ _. n

abbrev pub also : {W : Type 0} → Cmd W Bool → Cmd W Bool → Cmd W Bool
also m n = m >>= λ b. elim b [ true ↦ n | false ↦ pure false ]

abbrev pub read : {W A : Type 0} → (W → A) → Cmd W A
read f w = done (f w, w)

abbrev pub modify : {W : Type 0} → (W → W) → Cmd W (Unit {0})
modify f w = done (tt, f w)

-- A walk or search that reads the state but does not change it.
abbrev pub lift : {W A : Type 0} → Outcome A → Cmd W A
lift (done a) w = done (a, w)
lift aborted w = aborted
lift out_of_fuel w = out_of_fuel

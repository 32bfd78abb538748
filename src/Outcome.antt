-- ===== src/Outcome.antt =====
-- How a run of the program ends: with a value, by a failed `assert`, or not within the steps given.
use thingsetplusplus.Prelude.{Option, none, some}

pub data Outcome {ℓ} (A : Type ℓ) : Type ℓ where
  done : A → Outcome A
  aborted : Outcome A
  out_of_fuel : Outcome A

infixl 5 ◌>>=◌
abbrev pub ◌>>=◌ {ℓ κ} : {A : Type ℓ} {B : Type κ} → Outcome A → (A → Outcome B) → Outcome B
done a >>= f = f a
aborted >>= f = aborted
out_of_fuel >>= f = out_of_fuel

-- A walk that did not end within its steps.
abbrev pub walk {ℓ} : {A : Type ℓ} → Option A → Outcome A
walk none = out_of_fuel
walk (some a) = done a

-- ===== src/Base/Result.antt =====
-- The result of a C call.
use mathlib.Core.Bool.{Bool, true, false}

-- `exited`: the call ended the process (`error_logf`, `safe_exit`). `blocked`: it waits for a lock
-- that is held. `fault`: undefined behaviour of C. `out_of_fuel`: the model's bound on the rounds
-- of a loop was met.
pub data Result {ℓ} (R : Type ℓ) : Type ℓ where
  exited blocked fault out_of_fuel : Result R
  ok : R → Result R

-- What follows a call is reached only if the call gave a value.
infixl 6 ◌>>=◌ ◌>>◌
abbrev pub ◌>>=◌ {ℓ κ} : {R : Type ℓ} {S : Type κ} → Result R → (R → Result S) → Result S
exited >>= next = exited
blocked >>= next = blocked
fault >>= next = fault
out_of_fuel >>= next = out_of_fuel
ok r >>= next = next r

abbrev pub ◌>>◌ {ℓ κ} : {R : Type ℓ} {S : Type κ} → Result R → Result S → Result S
first >> second = first >>= λ _. second

-- `if (!test) error_logf(...)`.
abbrev pub require : Bool → Result (Unit {0})
require test = elim test [ true ↦ ok tt | false ↦ exited ]

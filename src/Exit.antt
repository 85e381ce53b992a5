-- ===== src/Exit.antt =====
-- Early returns: a block of a C function faults, returns from the function with a code and the
-- module's state, or goes on with its local variables.
use smr_simulator.Base.{Option, none, some}
use smr_simulator.Types.{Code}
use smr_simulator.State.{Sim}

pub data Exit (A : Type 0) : Type 0 where
  fault : Exit A
  ret : Code → Sim → Exit A
  next : A → Exit A

infixl 5 ◌>>=◌
abbrev pub ◌>>=◌ : {A B : Type 0} → Exit A → (A → Exit B) → Exit B
fault >>= f = fault
ret c s >>= f = ret c s
next a >>= f = f a

-- A memory access: `none` is a fault.
abbrev pub access : {A : Type 0} → Option A → Exit A
access none = fault
access (some a) = next a

-- The call of a function whose last block always returns.
abbrev pub call : Exit (Code × Sim) → Option (Code × Sim)
call fault = none
call (ret c s) = some (c, s)
call (next r) = some r

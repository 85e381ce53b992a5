-- ===== src/Faults.antt =====
-- Sequences of accesses that may fault.
use smr_simulator.Base.{Option, none, some}

infixl 5 ◌>>=◌
abbrev pub ◌>>=◌ : {A B : Type 0} → Option A → (A → Option B) → Option B
none >>= f = none
some a >>= f = f a

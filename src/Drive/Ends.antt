-- ===== src/Drive/Ends.antt =====
-- The ends of a command: what it returns for the code of the call behind it.
use smr_simulator.Base.{◌≡◌, refl, arith, Option, none, some}
use smr_simulator.Types.{Code, success, Code-discrete}
use smr_simulator.State.{Sim}
use smr_simulator.State.Access.{set_task-IsValid}
use smr_simulator.Faults.{◌>>=◌}
use smr_simulator.Pstore.Queue.{note_config}
use smr_simulator.Pstore.Gap.{note_config-IsSpread}
use smr_simulator.Ioctl.{
  In, null, unreadable, given, Out, nowhere, unwritable, writable, Reply, Outcome, noted, unnoted,
  with_arg, copy_out, done, ioerr, nothing,
}
use smr_simulator.Drive.{Drive, Obeyed}
use smr_simulator.Drive.Obey.{ok, fails, tells, on_value}
use smr_simulator.Drive.View.{view, shown, IsTidy}

-- The command returned what the user expects, and left a tidy state that shows the drive expected.
abbrev pub Agrees : Obeyed → Option Outcome → Type 0
Agrees x none = ⊥
Agrees x (some o) = (shown o ≡ x) × IsTidy o.state

-- The code of the call behind a command, as the command returns it.
abbrev pub answered : Code → Drive → Obeyed
answered c d = elim (Code-discrete c success) [ yes _ ↦ ok d | no _ ↦ fails d ]

-- The same of the call.
abbrev pub Calls : Obeyed → Option (Code × Sim) → Type 0
Calls x none = ⊥
Calls x (some (c, s)) = (answered c (view s) ≡ x) × IsTidy s

task-IsTidy : {s : Sim} → IsTidy s → IsTidy (record s { ptask = note_config s.ptask })
task-IsTidy {s} t = record {
  valid = set_task-IsValid _ t.valid (note_config-IsSpread s.ptask t.valid.queue);
  rest = t.rest;
}

pub noted-Agrees : (x : Obeyed) (r : Option (Code × Sim)) → Calls x r → Agrees x (r >>= noted)
unfolding shown view
noted-Agrees x none h = h
noted-Agrees x (some (c, s)) h =
    elim (Code-discrete c success)
      as (λ d. Agrees x (elim d [
        | yes _ ↦ done nothing (record s { ptask = note_config s.ptask })
        | no _ ↦ ioerr s
      ])) [ yes e ↦ (ground (arith, h.0), task-IsTidy h.1) | no n ↦ (ground (arith, h.0), h.1) ]

pub unnoted-Agrees : (x : Obeyed) (r : Option (Code × Sim)) → Calls x r → Agrees x (r >>= unnoted)
unfolding shown view
unnoted-Agrees x none h = h
unnoted-Agrees x (some (c, s)) h =
    elim (Code-discrete c success)
      as (λ d. Agrees x (elim d [ yes _ ↦ done nothing s | no _ ↦ ioerr s ])) [
        | yes e ↦ (ground (arith, h.0), h.1)
        | no n ↦ (ground (arith, h.0), h.1)
      ]

pub with_arg-Agrees :
    {A : Type 0} {s : Sim} (arg : In A) (f : A → Option Outcome) (g : A → Obeyed)
    → IsTidy s
    → ((a : A) → arg ≡ given a → Agrees (g a) (f a))
    → Agrees (on_value (view s) arg g) (with_arg s arg f)
unfolding shown
with_arg-Agrees null f g t h = (refl, t)
with_arg-Agrees unreadable f g t h = (refl, t)
with_arg-Agrees (given a) f g t h = h a refl

pub copy_out-Agrees :
    {s : Sim} (out : Out) (r : Reply) (d : Drive)
    → IsTidy s
    → view s ≡ d
    → Agrees (tells out r d) (copy_out out r s)
unfolding shown
copy_out-Agrees nowhere r d t e = (rw e refl, t)
copy_out-Agrees unwritable r d t e = (rw e refl, t)
copy_out-Agrees writable r d t e = (rw e refl, t)

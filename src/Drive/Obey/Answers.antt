-- ===== src/Drive/Obey/Answers.antt =====
-- The ends of a command as a user sees them.
use smr_simulator.Types.{success, efault}
use smr_simulator.Ioctl.{
  In, null, unreadable, given, Out, nowhere, unwritable, writable, Reply, nothing,
}
use smr_simulator.Drive.{Drive, Obeyed}

abbrev pub ok : Drive → Obeyed
ok d = record { code = success; reply = nothing; drive = d }

abbrev pub fails : Drive → Obeyed
fails d = record { code = efault; reply = nothing; drive = d }

-- A reply reaches the user where it can be copied out.
abbrev pub tells : Out → Reply → Drive → Obeyed
tells writable r d = record { code = success; reply = r; drive = d }
tells nowhere r d = fails d
tells unwritable r d = fails d

-- The command runs on the value of its argument, where that can be copied in.
abbrev pub on_value : {A : Type 0} → Drive → In A → (A → Obeyed) → Obeyed
on_value d null f = fails d
on_value d unreadable f = fails d
on_value d (given a) f = f a

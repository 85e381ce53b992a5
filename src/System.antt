-- ===== src/System.antt =====
-- dm-smrsim.c between smrsim_ctr and smrsim_dtr: the requests that smrsim_map gets, the commands
-- that smrsim_ioctl gets and the rounds of smrsim_persistence_task, in any order. Each is one step.
pub mod Safe
pub mod Saves
pub mod User
pub mod Served
pub mod Refines
use smr_simulator.Base.{ℕ, Bool, List, [], ◌∷◌, ◌++◌, Option, some}
use smr_simulator.Types.{Bio}
use smr_simulator.State.{Sim}
use smr_simulator.Faults.{◌>>=◌}
use smr_simulator.Map.{Target, Verdict, map}
use smr_simulator.Ioctl.{Cmd, Outcome, ioctl}
use smr_simulator.Pstore.Task.{task_round}

-- What stays the same while a target lives: where it starts, the kernel's constants, and the
-- functions of the kernel that the code calls.
pub record Kernel : Type 0 where
  pub target : Target
  pub hz : ℕ
  pub page_size : ℕ
  pub crc_of : Sim → ℕ
  pub is_power_of_2 : ℕ → Bool

-- A request at `jiffies`; a command at `jiffies` with the results of its allocations; a round of
-- the task with the result of its allocation.
pub data Event : Type 0 where
  request : Bio → ℕ → Event
  command : (allocated kzalloc krealloc : Bool) → Cmd → ℕ → Event
  round : Bool → Event

-- What the host, the user and the disk see of a step.
pub data Seen : Type 0 where
  verdict : Verdict → Seen
  outcome : Outcome → Seen
  pages : List ℕ → Seen

module _ (k : Kernel) where
  unfoldable pub step : Sim → Event → Option (Seen × Sim)
  step s (request b jiffies) = do (v, s₁) ← map s k.target b jiffies k.hz; some (verdict v, s₁)
  step s (command allocated kzalloc krealloc cmd jiffies) = do
    o ← ioctl k.is_power_of_2 allocated kzalloc krealloc s cmd jiffies k.hz
    some (outcome o, o.state)
  step s (round allocated) = do
    (s₁, written) ← task_round k.page_size k.crc_of s allocated
    some (pages written, s₁)

  -- One event after the other, as long as none faults.
  unfoldable pub run : Sim → List Event → Option (List Seen × Sim)
  unfolding step
  run s [] = some ([], s)
  run s (e ∷ es) = do (seen, s₁) ← step s e; (rest, s₂) ← run s₁ es; some (seen ∷ rest, s₂)

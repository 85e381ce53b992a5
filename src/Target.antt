-- ===== src/Target.antt =====
-- dm-smrsim.c, smrsim_ctr and smrsim_dtr: the life of a target.
pub mod Callbacks
pub mod Restart
use smr_simulator.Base.{
  ℕ, ◌+◌, Bool, true, false, not, ◌||◌, if◌then◌else◌, ltb, ◌==◌, shl, List, Option, some, none,
}
use smr_simulator.Types.{Code, Code-discrete, success, einval, enomem}
use smr_simulator.State.{Sim, Memory, live, null, freed}
use smr_simulator.State.Geometry.{max_capacity}
use smr_simulator.Faults.{◌>>=◌}
use smr_simulator.Pstore.Bytes.{Pages}
use smr_simulator.Pstore.Load.{
  Answers, Thread, no_thread, error_pointer, thread, persistence_thread,
}

-- The module between its targets: `smrsim_single`, the globals, the thread, the start of the target
-- on the disk (`struct smrsim_c`), and the pages of the disk that hold the object.
pub record Module : Type 0 where
  pub single : Bool
  pub sim : Sim
  pub pstore_thread : Thread
  pub start : ℕ
  pub disk : Pages

-- The table line and what the kernel answers: a target that is not null, the number of arguments,
-- the number that `sscanf` finds, memory for the context, the code of `dm_get_device`, `ti->len`.
pub record Table : Type 0 where
  pub ti : Bool
  pub argc : ℕ
  pub sector : Option ℕ
  pub context : Bool
  pub lookup : Code
  pub len : ℕ

-- The checks of the arguments in their order, and those of the capacity under the shifts that the
-- globals have. A size that is not a multiple of the zone size is only told.
unfoldable pub ctr_refuses : Module → Table → Option Code
ctr_refuses m t = if m.single || not t.ti || not (t.argc == 2) then some einval else elim t.sector [
  | none ↦ some einval
  | some start ↦ if not t.context then some enomem else elim (Code-discrete t.lookup success) [
    | no _ ↦ some t.lookup
    | yes _ ↦
        if ltb max_capacity t.len
          || ltb t.len (shl (shl 1 m.sim.smr_block_size_shift) m.sim.smr_zone_size_shift)
        then some einval
        else none
  ]
]

abbrev pub start_of : Option ℕ → ℕ
start_of none = 0
start_of (some n) = n

-- The debug log is off.
abbrev pub fresh_log : Sim → Sim
fresh_log s = record s { dbg_rerr = 0; dbg_werr = 0; dbg_log_enabled = 0 }

module _ (page_size : ℕ) (crc32 : List ℕ → ℕ) where
  -- The code of `smrsim_persistence_thread` is only told.
  unfoldable pub ctr : Answers → Thread → Table → Module → Option (Code × Module)
  unfolding ctr_refuses
  ctr a made t m = elim (ctr_refuses m t) [
    | some code ↦ some (code, m)
    | none ↦ (do
      (code, s, d) ← persistence_thread page_size crc32 a made t.ti t.len (fresh_log m.sim) m.disk
      some (
        success,
        record m {
          single = true;
          sim = s;
          pstore_thread = made;
          start = start_of t.sector;
          disk = d;
        },
      ))
  ]

-- `kthread_stop` and `vfree(zone_state)`; `zone_state` keeps its address.
abbrev pub stopped : Thread → Module → Option Module
stopped thread m = some m
stopped no_thread m = none
stopped error_pointer m = none

abbrev pub unallocated : Memory → Option Memory
unallocated null = some null
unallocated live = some freed
unallocated freed = none

unfoldable pub dtr : Module → Option Module
dtr m = do
  m₁ ← stopped m.pstore_thread m
  memory ← unallocated m₁.sim.memory
  some (record m₁ { single = false; sim = record m₁.sim { memory = memory } })

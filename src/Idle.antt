-- ===== src/Idle.antt =====
-- dm-smrsim.c, smrsim_dev_idle_init and smrsim_dev_idle_update. The kernel's `jiffies` and `HZ` are
-- arguments.
pub mod Since
use smr_simulator.Base.{
  ℕ, ◌+◌, ◌-◌, ◌/◌, ◌^◌, not, ◌&&◌, if◌then◌else◌, ltb, ◌==◌, u32, u64, Option, some, none,
}
use smr_simulator.State.{Sim, is_live}

-- `dt`: the seconds since the checkpoint. The second branch adds ~(__u32)0 on 64 bits.
unfoldable pub idle_seconds : ℕ → ℕ → ℕ → ℕ
idle_seconds checkpoint jiffies hz =
    if ltb checkpoint jiffies
    then u32 ((jiffies - checkpoint) / hz)
    else u32 (u64 (2 ^ 32 - 1 + 2 ^ 64 - checkpoint + jiffies) / hz)

unfoldable pub dev_idle_init : Sim → ℕ → ℕ → Option Sim
dev_idle_init s jiffies hz =
    if is_live s.memory
    then some (record s {
      dev_idle_checkpoint = jiffies;
      idle_stats = record { dev_idle_time_max = 0; dev_idle_time_min = u32 (jiffies / hz) };
    })
    else none

unfoldable pub dev_idle_update : Sim → ℕ → ℕ → Option Sim
dev_idle_update s jiffies hz =
    if not (is_live s.memory)
    then none
    else if ltb s.idle_stats.dev_idle_time_max dt
    then some (record s { idle_stats = record s.idle_stats { dev_idle_time_max = dt } })
    else if not (dt == 0) && ltb dt s.idle_stats.dev_idle_time_min
    then some (record s { idle_stats = record s.idle_stats { dev_idle_time_min = dt } })
    else some s
  where
    dt : ℕ
    dt = idle_seconds s.dev_idle_checkpoint jiffies hz

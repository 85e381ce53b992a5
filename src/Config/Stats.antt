-- ===== src/Config/Stats.antt =====
-- dm-smrsim.c, smrsim_reset_zone_stats to smrsim_blkdev_reset_zone_ptr, smrsim_get_num_zones and
-- smrsim_get_size_zone_default.
pub mod Rewind
use smr_simulator.Base.{
  ℕ, ◌%◌, true, false, not, if◌then◌else◌, leb, ◌==◌, List, take, length, Option, some, none,
}
use smr_simulator.Types.Cond
use smr_simulator.Types.Kind
use smr_simulator.Types.{ZoneStatus, ZoneStats, IdleStats, Code, success, einval}
use smr_simulator.State.{
  Sim, deref, zone_at, modify_zone, modify_stats, num_sectors_zone, zone_idx_of,
}
use smr_simulator.Faults.{◌>>=◌}
use smr_simulator.Init.{zero_stats}
use smr_simulator.Config.Zones.{clear_first}

unfoldable pub reset_zone_stats : Sim → ℕ → Option (Code × Sim)
reset_zone_stats s start_sector =
    let i = zone_idx_of s start_sector in
    if leb s.smr_numzones i
    then some (einval, s)
    else (do s₁ ← modify_stats s i (λ _. zero_stats); some (success, s₁))

unfoldable pub reset_stats : Sim → Option (Code × Sim)
reset_stats s = do
  stats ← deref s (clear_first s.num_zones zero_stats s.zone_stats)
  some (
    success,
    record s {
      idle_stats = record { dev_idle_time_max = 0; dev_idle_time_min = 0 };
      zone_stats = stats;
    },
  )

-- `struct smrsim_stats` as it is copied out: `SMR_NUMZONES` entries.
pub record Stats : Type 0 where
  pub dev_stats : IdleStats
  pub stats_num_zones : ℕ
  pub stats_zones : List ZoneStats

unfoldable pub get_stats : Sim → Option Stats
get_stats s = deref s (
    if leb s.smr_numzones (length s.zone_stats)
    then some (record {
      dev_stats = s.idle_stats;
      stats_num_zones = s.num_zones;
      stats_zones = take s.smr_numzones s.zone_stats;
    })
    else none)

unfoldable pub get_num_zones : Sim → ℕ
get_num_zones s = s.smr_numzones

unfoldable pub get_size_zone_default : Sim → ℕ
get_size_zone_default s = num_sectors_zone s

-- The write pointer goes back to the zone's start; a sequential zone is empty again.
abbrev pub rewind : ZoneStatus → ZoneStatus
rewind z = record z {
  z_write_ptr_offset = 0;
  z_conds = if z.z_type == Kind.sequential then Cond.empty else z.z_conds;
}

unfoldable pub blkdev_reset_zone_ptr : Sim → ℕ → Option (Code × Sim)
blkdev_reset_zone_ptr s start_sector =
    let i = zone_idx_of s start_sector in
    if leb s.smr_numzones i then some (einval, s) else (do
      z ← zone_at s i
      if z.z_type == Kind.conventional
          then some (einval, s)
          else if not (start_sector % num_sectors_zone s == 0)
          then some (einval, s)
          else (do s₁ ← modify_zone s i rewind; some (success, s₁)))

-- ===== src/Ioctl.antt =====
-- dm-smrsim.c, smrsim_ioctl. The results of allocations are arguments. Each function handles a part
-- of the switch and leaves the other commands to the next one.
mod User
pub mod Holds
pub mod Calls
pub mod Notes
pub use User.*
use smr_simulator.Base.{
  none, false, ℕ, Bool, true, not, ◌||◌, if◌then◌else◌, ltb, ◌==◌, u8, Option, some,
}
use smr_simulator.Types.{ZoneStatus, DevConfig, Code, Code-discrete, success, efault}
use smr_simulator.State.{Sim}
use smr_simulator.Faults.{◌>>=◌}
use smr_simulator.Idle.{dev_idle_update}
use smr_simulator.Rules.Log.{get_last_rd_error, get_last_wd_error, set_log_enable}
use smr_simulator.Pstore.Queue.{note_config}
use smr_simulator.Config.Device.{
  reset_default_device_config, get_device_config, set_device_rconfig, set_device_wconfig,
  set_device_rconfig_delay, set_device_wconfig_delay,
}
use smr_simulator.Config.Zones.{
  set_size_zone_default, reset_default_zone_config, reset_default_config, clear_zone_config,
  modify_zone_config, add_zone_config,
}
use smr_simulator.Config.Stats.{
  Stats, reset_zone_stats, reset_stats, get_stats, get_num_zones, get_size_zone_default,
  blkdev_reset_zone_ptr,
}
use smr_simulator.Config.Research.{forward_wp_adjust, backward_wp_reset, border_across}
use smr_simulator.Query.{Criteria, Answer, query_zones}

-- The commands that read.
unfoldable pub ioctl_get : Sim → Cmd → Option Outcome
ioctl_get s (get_last_rerror out) = let (n, s₁) = get_last_rd_error s in copy_out out (word n) s₁
ioctl_get s (get_last_werror out) = let (n, s₁) = get_last_wd_error s in copy_out out (word n) s₁
ioctl_get s (get_numzones out) = copy_out out (word (get_num_zones s)) s
ioctl_get s (get_sizzonedefault out) = copy_out out (word (get_size_zone_default s)) s
ioctl_get s (get_devconfig out) = do c ← get_device_config s; copy_out out (config c) s
ioctl_get s _ = done nothing s

-- IOCTL_SMRSIM_GET_STATS, with the result of its allocation. Where `copy_to_user` fails, the buffer
-- is freed there and again at the label `sfail`: a fault.
unfoldable pub ioctl_stats : Sim → Bool → Out → Option Outcome
ioctl_stats s false out = ioerr s
ioctl_stats s true unwritable = none
ioctl_stats s true out = do st ← get_stats s; copy_out out (stats st) s

-- IOCTL_SMRSIM_ZBC_QUERY, with the results of its two allocations.
unfoldable pub ioctl_query : Sim → Bool → Bool → In ZbcQuery → Out → Option Outcome
ioctl_query s kzalloc krealloc arg out =
    if not kzalloc
    then ioerr s
    else with_arg s arg λ q.
      if q.num_zones == 0 || ltb s.smr_numzones q.num_zones
      then ioerr s
      else if not krealloc
      then ioerr s
      else (do
        a ← query_zones s true q.lba q.criteria q.num_zones
        elim (Code-discrete a.code success) [ yes _ ↦ copy_out out (zones a) s | no _ ↦ ioerr s ])

-- The debug log.
unfoldable pub ioctl_log : Sim → Cmd → Option Outcome
ioctl_log s set_logenable = done nothing (set_log_enable s 1)
ioctl_log s set_logdisable = done nothing (set_log_enable s 0)
ioctl_log s cmd = ioctl_get s cmd

-- The counters.
unfoldable pub ioctl_reset_stats : Sim → Cmd → Option Outcome
ioctl_reset_stats s reset_stats_cmd = do r ← reset_stats s; noted r
ioctl_reset_stats s (reset_zonestats arg) =
    with_arg s arg λ n. (do r ← reset_zone_stats s n; noted r)
ioctl_reset_stats s cmd = ioctl_log s cmd

-- The device's configuration.
unfoldable pub ioctl_device : Sim → Cmd → Option Outcome
ioctl_device s reset_devconfig = do r ← reset_default_device_config s; noted r
ioctl_device s (set_devrconfig arg) =
    with_arg s arg λ c. (do r ← set_device_rconfig s (some c); noted r)
ioctl_device s (set_devwconfig arg) =
    with_arg s arg λ c. (do r ← set_device_wconfig s (some c); noted r)
ioctl_device s (set_devrconfig_delay arg) =
    with_arg s arg λ c. (do r ← set_device_rconfig_delay s (some c); noted r)
ioctl_device s (set_devwconfig_delay arg) =
    with_arg s arg λ c. (do r ← set_device_wconfig_delay s (some c); noted r)
ioctl_device s cmd = ioctl_reset_stats s cmd

-- The table of zones.
unfoldable pub ioctl_table : Sim → Cmd → Option Outcome
ioctl_table s clear_zoneconfig = do r ← clear_zone_config s; noted r
ioctl_table s (add_zoneconfig arg) =
    with_arg s arg λ z. (do r ← add_zone_config s (some z); noted r)
ioctl_table s (modify_zoneconfig arg) =
    with_arg s arg λ z. (do r ← modify_zone_config s (some z); noted r)
ioctl_table s cmd = ioctl_device s cmd

-- The research options. An option is cut to a __u8.
unfoldable pub ioctl_research : Sim → Cmd → Option Outcome
ioctl_research s (bdwp_reset arg) = with_arg s arg λ n. unnoted (backward_wp_reset s (u8 n))
ioctl_research s (fdwp_adjst arg) = with_arg s arg λ n. unnoted (forward_wp_adjust s (u8 n))
ioctl_research s (border_cross arg) = with_arg s arg λ n. (do r ← border_across s n; unnoted r)
ioctl_research s cmd = ioctl_table s cmd

module _ (is_power_of_2 : ℕ → Bool) (allocated : Bool) where
  -- The size of the zones and the reset of a zone.
  unfoldable pub ioctl_zones : Sim → Cmd → Option Outcome
  ioctl_zones s (set_sizzonedefault arg) =
      with_arg s arg λ n. (do r ← set_size_zone_default is_power_of_2 s n allocated; noted r)
  ioctl_zones s (zbc_reset_zone arg) =
      with_arg s arg λ n. (do r ← blkdev_reset_zone_ptr s n; noted r)
  ioctl_zones s cmd = ioctl_research s cmd

  -- The default configurations.
  unfoldable pub ioctl_reset_config : Sim → Cmd → Option Outcome
  ioctl_reset_config s reset_defaultconfig = do
    r ← reset_default_config s allocated
    noted (and_then (and_then r (λ s₁. backward_wp_reset s₁ 0)) (λ s₂. forward_wp_adjust s₂ 0))
  ioctl_reset_config s reset_zoneconfig = do r ← reset_default_zone_config s allocated; noted r
  ioctl_reset_config s cmd = ioctl_zones s cmd

  unfoldable pub dispatch : Bool → Bool → Sim → Cmd → Option Outcome
  dispatch kzalloc krealloc s (zbc_query arg out) = ioctl_query s kzalloc krealloc arg out
  dispatch kzalloc krealloc s (get_stats_cmd out) = ioctl_stats s kzalloc out
  dispatch kzalloc krealloc s cmd = ioctl_reset_config s cmd

  unfoldable pub ioctl : Bool → Bool → Sim → Cmd → ℕ → ℕ → Option Outcome
  ioctl kzalloc krealloc s cmd jiffies hz = do
    s₁ ← dev_idle_update s jiffies hz
    dispatch kzalloc krealloc s₁ cmd

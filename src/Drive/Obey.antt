-- ===== src/Drive/Obey.antt =====
-- The commands as a user understands them.
mod Answers
mod Zones
mod Changes
pub use Answers.*
unfoldable pub use Zones.*
unfoldable pub use Changes.*
use smr_simulator.Base.{
  ℕ, zero, suc, ◌+◌, ◌-◌, ◌/◌, ◌%◌, ◌^◌, Bool, true, false, not, ◌&&◌, ◌||◌, if◌then◌else◌, ltb,
  leb, ◌==◌, sub32, List, [], ◌∷◌, ◌++◌, length, replicate, take, drop, set, get_elem?, Option,
  none, some,
}
use smr_simulator.Types.Cond
use smr_simulator.Types.Kind
use smr_simulator.Types.Cross
use smr_simulator.Types.{ZoneStatus, ZoneStats, DevConfig, success, efault}
use smr_simulator.Query.{
  Criteria, free_sectors, match_all, match_full, match_nfull, match_free, match_rnly, match_offl,
  unknown, Answer,
}
use smr_simulator.Query.Spec.{keep, window}
use smr_simulator.Ioctl.{
  get_last_rerror, get_last_werror, get_numzones, get_sizzonedefault, get_stats_cmd, get_devconfig,
  set_logenable, set_logdisable, reset_stats_cmd, reset_defaultconfig, reset_zoneconfig,
  reset_devconfig, clear_zoneconfig, set_sizzonedefault, zbc_reset_zone, reset_zonestats,
  bdwp_reset, fdwp_adjst, border_cross, zbc_query, set_devrconfig, set_devwconfig,
  set_devrconfig_delay, set_devwconfig_delay, add_zoneconfig, modify_zoneconfig, other, In, null,
  unreadable, given, Out, nowhere, unwritable, writable, ZbcQuery, Cmd, Reply, nothing, word,
  config, stats, zones,
}
use smr_simulator.Drive.{Drive, Obeyed}

-- What each command does, with memory for what it allocates.
unfoldable pub obey : Drive → Cmd → Obeyed
unfolding can_add formatted found rewind_at modify_at marked
obey d (get_last_rerror out) = tells out (word d.read_error) (record d { read_error = 0 })
obey d (get_last_werror out) = tells out (word d.write_error) (record d { write_error = 0 })
obey d (get_numzones out) = tells out (word (length d.zones)) d
obey d (get_sizzonedefault out) = tells out (word d.zone_size) d
obey d (get_devconfig out) = tells out (config d.device) d
obey d (get_stats_cmd out) =
    tells out
      (stats
        (record { dev_stats = d.idle; stats_num_zones = length d.zones; stats_zones = d.counters }))
      d
obey d set_logenable = ok (record d { log_enabled = 1 })
obey d set_logdisable = ok (record d { log_enabled = 0 })
obey d reset_stats_cmd = ok (record d {
  idle = record { dev_idle_time_max = 0; dev_idle_time_min = 0 };
  counters = replicate (length d.zones) untouched;
})
obey d (reset_zonestats arg) = on_value d arg λ x.
    if ltb (x / d.zone_size) (length d.zones)
    then ok (record d { counters = set d.counters (x / d.zone_size) untouched })
    else fails d
obey d reset_defaultconfig =
    ok (record (formatted d (2 ^ 19) d.default_zones) { reset_option = 0; adjust_option = 0 })
obey d reset_zoneconfig = ok (formatted d (2 ^ 19) d.default_zones)
obey d reset_devconfig = ok (record d { device = default_device })
obey d clear_zoneconfig = ok (record d { zones = []; counters = [] })
obey d (set_sizzonedefault arg) = on_value d arg λ n. ok (formatted d n (d.capacity / n))
obey d (zbc_reset_zone arg) =
    on_value d arg λ x. rewind_at d x (get_elem? d.zones (x / d.zone_size))
obey d (bdwp_reset arg) =
    on_value d arg
      λ n. if ltb 1 (n % 256) then fails d else ok (record d { reset_option = n % 256 })
obey d (fdwp_adjst arg) =
    on_value d arg
      λ n. if ltb 1 (n % 256) then fails d else ok (record d { adjust_option = n % 256 })
obey d (border_cross arg) = on_value d arg λ n. marked d (n % 256) (n / 256)
obey d (zbc_query arg out) = on_value d arg λ q.
    let i = q.lba / d.zone_size in
    if q.num_zones == 0 || ltb (length d.zones) (q.num_zones + i)
    then fails d
    else tells out (zones (found d q i)) d
obey d (set_devrconfig arg) = on_value d arg λ c.
    ok (record d {
      device = record d.device { out_of_policy_read_flag = c.out_of_policy_read_flag };
    })
obey d (set_devwconfig arg) = on_value d arg λ c. ok (record d {
  device = record d.device { out_of_policy_write_flag = c.out_of_policy_write_flag };
})
obey d (set_devrconfig_delay arg) = on_value d arg λ c.
    if ltb c.r_time_to_rmw_zone penalty_limit
    then ok (record d { device = record d.device { r_time_to_rmw_zone = c.r_time_to_rmw_zone } })
    else fails d
obey d (set_devwconfig_delay arg) = on_value d arg λ c.
    if ltb c.w_time_to_rmw_zone penalty_limit
    then ok (record d { device = record d.device { w_time_to_rmw_zone = c.w_time_to_rmw_zone } })
    else fails d
obey d (add_zoneconfig arg) = on_value d arg λ z.
    if can_add d z
    then ok (record d {
      zones = d.zones ++ (record z { z_flag = 0 } ∷ []);
      counters = d.counters ++ (untouched ∷ []);
    })
    else fails d
obey d (modify_zoneconfig arg) = on_value d arg λ z. modify_at d z (get_elem? d.zones z.z_start)
obey d other = ok d

-- ===== src/Drive/View.antt =====
-- The drive that a state of the module shows.
use smr_simulator.Base.{◌*◌, ◌^◌, take}
use smr_simulator.State.{Sim}
use smr_simulator.State.Geometry.{IsValid}
use smr_simulator.Ioctl.{Outcome}
use smr_simulator.Drive.{Drive, Obeyed}
use smr_simulator.Drive.Obey.{untouched}
use smr_simulator.Drive.Lists.{RestIs}

unfoldable pub view : Sim → Drive
view s = record {
  capacity = s.smr_capacity;
  default_zones = s.smr_numzones_default;
  zone_size = 8 * 2 ^ s.smr_zone_size_shift;
  zones = take s.smr_numzones s.zone_status;
  counters = take s.smr_numzones s.zone_stats;
  device = s.dev_config;
  idle = s.idle_stats;
  read_error = s.dbg_rerr;
  write_error = s.dbg_werr;
  log_enabled = s.dbg_log_enabled;
  reset_option = s.wp_reset_flag;
  adjust_option = s.wp_adjust_flag;
}

unfoldable pub shown : Outcome → Obeyed
unfolding view
shown o = record { code = o.code; reply = o.reply; drive = view o.state }

-- A valid state in which the counters behind the last zone are untouched.
pub record IsTidy (s : Sim) : Type 0 where
  pub valid : IsValid s
  pub rest : RestIs untouched s.smr_numzones s.zone_stats

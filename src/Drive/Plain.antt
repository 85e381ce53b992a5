-- ===== src/Drive/Plain.antt =====
-- The commands that leave the zones: the device's configuration, the log, the research options and
-- the counters. They do to the module's state what they do to the drive that it shows.
use smr_simulator.Base.{ℕ, arith, ltb, if◌then◌else◌, some}
use smr_simulator.Types.{DevConfig}
use smr_simulator.State.{Sim}
use smr_simulator.Config.Device.{
  reset_default_device_config, set_device_rconfig, set_device_wconfig, set_device_rconfig_delay,
  set_device_wconfig_delay,
}
use smr_simulator.Config.Research.{forward_wp_adjust, backward_wp_reset}
use smr_simulator.Drive.Obey.{ok, fails, default_device, penalty_limit}
use smr_simulator.Drive.View.{view, IsTidy}
use smr_simulator.Drive.Ends.{Calls}

module _ {s : Sim} (t : IsTidy s) where
  config-IsTidy : (c : DevConfig) → IsTidy (record s { dev_config = c })
  config-IsTidy c = record { valid = ground (arith, t.valid); rest = t.rest }

  pub reset_device-Calls :
      Calls (ok (record (view s) { device = default_device })) (reset_default_device_config s)
  unfolding reset_default_device_config view
  reset_device-Calls = ground (arith, t.valid.is_allocated, config-IsTidy default_device)

  pub set_rdelay-Calls :
      (c : DevConfig)
      → Calls
          (if ltb c.r_time_to_rmw_zone penalty_limit
            then ok (record (view s) {
              device = record (view s).device { r_time_to_rmw_zone = c.r_time_to_rmw_zone };
            })
            else fails (view s))
          (set_device_rconfig_delay s (some c))
  unfolding set_device_rconfig_delay view
  set_rdelay-Calls c =
      ground (
        arith,
        t,
        config-IsTidy (record s.dev_config { r_time_to_rmw_zone = c.r_time_to_rmw_zone }),
      )

  pub set_wdelay-Calls :
      (c : DevConfig)
      → Calls
          (if ltb c.w_time_to_rmw_zone penalty_limit
            then ok (record (view s) {
              device = record (view s).device { w_time_to_rmw_zone = c.w_time_to_rmw_zone };
            })
            else fails (view s))
          (set_device_wconfig_delay s (some c))
  unfolding set_device_wconfig_delay view
  set_wdelay-Calls c =
      ground (
        arith,
        t,
        config-IsTidy (record s.dev_config { w_time_to_rmw_zone = c.w_time_to_rmw_zone }),
      )

  pub set_rconfig-Calls :
      (c : DevConfig)
      → Calls
          (ok (record (view s) {
            device = record (view s).device { out_of_policy_read_flag = c.out_of_policy_read_flag };
          }))
          (set_device_rconfig s (some c))
  unfolding set_device_rconfig view
  set_rconfig-Calls c = ground (
    arith,
    t.valid.is_allocated,
    config-IsTidy (record s.dev_config { out_of_policy_read_flag = c.out_of_policy_read_flag }),
  )

  pub set_wconfig-Calls :
      (c : DevConfig)
      → Calls
          (ok (record (view s) {
            device = record (view s).device {
              out_of_policy_write_flag = c.out_of_policy_write_flag;
            };
          }))
          (set_device_wconfig s (some c))
  unfolding set_device_wconfig view
  set_wconfig-Calls c = ground (
    arith,
    t.valid.is_allocated,
    config-IsTidy (record s.dev_config { out_of_policy_write_flag = c.out_of_policy_write_flag }),
  )

  pub reset_option-IsTidy : (n : ℕ) → IsTidy (record s { wp_reset_flag = n })
  reset_option-IsTidy n = record { valid = ground (arith, t.valid); rest = t.rest }

  pub adjust_option-IsTidy : (n : ℕ) → IsTidy (record s { wp_adjust_flag = n })
  adjust_option-IsTidy n = record { valid = ground (arith, t.valid); rest = t.rest }

  pub backward_wp_reset-Calls :
      (n : ℕ)
      → Calls
          (if ltb 1 n then fails (view s) else ok (record (view s) { reset_option = n }))
          (some (backward_wp_reset s n))
  unfolding backward_wp_reset view
  backward_wp_reset-Calls n = ground (arith, t, reset_option-IsTidy n)

  pub forward_wp_adjust-Calls :
      (n : ℕ)
      → Calls
          (if ltb 1 n then fails (view s) else ok (record (view s) { adjust_option = n }))
          (some (forward_wp_adjust s n))
  unfolding forward_wp_adjust view
  forward_wp_adjust-Calls n = ground (arith, t, adjust_option-IsTidy n)

  pub log-IsTidy : (n : ℕ) → IsTidy (record s { dbg_log_enabled = n })
  log-IsTidy n = record { valid = ground (arith, t.valid); rest = t.rest }

  pub rerr-IsTidy : IsTidy (record s { dbg_rerr = 0 })
  rerr-IsTidy = record { valid = ground (arith, t.valid); rest = t.rest }

  pub werr-IsTidy : IsTidy (record s { dbg_werr = 0 })
  werr-IsTidy = record { valid = ground (arith, t.valid); rest = t.rest }

-- ===== src/Config/Device.antt =====
-- dm-smrsim.c, smrsim_reset_default_device_config to smrsim_set_device_wconfig_delay. A pointer
-- argument is an option: `none` is the null pointer.
use smr_simulator.Base.{ℕ, if◌then◌else◌, leb, Option, some, none}
use smr_simulator.Types.{DevConfig, Code, success, einval}
use smr_simulator.State.{Sim, deref}
use smr_simulator.Init.{out_of_policy_penalty}

-- `SMR_OUT_OF_POLICY_PENALTY_MAX`, in milliseconds
abbrev pub penalty_max : ℕ
penalty_max = 10000

unfoldable pub reset_default_device_config : Sim → Option (Code × Sim)
reset_default_device_config s = deref s (
    some (
      success,
      record s {
        dev_config = record {
          out_of_policy_read_flag = 0;
          out_of_policy_write_flag = 0;
          r_time_to_rmw_zone = out_of_policy_penalty;
          w_time_to_rmw_zone = out_of_policy_penalty;
        };
      },
    ))

-- The configuration goes through the pointer, if it is not null.
unfoldable pub get_device_config : Sim → Option DevConfig
get_device_config s = deref s (some s.dev_config)

unfoldable pub set_device_rconfig : Sim → Option DevConfig → Option (Code × Sim)
set_device_rconfig s none = some (einval, s)
set_device_rconfig s (some c) = deref s (
    some (
      success,
      record s {
        dev_config = record s.dev_config { out_of_policy_read_flag = c.out_of_policy_read_flag };
      },
    ))

unfoldable pub set_device_wconfig : Sim → Option DevConfig → Option (Code × Sim)
set_device_wconfig s none = some (einval, s)
set_device_wconfig s (some c) = deref s (
    some (
      success,
      record s {
        dev_config = record s.dev_config { out_of_policy_write_flag = c.out_of_policy_write_flag };
      },
    ))

unfoldable pub set_device_rconfig_delay : Sim → Option DevConfig → Option (Code × Sim)
set_device_rconfig_delay s none = some (einval, s)
set_device_rconfig_delay s (some c) =
    if leb penalty_max c.r_time_to_rmw_zone
    then some (einval, s)
    else deref s (
        some (
          success,
          record s {
            dev_config = record s.dev_config { r_time_to_rmw_zone = c.r_time_to_rmw_zone };
          },
        ))

unfoldable pub set_device_wconfig_delay : Sim → Option DevConfig → Option (Code × Sim)
set_device_wconfig_delay s none = some (einval, s)
set_device_wconfig_delay s (some c) =
    if leb penalty_max c.w_time_to_rmw_zone
    then some (einval, s)
    else deref s (
        some (
          success,
          record s {
            dev_config = record s.dev_config { w_time_to_rmw_zone = c.w_time_to_rmw_zone };
          },
        ))

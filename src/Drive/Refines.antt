-- ===== src/Drive/Refines.antt =====
-- smrsim_ioctl against the drive that it shows.
use smr_simulator.Base.{
  ◌≢◌, ℕ, ◌*◌, ◌≡◌, ◌≤◌, ◌<◌, ◌^◌, arith, refl, Option, none, some, Bool, true, u8,
}
use smr_simulator.Types.{Code, success}
use smr_simulator.State.{Sim}
use smr_simulator.State.Geometry.{num_sectors_zone-size}
use smr_simulator.Faults.{◌>>=◌}
use smr_simulator.Rules.Log.{get_last_rd_error, get_last_wd_error, set_log_enable}
use smr_simulator.Config.Device.{get_device_config}
use smr_simulator.Config.Stats.{get_stats, get_num_zones, get_size_zone_default}
use smr_simulator.Config.Research.{forward_wp_adjust, backward_wp_reset}
use smr_simulator.Ioctl.{
  get_last_rerror, get_last_werror, get_numzones, get_sizzonedefault, get_stats_cmd, get_devconfig,
  set_logenable, set_logdisable, reset_stats_cmd, reset_defaultconfig, reset_zoneconfig,
  reset_devconfig, clear_zoneconfig, set_sizzonedefault, zbc_reset_zone, reset_zonestats,
  bdwp_reset, fdwp_adjst, border_cross, zbc_query, set_devrconfig, set_devwconfig,
  set_devrconfig_delay, set_devwconfig_delay, add_zoneconfig, modify_zoneconfig, other, In, given,
  word, config, Out, nowhere, unwritable, writable, ZbcQuery, Cmd, Outcome, noted, and_then,
  ioctl_get, ioctl_stats, ioctl_query, ioctl_log, ioctl_reset_stats, ioctl_device, ioctl_table,
  ioctl_research, ioctl_zones, ioctl_reset_config, dispatch,
}
use smr_simulator.Ioctl.Calls.{Safe}
use smr_simulator.Drive.{Drive, Obeyed}
use smr_simulator.Drive.Obey.{obey, ok}
use smr_simulator.Drive.Lists.{length-take}
use smr_simulator.Drive.View.{view, shown, IsTidy}
use smr_simulator.Drive.Ends.{
  Agrees, Calls, answered, noted-Agrees, unnoted-Agrees, with_arg-Agrees, copy_out-Agrees,
}
use smr_simulator.Drive.Plain.{
  reset_device-Calls, set_rconfig-Calls, set_wconfig-Calls, set_rdelay-Calls, set_wdelay-Calls,
  backward_wp_reset-Calls, forward_wp_adjust-Calls, log-IsTidy, rerr-IsTidy, werr-IsTidy,
  reset_option-IsTidy, adjust_option-IsTidy,
}
use smr_simulator.Drive.Counters.{reset_stats-Calls, reset_zone_stats-Calls}
use smr_simulator.Drive.Table.{reset_zone_ptr-Calls, clear-Calls, add-Calls}
use smr_simulator.Drive.Modify.{modify-Calls}
use smr_simulator.Drive.Mark.{border-Calls}
use smr_simulator.Drive.Format.{size-Calls, default_zones-Calls, default-Calls}
use smr_simulator.Drive.Found.{asked-Agrees}

-- The sector of a command is one of the device, and the index in a border option is a __u32.
abbrev pub OnDevice : Sim → Cmd → Type 0
OnDevice s (zbc_reset_zone arg) = (x : ℕ) → arg ≡ given x → x ≤ s.smr_capacity
OnDevice s (reset_zonestats arg) = (x : ℕ) → arg ≡ given x → x ≤ s.smr_capacity
OnDevice s (border_cross arg) = (n : ℕ) → arg ≡ given n → n < 2 ^ 40
OnDevice s _ = Unit

module _ {s : Sim} (t : IsTidy s) where
  query-Agrees :
      (arg : In ZbcQuery) (out : Out)
      → ((q : ZbcQuery) → arg ≡ given q → q.lba ≤ s.smr_capacity)
      → Agrees (obey (view s) (zbc_query arg out)) (ioctl_query s true true arg out)
  unfolding obey ioctl_query
  query-Agrees arg out h = with_arg-Agrees arg _ _ t λ q e. asked-Agrees t q (h q e) out

  stats-Agrees :
      (out : Out)
      → out ≢ unwritable
      → Agrees (obey (view s) (get_stats_cmd out)) (ioctl_stats s true out)
  unfolding obey ioctl_stats get_stats view shown
  stats-Agrees unwritable h = absurd (h refl)
  stats-Agrees nowhere h = ground (arith, t)
  stats-Agrees writable h =
      ground (arith, t, length-take s.smr_numzones s.zone_status t.valid.status_room)

  get-Agrees :
      (out : Out)
      → Agrees (obey (view s) (get_last_rerror out)) (ioctl_get s (get_last_rerror out))
        × Agrees (obey (view s) (get_last_werror out)) (ioctl_get s (get_last_werror out))
        × Agrees (obey (view s) (get_numzones out)) (ioctl_get s (get_numzones out))
        × Agrees (obey (view s) (get_sizzonedefault out)) (ioctl_get s (get_sizzonedefault out))
        × Agrees (obey (view s) (get_devconfig out)) (ioctl_get s (get_devconfig out))
  unfolding obey ioctl_get get_last_rd_error get_last_wd_error get_device_config get_num_zones
      get_size_zone_default view
  get-Agrees out = (
    copy_out-Agrees out (word s.dbg_rerr) _ (rerr-IsTidy t) refl,
    copy_out-Agrees out (word s.dbg_werr) _ (werr-IsTidy t) refl,
    rw (length-take s.smr_numzones s.zone_status t.valid.status_room)
        (copy_out-Agrees out (word s.smr_numzones) _ t refl),
    rw (num_sectors_zone-size t.valid)
        (copy_out-Agrees out (word (8 * 2 ^ s.smr_zone_size_shift)) _ t refl),
    ground (arith, t.valid.is_allocated, copy_out-Agrees out (config s.dev_config) (view s) t refl),
  )

answered-ok : (c : Code) (x d : Drive) → answered c x ≡ ok d → (c ≡ success) × (x ≡ d)
answered-ok c x d e = ground arith

-- The research options are turned off after a call that succeeded.
abbrev options_off : Code × Sim → Code × Sim
options_off r = and_then (and_then r (λ s. backward_wp_reset s 0)) (λ s. forward_wp_adjust s 0)

options_off-eq :
    (s : Sim)
    → options_off (success, s) ≡ (success, record s { wp_reset_flag = 0; wp_adjust_flag = 0 })
unfolding forward_wp_adjust backward_wp_reset
options_off-eq s = ground arith

options_off-Calls :
    (d : Drive) (c : Code) (s : Sim)
    → Calls (ok d) (some (c, s))
    → Calls (ok (record d { reset_option = 0; adjust_option = 0 })) (some (options_off (c, s)))
unfolding view
options_off-Calls d c s (e, t) =
    let (good, same) = answered-ok c (view s) d e in
    rw (good, ← same, options_off-eq s)
      (ground arith, adjust_option-IsTidy (reset_option-IsTidy t 0) 0)

default-Agrees :
    (d : Drive) (r : Option (Code × Sim))
    → Calls (ok d) r
    → Agrees
        (ok (record d { reset_option = 0; adjust_option = 0 }))
        (r >>= λ a. noted (options_off a))
default-Agrees d none h = h
default-Agrees d (some (c, s)) h =
    noted-Agrees _ (some (options_off (c, s))) (options_off-Calls d c s h)

module _ (is_power_of_2 : ℕ → Bool) (powers : (k : ℕ) → k < 64 → is_power_of_2 (2 ^ k) ≡ true)
    {s : Sim} (t : IsTidy s) where
  size-Agrees :
      (arg : In ℕ)
      → Safe s (set_sizzonedefault arg)
      → Agrees
          (obey (view s) (set_sizzonedefault arg))
          (ioctl_zones is_power_of_2 true s (set_sizzonedefault arg))
  unfolding obey ioctl_zones
  size-Agrees arg h = with_arg-Agrees arg _ _ t λ n e.
      let (k, q, small, few) = h n e in
      rw q (noted-Agrees _ _ (size-Calls t is_power_of_2 powers k small few))

  agrees :
      (cmd : Cmd)
      → Safe s cmd
      → OnDevice s cmd
      → Agrees (obey (view s) cmd) (dispatch is_power_of_2 true true true s cmd)
  unfolding obey dispatch ioctl_reset_config ioctl_zones ioctl_research ioctl_table ioctl_device
      ioctl_reset_stats ioctl_log ioctl_get shown view set_log_enable
  agrees (get_last_rerror out) h on = (get-Agrees t out).0
  agrees (get_last_werror out) h on = (get-Agrees t out).1
  agrees (get_numzones out) h on = (get-Agrees t out).2
  agrees (get_sizzonedefault out) h on = (get-Agrees t out).3
  agrees (get_devconfig out) h on = (get-Agrees t out).4
  agrees (get_stats_cmd out) h on = stats-Agrees t out h
  agrees set_logenable h on = (refl, log-IsTidy t 1)
  agrees set_logdisable h on = (refl, log-IsTidy t 0)
  agrees reset_stats_cmd h on = noted-Agrees _ _ (reset_stats-Calls t)
  agrees reset_defaultconfig h on = default-Agrees _ _ (default-Calls t)
  agrees reset_zoneconfig h on = noted-Agrees _ _ (default_zones-Calls t)
  agrees reset_devconfig h on = noted-Agrees _ _ (reset_device-Calls t)
  agrees clear_zoneconfig h on = noted-Agrees _ _ (clear-Calls t)
  agrees (set_sizzonedefault arg) h on = size-Agrees arg h
  agrees (zbc_reset_zone arg) h on =
      with_arg-Agrees arg _ _ t λ x e. noted-Agrees _ _ (reset_zone_ptr-Calls t x (on x e))
  agrees (reset_zonestats arg) h on =
      with_arg-Agrees arg _ _ t λ x e. noted-Agrees _ _ (reset_zone_stats-Calls t x (on x e))
  agrees (bdwp_reset arg) h on =
      with_arg-Agrees arg _ _ t λ n e.
        unnoted-Agrees _ (some (backward_wp_reset s (u8 n))) (backward_wp_reset-Calls t (u8 n))
  agrees (fdwp_adjst arg) h on =
      with_arg-Agrees arg _ _ t λ n e.
        unnoted-Agrees _ (some (forward_wp_adjust s (u8 n))) (forward_wp_adjust-Calls t (u8 n))
  agrees (border_cross arg) h on =
      with_arg-Agrees arg _ _ t λ n e. unnoted-Agrees _ _ (border-Calls t n (on n e) (h n e))
  agrees (zbc_query arg out) h on = query-Agrees t arg out h
  agrees (set_devrconfig arg) h on =
      with_arg-Agrees arg _ _ t λ c e. noted-Agrees _ _ (set_rconfig-Calls t c)
  agrees (set_devwconfig arg) h on =
      with_arg-Agrees arg _ _ t λ c e. noted-Agrees _ _ (set_wconfig-Calls t c)
  agrees (set_devrconfig_delay arg) h on =
      with_arg-Agrees arg _ _ t λ c e. noted-Agrees _ _ (set_rdelay-Calls t c)
  agrees (set_devwconfig_delay arg) h on =
      with_arg-Agrees arg _ _ t λ c e. noted-Agrees _ _ (set_wdelay-Calls t c)
  agrees (add_zoneconfig arg) h on =
      with_arg-Agrees arg _ _ t λ z e. noted-Agrees _ _ (add-Calls t z h)
  agrees (modify_zoneconfig arg) h on =
      with_arg-Agrees arg _ _ t λ z e. noted-Agrees _ _ (modify-Calls t z)
  agrees other h on = (refl, t)

Agrees-outcome :
    (x : Obeyed) (r : Option Outcome)
    → Agrees x r
    → (o : Outcome) × (r ≡ some o) × (shown o ≡ x) × IsTidy o.state
Agrees-outcome x none h = absurd h
Agrees-outcome x (some o) h = (o, refl, h.0, h.1)

-- Where `is_power_of_2` holds of the powers of two below 2 ^ 64 and there is memory: in a valid
-- state in which the counters behind the last zone are zero (`IsTidy`), a safe command whose sector
-- is one of the device and whose index in a border option is a __u32 returns, with the code and the
-- reply that `obey` gives for the drive that the state shows; the state after it is such a state
-- again, and shows the drive that `obey` leaves.
pub dispatch-obey :
    (is_power_of_2 : ℕ → Bool)
    → ((k : ℕ) → k < 64 → is_power_of_2 (2 ^ k) ≡ true)
    → (s : Sim) (cmd : Cmd) → IsTidy s
    → Safe s cmd
    → OnDevice s cmd
    → (o : Outcome) × (dispatch is_power_of_2 true true true s cmd ≡ some o)
      × (shown o ≡ obey (view s) cmd)
      × IsTidy o.state
dispatch-obey is_power_of_2 powers s cmd t h on =
    Agrees-outcome (obey (view s) cmd) _ (agrees is_power_of_2 powers t cmd h on)

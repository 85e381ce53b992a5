-- ===== src/Ioctl/Calls.antt =====
-- smrsim_ioctl in a valid state: which commands are safe, and what a safe command leaves.
use smr_simulator.Base.{
  ◌≢◌, ℕ, ◌+◌, ◌*◌, ◌≡◌, ◌≤◌, ◌<◌, ◌^◌, ◌%◌, arith, Option, some, none, Bool, true, length, u8, u32,
  shr, Bool-cases, refl,
}
use smr_simulator.Types.Cross
use smr_simulator.Types.{ZoneStatus, success}
use smr_simulator.State.{Sim}
use smr_simulator.State.Geometry.{IsValid}
use smr_simulator.Config.Keeps.{
  reset_device-KeepsValid, set_rconfig-KeepsValid, set_wconfig-KeepsValid, set_rdelay-KeepsValid,
  set_wdelay-KeepsValid, reset_zone_stats-KeepsValid, reset_stats-KeepsValid,
  reset_zone_ptr-KeepsValid, border_across-KeepsValid,
}
use smr_simulator.Config.Research.{forward_wp_adjust, backward_wp_reset}
use smr_simulator.Config.Zones.{add_rejects}
use smr_simulator.Config.Zones.Resize.{
  resized, set_size_zone_default_lem, reset_default_config_lem, reset_default_zone_config_lem,
}
use smr_simulator.Config.Zones.Table.{
  add_zone_config_lem, modify_zone_config_lem, clear_zone_config_lem,
}
use smr_simulator.Ioctl.Holds.{
  Holds, noted-Holds, unnoted-Holds, with_arg-Holds, stats-Holds, query-Holds, get-Holds, log-Holds,
  adjust-Holds, reset-Holds,
}
use smr_simulator.Ioctl.{
  get_last_rerror, get_last_werror, get_numzones, get_sizzonedefault, get_stats_cmd, get_devconfig,
  set_logenable, set_logdisable, reset_stats_cmd, reset_defaultconfig, reset_zoneconfig,
  reset_devconfig, clear_zoneconfig, set_sizzonedefault, zbc_reset_zone, reset_zonestats,
  bdwp_reset, fdwp_adjst, border_cross, zbc_query, set_devrconfig, set_devwconfig,
  set_devrconfig_delay, set_devwconfig_delay, add_zoneconfig, modify_zoneconfig, other, In, given,
  unwritable, ZbcQuery, Cmd, Outcome, ioctl_get, ioctl_log, ioctl_reset_stats, ioctl_device,
  ioctl_table, ioctl_research, ioctl_zones, ioctl_reset_config, dispatch, and_then,
}

-- What a command needs to be safe: room in the table for a zone that is added, an index of the
-- table for the border option of one zone, a sector of the device for a query, a zone size that can
-- be set up, and a buffer for the statistics that can be written.
abbrev pub Safe : Sim → Cmd → Type 0
Safe s (add_zoneconfig arg) = s.smr_numzones < length s.zone_status
Safe s (border_cross arg) =
    (n : ℕ) → arg ≡ given n → n % 256 ≡ Cross.cur → u32 (shr n 8) < s.smr_numzones
Safe s (zbc_query arg out) = (q : ZbcQuery) → arg ≡ given q → q.lba ≤ s.smr_capacity
Safe s (set_sizzonedefault arg) =
    (n : ℕ)
    → arg ≡ given n
    → (k : ℕ) × (n ≡ 8 * 2 ^ k) × (k ≤ 27) × (44 * (resized s k).smr_numzones + 44 < 2 ^ 32)
Safe s (get_stats_cmd out) = out ≢ unwritable
Safe s _ = Unit

pub given_inj : {a b : ℕ} → given a ≡ given b → a ≡ b
given_inj e = cc

module _ (is_power_of_2 : ℕ → Bool) (powers : (k : ℕ) → k < 64 → is_power_of_2 (2 ^ k) ≡ true)
    {s : Sim} (v : IsValid s) where
  size-Holds :
      (arg : In ℕ)
      → Safe s (set_sizzonedefault arg)
      → Holds (ioctl_zones is_power_of_2 true s (set_sizzonedefault arg))
  unfolding ioctl_zones
  size-Holds arg h = with_arg-Holds s arg _ v λ n e.
      let (k, q, small, few) = h n e in
      let (s', r, v', _, _) = set_size_zone_default_lem is_power_of_2 powers v k small few in
      rw (q, r) (noted-Holds (some (success, s')) v')

  default-Holds : Holds (ioctl_reset_config is_power_of_2 true s reset_defaultconfig)
  unfolding ioctl_reset_config forward_wp_adjust backward_wp_reset
  default-Holds =
      let (s', r, v', _, _) = reset_default_config_lem v in
      let off = record s' { wp_reset_flag = 0; wp_adjust_flag = 0 } in
      let resets : and_then (and_then (success, s') (λ s₁. backward_wp_reset s₁ 0))
            (λ s₂. forward_wp_adjust s₂ 0)
          ≡ (success, off) =
        ground arith in
      rw (r, resets) (noted-Holds (some (success, off)) (ground (arith, v')))

  default_zones-Holds : Holds (ioctl_reset_config is_power_of_2 true s reset_zoneconfig)
  unfolding ioctl_reset_config
  default_zones-Holds =
      let (s', r, v') = reset_default_zone_config_lem v in
      rw r (noted-Holds (some (success, s')) v')

  table-Holds :
      (arg : In ZoneStatus)
      → s.smr_numzones < length s.zone_status
      → Holds (ioctl_table s (add_zoneconfig arg))
  unfolding ioctl_table
  table-Holds arg h = with_arg-Holds s arg _ v λ z e.
      noted-Holds _ (ground (arith, v, add_zone_config_lem v z, Bool-cases (add_rejects s z)))

  modify-Holds : (arg : In ZoneStatus) → Holds (ioctl_table s (modify_zoneconfig arg))
  unfolding ioctl_table
  modify-Holds arg =
      with_arg-Holds s arg _ v λ z e. noted-Holds _ (ground (arith, v, modify_zone_config_lem v z))

  clear-Holds : Holds (ioctl_table s clear_zoneconfig)
  unfolding ioctl_table
  clear-Holds =
      let (s', r, v', _, _) = clear_zone_config_lem v in rw r (noted-Holds (some (success, s')) v')

-- Where `is_power_of_2` holds of the powers of two below 2 ^ 64 and there is memory for a new
-- table, a safe command (`Safe`) returns in every valid state, whatever is copied from and to the
-- user, and leaves the state valid.
pub dispatch_total :
    (is_power_of_2 : ℕ → Bool)
    → ((k : ℕ) → k < 64 → is_power_of_2 (2 ^ k) ≡ true)
    → (kzalloc krealloc : Bool) (s : Sim) (cmd : Cmd) → IsValid s
    → Safe s cmd
    → (o : Outcome) × (dispatch is_power_of_2 true kzalloc krealloc s cmd ≡ some o)
      × IsValid o.state
unfolding dispatch ioctl_reset_config ioctl_zones ioctl_research ioctl_table ioctl_device
    ioctl_reset_stats ioctl_log ioctl_get
dispatch_total is_power_of_2 powers kzalloc krealloc s cmd v h = Holds-outcome _ (holds cmd h)
  where
    Holds-outcome : (r : Option Outcome) → Holds r → (o : Outcome) × (r ≡ some o) × IsValid o.state
    Holds-outcome none h = absurd h
    Holds-outcome (some o) h = (o, refl, h)

    holds : (cmd : Cmd) → Safe s cmd → Holds (dispatch is_power_of_2 true kzalloc krealloc s cmd)
    holds (get_last_rerror out) h = (get-Holds v out).0
    holds (get_last_werror out) h = (get-Holds v out).1
    holds (get_numzones out) h = (get-Holds v out).2
    holds (get_sizzonedefault out) h = (get-Holds v out).3
    holds (get_devconfig out) h = (get-Holds v out).4
    holds (get_stats_cmd out) h = stats-Holds v kzalloc out h
    holds set_logenable h = log-Holds v 1
    holds set_logdisable h = log-Holds v 0
    holds reset_stats_cmd h = noted-Holds _ (reset_stats-KeepsValid v)
    holds reset_defaultconfig h = default-Holds is_power_of_2 powers v
    holds reset_zoneconfig h = default_zones-Holds is_power_of_2 powers v
    holds reset_devconfig h = noted-Holds _ (reset_device-KeepsValid v)
    holds clear_zoneconfig h = clear-Holds is_power_of_2 powers v
    holds (set_sizzonedefault arg) h = size-Holds is_power_of_2 powers v arg h
    holds (zbc_reset_zone arg) h =
        with_arg-Holds s arg _ v λ n e. noted-Holds _ (reset_zone_ptr-KeepsValid v n)
    holds (reset_zonestats arg) h =
        with_arg-Holds s arg _ v λ n e. noted-Holds _ (reset_zone_stats-KeepsValid v n)
    holds (bdwp_reset arg) h = with_arg-Holds s arg _ v λ n e. reset-Holds v (u8 n)
    holds (fdwp_adjst arg) h = with_arg-Holds s arg _ v λ n e. adjust-Holds v (u8 n)
    holds (border_cross arg) h =
        with_arg-Holds s arg _ v λ n e. unnoted-Holds _ (border_across-KeepsValid n v (h n e))
    holds (zbc_query arg out) h = query-Holds v kzalloc krealloc arg out h
    holds (set_devrconfig arg) h =
        with_arg-Holds s arg _ v λ c e. noted-Holds _ (set_rconfig-KeepsValid v c)
    holds (set_devwconfig arg) h =
        with_arg-Holds s arg _ v λ c e. noted-Holds _ (set_wconfig-KeepsValid v c)
    holds (set_devrconfig_delay arg) h =
        with_arg-Holds s arg _ v λ c e. noted-Holds _ (set_rdelay-KeepsValid v c)
    holds (set_devwconfig_delay arg) h =
        with_arg-Holds s arg _ v λ c e. noted-Holds _ (set_wdelay-KeepsValid v c)
    holds (add_zoneconfig arg) h = table-Holds is_power_of_2 powers v arg h
    holds (modify_zoneconfig arg) h = modify-Holds is_power_of_2 powers v arg
    holds other h = v

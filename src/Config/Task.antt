-- ===== src/Config/Task.antt =====
-- The configuring calls leave the background task alone.
use smr_simulator.Base.{
  ℕ, zero, suc, ◌+◌, ◌≡◌, ◌%◌, inl, inr, Option-cases, arith, Bool, Option, some, none, refl,
}
use smr_simulator.Types.{ZoneStatus, ZoneStats, DevConfig, Code}
use smr_simulator.State.{Sim, modify_zone, modify_stats}
use smr_simulator.Init.{init_zone_state_default, default_state}
use smr_simulator.Config.Device.{
  reset_default_device_config, set_device_rconfig, set_device_wconfig, set_device_rconfig_delay,
  set_device_wconfig_delay,
}
use smr_simulator.Config.Zones.{
  set_size_zone_default, reset_default_zone_config, reset_default_config, clear_zone_config,
  modify_zone_config, modify_checked, add_zone_config,
}
use smr_simulator.Config.Stats.{reset_zone_stats, reset_stats, blkdev_reset_zone_ptr}
use smr_simulator.Config.Research.{update_zones, border_across, set_flag, set_flag_seq}

-- The call faults, or leaves the state of the background task as it was.
abbrev pub Leaves : Sim → Option (Code × Sim) → Type 0
Leaves s none = Unit
Leaves s (some (c, s')) = s'.ptask ≡ s.ptask

abbrev Untouched : Sim → Option Sim → Type 0
Untouched s none = Unit
Untouched s (some s') = s'.ptask ≡ s.ptask

modify_zone-Untouched :
    (s : Sim) (i : ℕ) (f : ZoneStatus → ZoneStatus) → Untouched s (modify_zone s i f)
unfolding modify_zone
modify_zone-Untouched s i f = ground arith

modify_stats-Untouched :
    (s : Sim) (i : ℕ) (f : ZoneStats → ZoneStats) → Untouched s (modify_stats s i f)
unfolding modify_stats
modify_stats-Untouched s i f = ground arith

update_zones-Untouched :
    (f : ZoneStatus → ZoneStatus) (n : ℕ) (s : Sim) (index : ℕ)
    → Untouched s (update_zones f n s index)
unfolding update_zones
update_zones-Untouched f zero s index = refl
update_zones-Untouched f (suc n) s index = elim (Option-cases (modify_zone s index f)) [
  | inl e ↦ rw e tt
  | inr (s₁, e) ↦
      let same : s₁.ptask ≡ s.ptask = rw e at (modify_zone-Untouched s index f) in
      ground (arith, e, same, update_zones-Untouched f n s₁ (index + 1))
]

module _ (s : Sim) where
  pub reset_device-Leaves : Leaves s (reset_default_device_config s)
  unfolding reset_default_device_config
  reset_device-Leaves = ground arith

  pub set_rconfig-Leaves : (c : DevConfig) → Leaves s (set_device_rconfig s (some c))
  unfolding set_device_rconfig
  set_rconfig-Leaves c = ground arith

  pub set_wconfig-Leaves : (c : DevConfig) → Leaves s (set_device_wconfig s (some c))
  unfolding set_device_wconfig
  set_wconfig-Leaves c = ground arith

  pub set_rdelay-Leaves : (c : DevConfig) → Leaves s (set_device_rconfig_delay s (some c))
  unfolding set_device_rconfig_delay
  set_rdelay-Leaves c = ground arith

  pub set_wdelay-Leaves : (c : DevConfig) → Leaves s (set_device_wconfig_delay s (some c))
  unfolding set_device_wconfig_delay
  set_wdelay-Leaves c = ground arith

  pub reset_zone_stats-Leaves : (x : ℕ) → Leaves s (reset_zone_stats s x)
  unfolding reset_zone_stats modify_stats
  reset_zone_stats-Leaves x = ground arith

  pub reset_stats-Leaves : Leaves s (reset_stats s)
  unfolding reset_stats
  reset_stats-Leaves = ground arith

  pub reset_zone_ptr-Leaves : (x : ℕ) → Leaves s (blkdev_reset_zone_ptr s x)
  unfolding blkdev_reset_zone_ptr modify_zone
  reset_zone_ptr-Leaves x = ground arith

  pub size-Leaves :
      (is_power_of_2 : ℕ → Bool) (n : ℕ) (allocated : Bool)
      → Leaves s (set_size_zone_default is_power_of_2 s n allocated)
  unfolding set_size_zone_default init_zone_state_default default_state
  size-Leaves is_power_of_2 n allocated = ground arith

  pub default_zones-Leaves : (allocated : Bool) → Leaves s (reset_default_zone_config s allocated)
  unfolding reset_default_zone_config init_zone_state_default default_state
  default_zones-Leaves allocated = ground arith

  pub default-Leaves : (allocated : Bool) → Leaves s (reset_default_config s allocated)
  unfolding reset_default_config reset_default_zone_config reset_default_device_config
      init_zone_state_default default_state
  default-Leaves allocated = ground arith

  pub clear-Leaves : Leaves s (clear_zone_config s)
  unfolding clear_zone_config
  clear-Leaves = ground arith

  pub add-Leaves : (z : ZoneStatus) → Leaves s (add_zone_config s (some z))
  unfolding add_zone_config modify_zone
  add-Leaves z = ground arith

  pub modify-Leaves : (z : ZoneStatus) → Leaves s (modify_zone_config s (some z))
  unfolding modify_zone_config modify_checked modify_zone
  modify-Leaves z = ground arith

  pub border-Leaves : (n : ℕ) → Leaves s (border_across s n)
  unfolding border_across modify_zone
  border-Leaves n = ground (
    arith,
    update_zones-Untouched (set_flag (n % 256)) s.smr_numzones s 0,
    update_zones-Untouched (set_flag_seq (n % 256)) s.smr_numzones s 0,
  )

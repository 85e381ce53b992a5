-- ===== src/Config/Keeps.antt =====
-- The configuring calls return in every valid state, and keep it valid.
use native.Mathlib.Decide.{dec_lt}
use smr_simulator.Base.{
  get_elem?-none, Bool-cases, ◌==◌, inl, inr, ℕ, zero, suc, ◌+◌, ◌≡◌, ◌≤◌, ◌<◌, ◌%◌, arith, List,
  Option, some, none, length, length-set, length-clear, set, u32, shr, refl,
}
use smr_simulator.Types.Cross
use smr_simulator.Types.{ZoneStatus, ZoneStats, DevConfig, Code}
use smr_simulator.State.{modify_zone, zone_at, Sim, zone_idx_of}
use smr_simulator.State.Geometry.{IsValid}
use smr_simulator.State.Access.{
  zone_at-valid, stats_at-valid, modify_zone-some, modify_stats-some, set_zone-IsValid,
}
use smr_simulator.Init.{zero_stats}
use smr_simulator.Config.Device.{
  reset_default_device_config, set_device_rconfig, set_device_wconfig, set_device_rconfig_delay,
  set_device_wconfig_delay,
}
use smr_simulator.Config.Stats.{reset_zone_stats, reset_stats, blkdev_reset_zone_ptr, rewind}
use smr_simulator.Config.Research.{update_zones, border_across, set_flag, set_flag_seq}

-- The call returned, and the state is valid.
abbrev pub KeepsValid : Option (Code × Sim) → Type 0
KeepsValid none = ⊥
KeepsValid (some (c, s)) = IsValid s

module _ {s : Sim} (v : IsValid s) where
  pub reset_device-KeepsValid : KeepsValid (reset_default_device_config s)
  unfolding reset_default_device_config
  reset_device-KeepsValid = ground (arith, v)

  pub set_rconfig-KeepsValid : (c : DevConfig) → KeepsValid (set_device_rconfig s (some c))
  unfolding set_device_rconfig
  set_rconfig-KeepsValid c = ground (arith, v)

  pub set_wconfig-KeepsValid : (c : DevConfig) → KeepsValid (set_device_wconfig s (some c))
  unfolding set_device_wconfig
  set_wconfig-KeepsValid c = ground (arith, v)

  pub set_rdelay-KeepsValid : (c : DevConfig) → KeepsValid (set_device_rconfig_delay s (some c))
  unfolding set_device_rconfig_delay
  set_rdelay-KeepsValid c = ground (arith, v)

  pub set_wdelay-KeepsValid : (c : DevConfig) → KeepsValid (set_device_wconfig_delay s (some c))
  unfolding set_device_wconfig_delay
  set_wdelay-KeepsValid c = ground (arith, v)

  set_stats-IsValid :
      (xs : List ZoneStats)
      → length xs ≡ length s.zone_stats
      → IsValid (record s { zone_stats = xs })
  set_stats-IsValid xs e = ground (arith, v)

  pub reset_zone_stats-KeepsValid : (x : ℕ) → KeepsValid (reset_zone_stats s x)
  unfolding reset_zone_stats
  reset_zone_stats-KeepsValid x = elim (dec_lt (zone_idx_of s x) s.smr_numzones) [
    | no out ↦ ground (arith, v)
    | yes h ↦
        let (t, e) = stats_at-valid (zone_idx_of s x) v h in
        ground (
          arith,
          modify_stats-some s (zone_idx_of s x) (λ _. zero_stats) e,
          set_stats-IsValid (set s.zone_stats (zone_idx_of s x) zero_stats)
              (length-set s.zone_stats (zone_idx_of s x) zero_stats),
        )
  ]

  pub reset_stats-KeepsValid : KeepsValid (reset_stats s)
  unfolding reset_stats
  reset_stats-KeepsValid =
      let n = length-clear s.num_zones zero_stats s.zone_stats (omega (arith, v)) in
      ground (arith, v)

  pub reset_zone_ptr-KeepsValid : (x : ℕ) → KeepsValid (blkdev_reset_zone_ptr s x)
  unfolding blkdev_reset_zone_ptr
  reset_zone_ptr-KeepsValid x = elim (dec_lt (zone_idx_of s x) s.smr_numzones) [
    | no out ↦ ground (arith, v)
    | yes h ↦
        let (z, e) = zone_at-valid (zone_idx_of s x) v h in
        ground (
          arith,
          v,
          modify_zone-some s (zone_idx_of s x) rewind e,
          set_zone-IsValid (zone_idx_of s x) (rewind z) v,
        )
  ]

update_zones-KeepsValid :
    (f : ZoneStatus → ZoneStatus) (n : ℕ) (s : Sim) (index : ℕ)
    → IsValid s
    → index + n ≤ s.smr_numzones
    → (s' : Sim) × (update_zones f n s index ≡ some s') × IsValid s'
unfolding update_zones
update_zones-KeepsValid f zero s index v h = (s, refl, v)
update_zones-KeepsValid f (suc n) s index v h =
    let (z, e) = zone_at-valid index v (omega arith) in
    let s₁ : Sim = record s { zone_status = set s.zone_status index (f z) } in
    let (s', e', v') =
      update_zones-KeepsValid f n s₁ (index + 1) (set_zone-IsValid index (f z) v) (omega arith) in
    (s', ground (arith, modify_zone-some s index f e, e'), v')

-- The code for one zone needs an index of the table.
pub border_across-KeepsValid :
    {s : Sim} (param : ℕ)
    → IsValid s
    → (param % 256 ≡ Cross.cur → u32 (shr param 8) < s.smr_numzones)
    → KeepsValid (border_across s param)
unfolding border_across
border_across-KeepsValid {s} param v h =
    let code = param % 256 in
    let (s₁, e₁, v₁) = update_zones-KeepsValid (set_flag code) s.smr_numzones s 0 v (omega arith) in
    let (s₂, e₂, v₂) =
      update_zones-KeepsValid (set_flag_seq code) s.smr_numzones s 0 v (omega arith) in
    elim (Bool-cases (code == Cross.cur)) [
      | inr other ↦ ground (arith, v)
      | inl cur ↦
          let (z, e) = zone_at-valid (u32 (shr param 8)) v (h (ground (arith, cur))) in
          ground (
            arith,
            v,
            modify_zone-some s (u32 (shr param 8)) (set_flag code) e,
            set_zone-IsValid (u32 (shr param 8)) (set_flag code z) v,
          )
    ]

-- The index in the command is not checked: in a valid state, with the code for one zone and an
-- index past the table, the flag is written past the end of the object.
pub border_across_overruns :
    {s : Sim} (param : ℕ)
    → IsValid s
    → param % 256 ≡ Cross.cur
    → length s.zone_status ≤ u32 (shr param 8)
    → border_across s param ≡ none
unfolding border_across modify_zone zone_at
border_across_overruns {s} param v code out =
    ground (arith, v, get_elem?-none s.zone_status (u32 (shr param 8)) out)

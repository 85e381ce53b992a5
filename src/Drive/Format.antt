-- ===== src/Drive/Format.antt =====
-- smrsim_set_size_zone_default, smrsim_reset_default_zone_config and smrsim_reset_default_config: a
-- new table of zones.
use native.Mathlib.Nat.{div-div-eq-div-mul, div-le_self}
use smr_simulator.Base.{
  ℕ, zero, suc, ◌+◌, ◌-◌, ◌*◌, ◌/◌, ◌≡◌, ◌<◌, ◌≤◌, ◌^◌, refl, arith, Bool, true, Option, some, take,
  replicate, ◌∙◌, length-replicate,
}
use smr_simulator.Types.{Code, success}
use smr_simulator.State.{Sim, num_sectors_zone}
use smr_simulator.State.Geometry.{IsValid, num_sectors_zone-size}
use smr_simulator.Init.{init_zones, initial_zone, default_state, state_size}
use smr_simulator.Init.Layout.{
  CanHold, default_state-IsValid, state_size-CanHold, length-init_zones,
  init_zone_state_default_fits,
}
use smr_simulator.Config.Zones.{
  set_size_zone_default, reset_default_zone_config, reset_default_config,
}
use smr_simulator.Config.Device.{reset_default_device_config}
use smr_simulator.Config.Zones.Resize.{
  resized, resized-CanHold, set_size_eq, with_defaults, defaults-CanHold,
}
use smr_simulator.Drive.{Drive}
use smr_simulator.Drive.Lists.{take-length}
use smr_simulator.Drive.Obey.{new_zone, new_zones, formatted, untouched, ok}
use smr_simulator.Drive.View.{view, IsTidy}
use smr_simulator.Drive.Ends.{Calls}

initial_zone-new :
    (s : Sim) (size i m : ℕ)
    → num_sectors_zone s ≡ size
    → i + suc m ≡ s.smr_numzones
    → initial_zone s i ≡ new_zone size s.smr_numzones (s.smr_numzones - suc m)
unfolding initial_zone
initial_zone-new s size i m e h =
    let own : s.smr_numzones - suc m ≡ i = omega arith in rw own (ground (arith, e))

init_zones-new :
    (s : Sim) (size m i : ℕ)
    → num_sectors_zone s ≡ size
    → i + m ≡ s.smr_numzones
    → init_zones s m i ≡ new_zones size s.smr_numzones m
unfolding init_zones new_zones
init_zones-new s size zero i e h = refl
init_zones-new s size (suc m) i e h =
    rw (initial_zone-new s size i m e h, init_zones-new s size m (i + 1) e (omega arith)) refl

module _ {s : Sim} (c : CanHold s) where
  abbrev bytes : ℕ
  bytes = state_size s

  new_table-IsTidy : IsTidy (default_state s bytes)
  unfolding default_state
  new_table-IsTidy = record {
    valid = default_state-IsValid bytes (state_size-CanHold c) c;
    rest = λ j l le. absurd (omega (arith, length-replicate {A = _} s.smr_numzones untouched));
  }

  sized : num_sectors_zone s ≡ 8 * 2 ^ s.smr_zone_size_shift
  unfolding num_sectors_zone default_state
  sized = num_sectors_zone-size (default_state-IsValid bytes (state_size-CanHold c) c)

  new_table-view :
      view (default_state s bytes)
      ≡ formatted (view s) (8 * 2 ^ s.smr_zone_size_shift) s.smr_numzones
  unfolding view default_state formatted
  new_table-view =
      let n = s.smr_numzones in
      let size = 8 * 2 ^ s.smr_zone_size_shift in
      let zs : take n (init_zones s n 0) ≡ new_zones size n n =
        take-length n (init_zones s n 0) (length-init_zones s n 0)
        ∙ init_zones-new s size n 0 sized (omega arith) in
      let cs : take n (replicate n untouched) ≡ replicate n untouched =
        take-length n (replicate n untouched) (length-replicate n untouched) in
      rw (zs, cs) refl

-- The number of zones of `8 * 2 ^ k` sectors.
resized-count :
    {s : Sim} (k : ℕ) → IsValid s → (resized s k).smr_numzones ≡ s.smr_capacity / (8 * 2 ^ k)
resized-count {s} k v =
    rw (v.block_shift, div-div-eq-div-mul s.smr_capacity 8 (2 ^ k)) (omega (arith, less, v.small))
  where
    less : s.smr_capacity / (8 * 2 ^ k) ≤ s.smr_capacity / 8
    less = rw (← div-div-eq-div-mul s.smr_capacity 8 (2 ^ k)) (div-le_self (s.smr_capacity / 8) _)

-- A call that succeeds.
succeeds :
    {x : Drive} {s : Sim} (r : Option (Code × Sim))
    → r ≡ some (success, s)
    → view s ≡ x
    → IsTidy s
    → Calls (ok x) r
succeeds r e w t = rw e (ground (arith, w), t)

module _ {s : Sim} (t : IsTidy s) where
  pub size-Calls :
      (is_power_of_2 : ℕ → Bool)
      → ((k : ℕ) → k < 64 → is_power_of_2 (2 ^ k) ≡ true)
      → (k : ℕ) → k ≤ 27
      → 44 * (resized s k).smr_numzones + 44 < 2 ^ 32
      → Calls
          (ok (formatted (view s) (8 * 2 ^ k) ((view s).capacity / (8 * 2 ^ k))))
          (set_size_zone_default is_power_of_2 s (8 * 2 ^ k) true)
  unfolding view formatted
  size-Calls is_power_of_2 powers k small few =
      let s₁ = resized s k in
      let c = resized-CanHold k t.valid small few in
      succeeds _
        (ground (
          arith,
          set_size_eq is_power_of_2 powers t.valid k small true,
          (init_zone_state_default_fits s₁).0 few,
        ))
        (rw (← resized-count k t.valid) (new_table-view c)) (new_table-IsTidy c)

  few : 44 * (with_defaults s).smr_numzones + 44 < 2 ^ 32
  few = (defaults-CanHold t.valid).object

  pub default_zones-Calls :
      Calls
        (ok (formatted (view s) (2 ^ 19) (view s).default_zones))
        (reset_default_zone_config s true)
  unfolding view formatted reset_default_zone_config
  default_zones-Calls =
      let s₁ = with_defaults s in
      let c = defaults-CanHold t.valid in
      succeeds _ (ground (arith, (init_zone_state_default_fits s₁).0 few)) (new_table-view c)
        (new_table-IsTidy c)

  pub default-Calls :
      Calls (ok (formatted (view s) (2 ^ 19) (view s).default_zones)) (reset_default_config s true)
  unfolding view formatted reset_default_config reset_default_zone_config
      reset_default_device_config default_state
  default-Calls =
      let s₁ = with_defaults s in
      let c = defaults-CanHold t.valid in
      succeeds _ (ground (arith, (init_zone_state_default_fits s₁).0 few)) (new_table-view c)
        (new_table-IsTidy c)

-- ===== src/Config/Zones/Resize.antt =====
-- dm-smrsim.c, smrsim_set_size_zone_default and smrsim_reset_default_config: a new table, or what
-- is left without memory for it.
use native.Mathlib.Nat.{div-mul-le_self, div-div-eq-div-mul, pow-suc}
use smr_simulator.Base.{
  ℕ, ◌+◌, ◌*◌, ◌/◌, ◌^◌, ◌≡◌, ◌<◌, ◌≤◌, arith, Bool, true, false, length, some, none, u32, shr, ◌%◌,
  shl, if◌then◌else◌, refl, suc,
}
use smr_simulator.Types.{success, einval}
use smr_simulator.State.{Sim, live, freed, zone_at, num_sectors_zone}
use smr_simulator.State.Geometry.{IsValid, num_sectors_zone-size}
use smr_simulator.Init.{
  state_size, index_power_of_2, init_zone_state_default, default_state, initial_zone,
}
use smr_simulator.Init.Power.{index_power_of_2-pow}
use smr_simulator.Init.Layout.{
  CanHold, default_state-IsValid, state_size-CanHold, init_zone_state_default_fits,
  zone_at-default_state,
}
use smr_simulator.Config.Zones.{
  set_size_zone_default, reset_default_zone_config, reset_default_config,
}
use smr_simulator.Config.Device.{reset_default_device_config}

-- The state with the zones' number and size for `8 * 2 ^ k` sectors to a zone.
abbrev pub resized : Sim → ℕ → Sim
resized s k = record s {
  smr_zone_size_shift = k;
  smr_numzones = u32 (shr (shr s.smr_capacity s.smr_block_size_shift) k);
}

mul_le : (i n p : ℕ) → i ≤ n → i * p ≤ n * p
mul_le i n p h = grind arith

cut_fits : (c p : ℕ) → u32 (c / p) * p ≤ c
cut_fits c p = omega (arith, mul_le (u32 (c / p)) (c / p) p (omega arith), div-mul-le_self c p)

pub resized-CanHold :
    {s : Sim} (k : ℕ)
    → IsValid s
    → k ≤ 27
    → 44 * (resized s k).smr_numzones + 44 < 2 ^ 32
    → CanHold (resized s k)
resized-CanHold {s} k v h few = record {
  block_shift = v.block_shift;
  zone_shift = h;
  fits =
      rw (v.block_shift, div-div-eq-div-mul s.smr_capacity 8 (2 ^ k))
        (cut_fits s.smr_capacity (8 * 2 ^ k));
  small = v.small;
  defaults = v.defaults;
  queue = v.queue;
  object = few;
}

module _ (is_power_of_2 : ℕ → Bool) (powers : (k : ℕ) → k < 64 → is_power_of_2 (2 ^ k) ≡ true)
    {s : Sim} (v : IsValid s) (k : ℕ) (small : k ≤ 27) where
  pub set_size_eq :
      (allocated : Bool)
      → set_size_zone_default is_power_of_2 s (8 * 2 ^ k) allocated ≡ (
          if allocated
          then (elim (init_zone_state_default (resized s k) (state_size (resized s k))) [
            | none ↦ none
            | some s₂ ↦ some (success, s₂)
          ])
          else some (einval, resized s k))
  unfolding set_size_zone_default
  set_size_eq allocated = ground (arith, aligned, pow, shift)
    where
      aligned : 8 * 2 ^ k % u32 (shl 1 s.smr_block_size_shift) ≡ 0
      aligned = rw v.block_shift (omega arith)

      eight : 8 * 2 ^ k ≡ 2 ^ suc (suc (suc k))
      eight = omega (arith, pow-suc 2 k, pow-suc 2 (suc k), pow-suc 2 (suc (suc k)))

      pow : is_power_of_2 (8 * 2 ^ k) ≡ true
      pow = rw eight (powers (suc (suc (suc k))) (omega arith))

      halved : 8 * 2 ^ k / 8 ≡ 2 ^ k
      halved = omega arith

      shift : u32 (index_power_of_2 (shr (8 * 2 ^ k) s.smr_block_size_shift)) ≡ k
      shift = rw (v.block_shift, halved, index_power_of_2-pow k (omega arith)) (omega arith)

  -- In a valid state, where `is_power_of_2` holds of the powers of two below 2 ^ 64 and there is
  -- memory, a power of two from 8 to 2 ^ 30 sectors is accepted as the zone size if the object for
  -- the new number of zones fits a __u32; then the state is valid, the size is that one, and every
  -- zone is in its initial state.
  pub set_size_zone_default_lem :
      44 * (resized s k).smr_numzones + 44 < 2 ^ 32
      → (s' : Sim) × (set_size_zone_default is_power_of_2 s (8 * 2 ^ k) true ≡ some (success, s'))
        × IsValid s'
        × (num_sectors_zone s' ≡ 8 * 2 ^ k)
        × ((i : ℕ) → i < s'.smr_numzones → zone_at s' i ≡ some (initial_zone (resized s k) i))
  unfolding default_state
  set_size_zone_default_lem few =
      let s₁ = resized s k in
      let v' =
        default_state-IsValid (state_size s₁) (state_size-CanHold (resized-CanHold k v small few))
          (resized-CanHold k v small few) in
      (
        default_state s₁ (state_size s₁),
        ground (arith, set_size_eq true, (init_zone_state_default_fits s₁).0 few),
        v',
        num_sectors_zone-size v',
        λ i lt. zone_at-default_state s₁ (state_size s₁) i lt,
      )

  -- In a valid state, for such a size and without memory, the call fails and the old object stays,
  -- but the number of zones is the new one: if that exceeds the old table, the state is no longer
  -- valid.
  pub set_size_zone_default_no_memory :
      (set_size_zone_default is_power_of_2 s (8 * 2 ^ k) false ≡ some (einval, resized s k))
      × (length s.zone_status < (resized s k).smr_numzones → ¬ IsValid (resized s k))
  set_size_zone_default_no_memory = (set_size_eq false, λ h w. omega (arith, w.status_room))

abbrev pub with_defaults : Sim → Sim
with_defaults s = record s { smr_numzones = s.smr_numzones_default; smr_zone_size_shift = 16 }

pub defaults-CanHold : {s : Sim} → IsValid s → CanHold (with_defaults s)
defaults-CanHold v = record {
  block_shift = v.block_shift;
  zone_shift = omega arith;
  fits = v.defaults;
  small = v.small;
  defaults = v.defaults;
  queue = v.queue;
  object = omega (arith, v.defaults, v.small);
}

-- With memory the default table is set up again.
pub reset_default_zone_config_lem :
    {s : Sim}
    → IsValid s
    → (s' : Sim) × (reset_default_zone_config s true ≡ some (success, s')) × IsValid s'
unfolding reset_default_zone_config
reset_default_zone_config_lem {s} v =
    let s₁ = with_defaults s in
    (
      default_state s₁ (state_size s₁),
      ground (arith, (init_zone_state_default_fits s₁).0 (omega (arith, v.defaults, v.small))),
      default_state-IsValid (state_size s₁) (state_size-CanHold (defaults-CanHold v))
          (defaults-CanHold v),
    )

abbrev pub reconfigured : Sim → Sim
reconfigured s = record s {
  dev_config = record {
    out_of_policy_read_flag = 0;
    out_of_policy_write_flag = 0;
    r_time_to_rmw_zone = 4000;
    w_time_to_rmw_zone = 4000;
  };
}

reconfigured-IsValid : {s : Sim} → IsValid s → IsValid (reconfigured s)
reconfigured-IsValid v = ground arith

-- In a valid state and with memory both default configurations are set up again: the state is
-- valid, with the default number of zones of 2 ^ 19 sectors.
pub reset_default_config_lem :
    {s : Sim}
    → IsValid s
    → (s' : Sim) × (reset_default_config s true ≡ some (success, s'))
      × IsValid s'
      × (s'.smr_numzones ≡ s.smr_numzones_default)
      × (num_sectors_zone s' ≡ 2 ^ 19)
unfolding reset_default_config reset_default_zone_config reset_default_device_config default_state
reset_default_config_lem {s} v =
    let s₁ = with_defaults s in
    let v' =
      default_state-IsValid (state_size s₁) (state_size-CanHold (defaults-CanHold v))
        (defaults-CanHold v) in
    (
      reconfigured (default_state s₁ (state_size s₁)),
      ground (arith, (init_zone_state_default_fits s₁).0 (omega (arith, v.defaults, v.small))),
      reconfigured-IsValid v',
      refl,
      num_sectors_zone-size (reconfigured-IsValid v'),
    )

-- With the object allocated and without memory for a new one, smrsim_reset_default_zone_config frees
-- the object, sets the default number and size of the zones and returns -EINVAL.
-- smrsim_reset_default_device_config writes to the object that zone_state points to, which is a fault
-- where that was freed; so smrsim_reset_default_config, which goes on to it all the same, ends in a
-- fault.
pub reset_default_config_no_memory :
    (s : Sim)
    → s.memory ≡ live
    → (reset_default_zone_config s false
        ≡ some (einval, record (with_defaults s) { memory = freed }))
      × ((t : Sim) → t.memory ≡ freed → reset_default_device_config t ≡ none)
      × (reset_default_config s false ≡ none)
unfolding reset_default_config reset_default_zone_config reset_default_device_config
reset_default_config_no_memory s m =
    (ground (arith, m), λ t f. ground (arith, f), ground (arith, m))

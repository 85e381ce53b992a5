-- ===== src/Init/Layout.antt =====
-- The object after its initialisation: how large it is, what its zones are, and that it is valid.
use smr_simulator.Base.{
  ℕ, zero, suc, ◌+◌, ◌*◌, ◌/◌, ◌^◌, ◌≡◌, ◌<◌, ◌≤◌, ◌≢◌, refl, ap, ◌∙◌, arith, u32, true, length,
  length-replicate, get_elem?, some, none,
}
use smr_simulator.Types.{success}
use smr_simulator.State.{Sim, zone_at, freed}
use smr_simulator.Pstore.Spread.{IsSpread}
use smr_simulator.State.Geometry.{IsValid, max_capacity}
use smr_simulator.Idle.{dev_idle_init}
use smr_simulator.Init.{
  state_size, init_zones, initial_zone, init_zone_default, init_zone_state_default, init_zone_state,
  zero_stats, default_state,
}

pub length-init_zones : (s : Sim) (n i : ℕ) → length (init_zones s n i) ≡ n
unfolding init_zones
length-init_zones s zero i = refl
length-init_zones s (suc n) i = ap suc (length-init_zones s n (i + 1))

get_elem?-init_zones :
    (s : Sim) (n i k : ℕ) → k < n → get_elem? (init_zones s n i) k ≡ some (initial_zone s (i + k))
unfolding init_zones
get_elem?-init_zones s zero i k h = elim h [ ]
get_elem?-init_zones s (suc n) i zero h = ap (λ j. some (initial_zone s j)) (omega arith)
get_elem?-init_zones s (suc n) i (suc k) h =
    ground (arith, get_elem?-init_zones s n (i + 1) k (omega arith), shift)
  where
    shift : i + 1 + k ≡ i + suc k
    shift = omega arith

-- Entry `k` of the new table.
pub zone_at-default_state :
    (s : Sim) (bytes k : ℕ)
    → k < s.smr_numzones
    → zone_at (default_state s bytes) k ≡ some (initial_zone s k)
unfolding zone_at default_state
zone_at-default_state s bytes k h =
    get_elem?-init_zones s s.smr_numzones 0 k h ∙ ap (λ j. some (initial_zone s j)) (omega arith)

-- The geometry that the initialisation needs for a valid object.
pub record CanHold (s : Sim) : Type 0 where
  pub block_shift : s.smr_block_size_shift ≡ 3
  pub zone_shift : s.smr_zone_size_shift ≤ 27
  pub fits : s.smr_numzones * (8 * 2 ^ s.smr_zone_size_shift) ≤ s.smr_capacity
  pub small : s.smr_capacity ≤ max_capacity
  pub defaults : s.smr_numzones_default * (8 * 2 ^ 16) ≤ s.smr_capacity
  pub queue : IsSpread s.ptask
  pub object : 44 * s.smr_numzones + 44 < 2 ^ 32

pub default_state-IsValid :
    {s : Sim} (bytes : ℕ)
    → bytes ≡ 44 * s.smr_numzones + 44
    → CanHold s
    → IsValid (default_state s bytes)
unfolding default_state
default_state-IsValid {s} bytes e c =
    let n : length (init_zones s s.smr_numzones 0) ≡ s.smr_numzones =
      length-init_zones s s.smr_numzones 0 in
    record {
      is_allocated = refl;
      block_shift = c.block_shift;
      zone_shift = c.zone_shift;
      fits = rw n c.fits;
      small = c.small;
      status_room = omega arith;
      stats_room = omega (arith, length-replicate s.smr_numzones zero_stats);
      counted = refl;
      defaults = c.defaults;
      queue = c.queue;
      object = rw n c.object;
      sized = rw n e;
    }

pub state_size-CanHold : {s : Sim} → CanHold s → state_size s ≡ 44 * s.smr_numzones + 44
unfolding state_size
state_size-CanHold c = omega (arith, c.object)

-- The size that is computed on 32 bits holds the object as long as its 44 bytes for each zone and
-- 44 more do not reach 2 ^ 32, and it is then written as `default_state`; from there on the
-- initialisation writes past the end of it.
pub init_zone_state_default_fits :
    (s : Sim)
    → (44 * s.smr_numzones + 44 < 2 ^ 32
        → init_zone_state_default s (state_size s) ≡ some (default_state s (state_size s)))
      × (2 ^ 32 ≤ 44 * s.smr_numzones + 44 → init_zone_state_default s (state_size s) ≡ none)
unfolding init_zone_state_default state_size
init_zone_state_default_fits s = (λ h. ground arith, λ h. ground arith)

init_zone_default-CanHold :
    (s : Sim) (sizedev : ℕ)
    → sizedev ≤ max_capacity
    → IsSpread s.ptask
    → CanHold (init_zone_default s sizedev)
unfolding init_zone_default
init_zone_default-CanHold s sizedev h q = record {
  block_shift = refl;
  zone_shift = omega arith;
  fits = omega arith;
  small = h;
  defaults = omega arith;
  queue = q;
  object = omega arith;
}

-- With memory, no object that was freed before and the queue of the background task in order, a
-- device of at least one sector and at most 10 TB gets a valid object, and every zone of it is in
-- its initial state (`initial_zone`).
pub init_zone_state_lem :
    (s : Sim) (sizedev jiffies hz : ℕ)
    → sizedev ≢ 0
    → sizedev ≤ max_capacity
    → s.memory ≢ freed
    → IsSpread s.ptask
    → (s' : Sim) × (init_zone_state s sizedev true jiffies hz ≡ some (success, s'))
      × IsValid s'
      × (s'.smr_numzones ≡ (init_zone_default s sizedev).smr_numzones)
      × ((k : ℕ)
          → k < s'.smr_numzones
          → zone_at s' k ≡ some (initial_zone (init_zone_default s sizedev) k))
unfolding init_zone_state dev_idle_init zone_at default_state
init_zone_state_lem s sizedev jiffies hz ne h kept q =
    let s₁ = init_zone_default s sizedev in
    let s₂ = default_state s₁ (state_size s₁) in
    let c = init_zone_default-CanHold s sizedev h q in
    let v = default_state-IsValid (state_size s₁) (state_size-CanHold c) c in
    (
      record s₂ {
        dev_idle_checkpoint = jiffies;
        idle_stats = record { dev_idle_time_max = 0; dev_idle_time_min = u32 (jiffies / hz) };
      },
      ground (arith, (init_zone_state_default_fits s₁).0 (few sizedev h)),
      ground (arith, v),
      refl,
      λ k lt. zone_at-default_state s₁ (state_size s₁) k lt,
    )
  where
    few : (n : ℕ) → n ≤ max_capacity → 44 * (init_zone_default s n).smr_numzones + 44 < 2 ^ 32
    few n h = unfold init_zone_default in omega arith

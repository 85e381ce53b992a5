-- ===== src/State/Geometry.antt =====
-- The invariant of the module's state, and the geometry of the zones under it: no shift or sum of
-- the checks leaves its word.
use native.Mathlib.Nat.{pow-le-pow_right, div-div-eq-div-mul, lt-div-mul-add, div-mul-le_self}
use native.Mathlib.Nat.{div-le_self, div-lt_iff_lt-mul}
use smr_simulator.Base.{ℕ, ◌+◌, ◌*◌, ◌/◌, ◌^◌, ◌≤◌, ◌<◌, ◌≡◌, arith, length}
use smr_simulator.Pstore.Spread.{IsSpread}
use smr_simulator.State.{Sim, live, num_sectors_zone, zone_idx_lba, zone_idx_of}

-- `SMR_MAX_CAPACITY`
abbrev pub max_capacity : ℕ
max_capacity = 21474836480

-- The object is allocated, its size fits a __u32 and is the length in its header, both arrays have an entry for each zone, the
-- zones that there is room for fit the device, and the queue of the background task is in order.
pub record IsValid (s : Sim) : Type 0 where
  pub is_allocated : s.memory ≡ live
  pub block_shift : s.smr_block_size_shift ≡ 3
  pub zone_shift : s.smr_zone_size_shift ≤ 27
  pub fits : length s.zone_status * (8 * 2 ^ s.smr_zone_size_shift) ≤ s.smr_capacity
  pub small : s.smr_capacity ≤ max_capacity
  pub status_room : s.smr_numzones ≤ length s.zone_status
  pub stats_room : length s.zone_stats ≡ length s.zone_status
  pub counted : s.num_zones ≡ s.smr_numzones
  pub defaults : s.smr_numzones_default * (8 * 2 ^ 16) ≤ s.smr_capacity
  pub queue : IsSpread s.ptask
  pub object : 44 * length s.zone_status + 44 < 2 ^ 32
  pub sized : s.header.length ≡ 44 * length s.zone_status + 44

pow_bounds : (k : ℕ) → k ≤ 27 → (1 ≤ 2 ^ k) × (2 ^ k ≤ 2 ^ 27)
pow_bounds k h = (
  pow-le-pow_right {n = 2} (omega arith) {i = 0} {j = k} (omega arith),
  pow-le-pow_right {n = 2} (omega arith) {i = k} {j = 27} h,
)

mul_le : (i n p : ℕ) → i ≤ n → i * p ≤ n * p
mul_le i n p h = grind arith

-- The zone size in sectors, before the cut to 32 bits.
abbrev pub size_of : Sim → ℕ
size_of s = 8 * 2 ^ s.smr_zone_size_shift

pub size-bounds : {s : Sim} → IsValid s → (8 ≤ size_of s) × (size_of s ≤ 2 ^ 30)
size-bounds {s} v = omega (arith, pow_bounds s.smr_zone_size_shift v.zone_shift)

pub num_sectors_zone-size : {s : Sim} → IsValid s → num_sectors_zone s ≡ size_of s
unfolding num_sectors_zone
num_sectors_zone-size {s} v = rw v.block_shift (omega (arith, size-bounds v))

pub zone_idx_lba-mul :
    {s : Sim} (i : ℕ) → IsValid s → i ≤ length s.zone_status + 2 → zone_idx_lba s i ≡ i * size_of s
unfolding zone_idx_lba
zone_idx_lba-mul {s} i v h = rw v.block_shift (
    omega (
      arith,
      pow_bounds s.smr_zone_size_shift v.zone_shift,
      mul_le i (length s.zone_status + 2) (2 ^ s.smr_zone_size_shift) h,
    ))

pub zone_idx_of-div :
    {s : Sim} (x : ℕ) → IsValid s → x ≤ s.smr_capacity → zone_idx_of s x ≡ x / size_of s
unfolding zone_idx_of
zone_idx_of-div {s} x v h =
    rw (v.block_shift, div-div-eq-div-mul x 8 (2 ^ s.smr_zone_size_shift)) (omega (arith, small))
  where
    small : x / size_of s ≤ x / 8
    small = rw (← div-div-eq-div-mul x 8 (2 ^ s.smr_zone_size_shift)) (div-le_self (x / 8) _)

-- The sector lies in the zone of its index.
pub zone_idx_of_bounds :
    {s : Sim} (x i : ℕ)
    → IsValid s
    → x ≤ s.smr_capacity
    → zone_idx_of s x ≡ i
    → (i * size_of s ≤ x) × (x < i * size_of s + size_of s)
zone_idx_of_bounds {s} x i v h e =
    rw (← e, zone_idx_of-div x v h)
      (
        div-mul-le_self x (size_of s),
        lt-div-mul-add {a = x} {b = size_of s} (omega (arith, size-bounds v)),
      )

-- The index of a sector below the end of zone `n` is below `n`.
pub zone_idx_of-lt :
    {s : Sim} (x n : ℕ) → IsValid s → x ≤ s.smr_capacity → x < n * size_of s → zone_idx_of s x < n
zone_idx_of-lt {s} x n v h lt =
    rw (zone_idx_of-div x v h)
      ((div-lt_iff_lt-mul {k = size_of s} (omega (arith, size-bounds v))).1 lt)

-- The zones of the table fit the device.
pub zones_fit : {s : Sim} → IsValid s → s.smr_numzones * size_of s ≤ s.smr_capacity
zones_fit {s} v =
    omega (arith, mul_le s.smr_numzones (length s.zone_status) (size_of s) v.status_room)

-- The index of a zone fits a __u32, and so does the next one.
pub numzones-lt : {s : Sim} → IsValid s → s.smr_numzones + 1 < 2 ^ 32
numzones-lt v = omega (arith, v.object, v.status_room)

-- A sector of the device has an index below 2 ^ 32 by far.
pub zone_idx_of-le :
    {s : Sim} (x : ℕ) → IsValid s → x ≤ s.smr_capacity → zone_idx_of s x * 8 ≤ max_capacity
zone_idx_of-le {s} x v h =
    rw (zone_idx_of-div x v h)
      (omega (arith, v.small, div_eight x (size_of s) (omega (arith, size-bounds v))))
  where
    eight_le : (n p : ℕ) → 8 ≤ p → n * 8 ≤ n * p
    eight_le n p h = grind arith

    div_eight : (x p : ℕ) → 8 ≤ p → x / p * 8 ≤ x
    div_eight x p h = omega (arith, div-mul-le_self x p, eight_le (x / p) p h)

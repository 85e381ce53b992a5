-- ===== src/Rules/Aims.antt =====
-- A request to zone `i` of a valid state, whose entries are `z` and `t`, the write pointer within
-- it: it starts in the zone and ends within the zones of the table.
use native.Mathlib.Decide.{dec_lt}
use smr_simulator.Base.{ℕ, ◌+◌, ◌*◌, ◌≤◌, ◌<◌, ◌≡◌, arith, some, ◌^◌, u32}
use smr_simulator.Types.{ZoneStatus, ZoneStats, Bio}
use smr_simulator.State.{Sim, zone_at, stats_at, num_sectors_zone, zone_idx_lba}
use smr_simulator.State.Geometry.{
  IsValid, size_of, size-bounds, num_sectors_zone-size, zone_idx_lba-mul, zones_fit, numzones-lt,
}

pub record Aims (s : Sim) (b : Bio) (i : ℕ) (z : ZoneStatus) (t : ZoneStats) : Type 0 where
  pub valid : IsValid s
  pub in_table : i < s.smr_numzones
  pub starts : i * size_of s ≤ b.bi_sector
  pub starts_in : b.bi_sector < i * size_of s + size_of s
  pub ends : b.bi_sector + b.bio_sectors ≤ s.smr_numzones * size_of s
  pub pointer : z.z_write_ptr_offset ≤ size_of s
  pub zone : zone_at s i ≡ some z
  pub stats : stats_at s i ≡ some t

-- What the arithmetic of the checks comes to.
pub record Sizes (s : Sim) (b : Bio) (i : ℕ) : Type 0 where
  pub size_eq : num_sectors_zone s ≡ size_of s
  pub lba_eq : zone_idx_lba s i ≡ i * size_of s
  pub size_pos : 8 ≤ size_of s
  pub size_le : size_of s ≤ 2 ^ 30
  pub end_le : b.bi_sector + b.bio_sectors ≤ 21474836480
  pub zone_le : i * size_of s + size_of s ≤ 21474836480
  pub next_eq : u32 (i + 1) ≡ i + 1

next_le : (i n p : ℕ) → i < n → i * p + p ≤ n * p
next_le i n p h = grind arith

lt_of_mul : (i n p : ℕ) → i * p + p < n * p → i + 1 < n
lt_of_mul i n p h = elim (dec_lt (i + 1) n) [
  | yes lt ↦ lt
  | no ge ↦ absurd (omega (arith, le_mul n (i + 1) p (omega arith)))
]
  where
    le_mul : (a b p : ℕ) → a ≤ b → a * p ≤ b * p
    le_mul a b p h = grind arith

pub Aims-Sizes :
    {s : Sim} {b : Bio} {i : ℕ} {z : ZoneStatus} {t : ZoneStats} → Aims s b i z t → Sizes s b i
Aims-Sizes {s} {b} {i} a = record {
  size_eq = num_sectors_zone-size a.valid;
  lba_eq = zone_idx_lba-mul i a.valid (omega arith);
  size_pos = omega (arith, size-bounds a.valid);
  size_le = omega (arith, size-bounds a.valid);
  end_le = omega (arith, zones_fit a.valid);
  zone_le = omega (arith, next_le i s.smr_numzones (size_of s) a.in_table, zones_fit a.valid);
  next_eq = omega (arith, numzones-lt a.valid);
}

-- A request that leaves zone `i` has a zone after it.
pub next-in_table :
    {s : Sim} {b : Bio} {i : ℕ} {z : ZoneStatus} {t : ZoneStats}
    → Aims s b i z t
    → i * size_of s + size_of s < b.bi_sector + b.bio_sectors
    → i + 1 < s.smr_numzones
next-in_table {s} {b} {i} a h = lt_of_mul i s.smr_numzones (size_of s) (omega arith)

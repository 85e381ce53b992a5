-- ===== src/Config/Stats/Rewind.antt =====
-- dm-smrsim.c, smrsim_blkdev_reset_zone_ptr, and the first write after it.
use native.Mathlib.Nat.{mul-div_cancel, mul-mod_left}
use smr_simulator.Base.{ℕ, ◌+◌, ◌*◌, ◌/◌, ◌%◌, ◌≡◌, ◌≢◌, ◌<◌, ◌≤◌, arith, some, set, ◌⊎◌, ◌∙◌}
use native.Mathlib.Decide.{dec_lt}
use smr_simulator.Types.Kind
use smr_simulator.Types.{ZoneStatus, ZoneStats, Bio, success, einval}
use smr_simulator.State.{Sim, zone_at, stats_at, zone_idx_of}
use smr_simulator.State.Geometry.{
  IsValid, size_of, size-bounds, zones_fit, num_sectors_zone-size, zone_idx_of-div,
}
use smr_simulator.State.Access.{zone_at-valid, modify_zone-some, zone_at-set_self, set_zone-IsValid}
use smr_simulator.Config.Stats.{blkdev_reset_zone_ptr, rewind}
use smr_simulator.Rules.Aims.{Aims}

zone_start_le : (i n p : ℕ) → i < n → i * p + p ≤ n * p
zone_start_le i n p h = grind arith

zone_idx_of-start :
    {s : Sim} (i : ℕ) → IsValid s → i < s.smr_numzones → zone_idx_of s (i * size_of s) ≡ i
zone_idx_of-start {s} i v h =
    zone_idx_of-div (i * size_of s) v
      (omega (arith, zones_fit v, zone_start_le i s.smr_numzones (size_of s) h))
    ∙ mul-div_cancel i {n = size_of s} (omega (arith, size-bounds v))

abbrev pub rewound : Sim → ℕ → ZoneStatus → Sim
rewound s i z = record s { zone_status = set s.zone_status i (rewind z) }

-- In a valid state a reset at the start of a zone that is not conventional succeeds: its pointer
-- goes back to its start, and a sequential zone is empty again; no other zone changes and the state
-- stays valid.
pub blkdev_reset_zone_ptr_start :
    {s : Sim} {z : ZoneStatus} (i : ℕ)
    → IsValid s
    → i < s.smr_numzones
    → zone_at s i ≡ some z
    → z.z_type ≢ Kind.conventional
    → (blkdev_reset_zone_ptr s (i * size_of s) ≡ some (success, rewound s i z))
      × IsValid (rewound s i z)
unfolding blkdev_reset_zone_ptr
blkdev_reset_zone_ptr_start {s} {z} i v h e k = (
  ground (
    arith,
    zone_idx_of-start i v h,
    num_sectors_zone-size v,
    modify_zone-some s i rewind e,
    mul-mod_left i (size_of s),
  ),
  set_zone-IsValid i (rewind z) v,
)

-- In a valid state a reset at a sector of the device that is not the start of a zone, lies past the
-- zones, or lies in a conventional zone is refused, and nothing changes.
pub blkdev_reset_zone_ptr_refuses :
    {s : Sim} (x : ℕ)
    → IsValid s
    → x ≤ s.smr_capacity
    → ((s.smr_numzones ≤ x / size_of s)
        ⊎ ((z : ZoneStatus) × (zone_at s (x / size_of s) ≡ some z) × (z.z_type ≡ Kind.conventional))
        ⊎ (x % size_of s ≢ 0))
    → blkdev_reset_zone_ptr s x ≡ some (einval, s)
unfolding blkdev_reset_zone_ptr
blkdev_reset_zone_ptr_refuses {s} x v h why = elim (dec_lt (x / size_of s) s.smr_numzones) [
  | no out ↦ ground (arith, zone_idx_of-div x v h)
  | yes inside ↦
      let (z, e) = zone_at-valid (x / size_of s) v inside in
      ground (arith, zone_idx_of-div x v h, num_sectors_zone-size v)
]

pub rewound-Aims :
    {s : Sim} {z : ZoneStatus} {t : ZoneStats} (i : ℕ) (b : Bio)
    → IsValid s
    → i < s.smr_numzones
    → zone_at s i ≡ some z
    → stats_at s i ≡ some t
    → b.bi_sector ≡ i * size_of s
    → b.bio_sectors ≤ size_of s
    → Aims (rewound s i z) b i (rewind z) t
unfolding stats_at
rewound-Aims {s} {z} i b v h ez et start fits = record {
  valid = set_zone-IsValid i (rewind z) v;
  in_table = h;
  starts = omega arith;
  starts_in = omega (arith, size-bounds v);
  ends = omega (arith, zone_start_le i s.smr_numzones (size_of s) h);
  pointer = omega arith;
  zone = zone_at-set_self s i (rewind z) ez;
  stats = et;
}

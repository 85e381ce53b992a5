-- ===== src/Map/Again.antt =====
-- smrsim_blkdev_reset_zone_ptr and then a write to the zone through smrsim_map.
use smr_simulator.Base.{ℕ, ◌*◌, ◌%◌, ◌≡◌, ◌<◌, ◌≤◌, arith, some, if◌then◌else◌, ◌==◌, true}
use smr_simulator.Types.Cond
use smr_simulator.Types.Kind
use smr_simulator.Types.{ZoneStatus, ZoneStats, Bio, success, write}
use smr_simulator.State.{Sim, zone_at, stats_at}
use smr_simulator.State.Geometry.{IsValid, size_of, size-bounds}
use smr_simulator.State.Access.{zone_at-set_self}
use smr_simulator.Config.Stats.{blkdev_reset_zone_ptr, rewind}
use smr_simulator.Config.Stats.Rewind.{rewound, rewound-Aims, blkdev_reset_zone_ptr_start}
use smr_simulator.Map.{Target, remapped, map_sector, map_at}
use smr_simulator.Map.Host.{accepts, written, map_at-accepts}

rewound-accepts :
    (s : Sim) (z : ZoneStatus) (i : ℕ) (b : Bio)
    → z.z_type ≡ Kind.sequential
    → b.bi_sector ≡ i * size_of s
    → b.bi_size % 4096 ≡ 0
    → b.bio_sectors ≤ size_of s
    → accepts (rewound s i z) b i (rewind z) ≡ true
unfolding accepts
rewound-accepts s z i b kind start align fits = ground arith

-- After a reset of a sequential zone of a valid state, whatever its condition was, with the research
-- options off and under the default write policy, the zone takes a write at its start again: one
-- that is a multiple of 4 KiB and fits the zone is sent on without a delay. Its pointer is then at
-- the end of the write, and the zone is full or closed.
pub map_at-after_reset :
    {s : Sim} {z : ZoneStatus} {t : ZoneStats} (target : Target) (i : ℕ) (b : Bio)
    → IsValid s
    → i < s.smr_numzones
    → zone_at s i ≡ some z
    → stats_at s i ≡ some t
    → z.z_type ≡ Kind.sequential
    → z.z_flag ≡ 0
    → s.wp_reset_flag ≡ 0
    → s.wp_adjust_flag ≡ 0
    → s.dev_config.out_of_policy_write_flag ≡ 0
    → b.bio_dir ≡ write
    → b.bi_sector ≡ i * size_of s
    → b.bi_size % 4096 ≡ 0
    → b.bio_sectors ≤ size_of s
    → (s₁ s₂ : Sim) × (z' : ZoneStatus) × (blkdev_reset_zone_ptr s (i * size_of s)
        ≡ some (success, s₁))
      × (map_at s₁ target b i
          ≡ some (
            remapped (if b.bio_sectors == 0 then b.bi_sector else map_sector target b.bi_sector) 0,
            s₂,
          ))
      × (zone_at s₂ i ≡ some z')
      × (z'.z_write_ptr_offset ≡ b.bio_sectors)
      × (z'.z_conds ≡ (if b.bio_sectors == size_of s then Cond.full else Cond.closed))
unfolding zone_at
map_at-after_reset {s} {z} {t} target i b v h ez et kind f r d policy dir start align fits =
    let s₁ = rewound s i z in
    let a = rewound-Aims i b v h ez et start fits in
    (
      s₁,
      _,
      written s₁ b (rewind z),
      (blkdev_reset_zone_ptr_start i v h ez (ground arith)).0,
      map_at-accepts a dir kind policy r d f target (rewound-accepts s z i b kind start align fits),
      zone_at-set_self s₁ i (written s₁ b (rewind z)) a.zone,
      omega (arith, size-bounds v),
      ground arith,
    )

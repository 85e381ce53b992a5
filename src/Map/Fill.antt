-- ===== src/Map/Fill.antt =====
-- Progress of a host-managed device: runs that fill a zone block by block.
use smr_simulator.Base.{
  ℕ, zero, suc, ◌+◌, ◌-◌, ◌*◌, ◌^◌, ◌≡◌, ◌≢◌, ◌≤◌, ◌<◌, arith, some, set, refl, sym, ◌∙◌, true,
  get_elem?-set_self,
}
use smr_simulator.Types.Cond
use smr_simulator.Types.Kind
use smr_simulator.Types.{ZoneStatus, ZoneStats, Bio, write}
use smr_simulator.State.{Sim, zone_at, stats_at}
use smr_simulator.State.Geometry.{IsValid, size_of, size-bounds}
use smr_simulator.State.Access.{zone_at-live, zone_at-lt, zone_at-set_self, stats_at-valid}
use smr_simulator.Config.Stats.{rewind}
use smr_simulator.Config.Stats.Rewind.{rewound, blkdev_reset_zone_ptr_start}
use smr_simulator.Rules.Aims.{Aims}
use smr_simulator.Pstore.Queue.{note_write}
use smr_simulator.Map.{Target}
use smr_simulator.Map.Host.{accepts, written, map_at-accepts}
use smr_simulator.Map.Managed.{Run, start, next, Step, writes, resets, Managed, Run-Managed}

-- One block at the write pointer of zone `i`.
abbrev pub block_write : Sim → ℕ → ZoneStatus → Bio
block_write s i z = record {
  bi_sector = i * size_of s + z.z_write_ptr_offset;
  bi_size = 4096;
  bio_sectors = 8;
  bio_dir = write;
}

abbrev pub after_block : Sim → ℕ → ZoneStatus → Sim
after_block s i z = record s {
  zone_status = set s.zone_status i (written s (block_write s i z) z);
  ptask = note_write s.ptask i;
}

-- The zone takes a block.
abbrev pub Open : Sim → ZoneStatus → Type 0
Open s z =
    (z.z_type ≡ Kind.sequential)
    × (z.z_conds ≢ Cond.offline)
    × (z.z_conds ≢ Cond.read_only)
    × (z.z_conds ≢ Cond.full)
    × (z.z_write_ptr_offset + 8 ≤ size_of s)

block-Aims :
    {s : Sim} (i : ℕ) {z : ZoneStatus} {t : ZoneStats}
    → IsValid s
    → i < s.smr_numzones
    → zone_at s i ≡ some z
    → stats_at s i ≡ some t
    → Open s z
    → Aims s (block_write s i z) i z t
block-Aims {s} i v h ez et (k, _, _, _, fits) = record {
  valid = v;
  in_table = h;
  starts = omega arith;
  starts_in = omega arith;
  ends = omega (arith, zone_end i s.smr_numzones (size_of s) h);
  pointer = omega arith;
  zone = ez;
  stats = et;
}
  where
    zone_end : (i n p : ℕ) → i < n → i * p + p ≤ n * p
    zone_end i n p h = grind arith

block-accepted :
    (s : Sim) (i : ℕ) (z : ZoneStatus) → Open s z → accepts s (block_write s i z) i z ≡ true
unfolding accepts
block-accepted s i z o = ground (arith, o)

after_block-zone :
    (s : Sim) (i : ℕ) {z : ZoneStatus}
    → zone_at s i ≡ some z
    → zone_at (after_block s i z) i ≡ some (written s (block_write s i z) z)
unfolding zone_at
after_block-zone s i {z} e =
    ground (
      arith,
      get_elem?-set_self s.zone_status i (written s (block_write s i z) z) (zone_at-lt s i e),
    )

block-Step :
    {s : Sim} (target : Target) (i : ℕ) {z : ZoneStatus}
    → Managed s
    → i < s.smr_numzones
    → zone_at s i ≡ some z
    → Open s z
    → Step target s (after_block s i z)
block-Step {s} target i {z} m h ez o =
    let (t, et) = stats_at-valid i m.valid h in
    let a = block-Aims i m.valid h ez et o in
    writes a refl (o.0) (
      map_at-accepts a refl (o.0) m.write_policy m.reset_off m.adjust_off
        ((m.sound i z (sym (zone_at-live s i m.valid.is_allocated) ∙ ez) (o.0)).single) target
        (block-accepted s i z o))

pub run_length : {target : Target} {s s' : Sim} → Run target s s' → ℕ
run_length start = 0
run_length (next r st) = suc (run_length r)

-- What a filled zone is, after a run from `s`.
abbrev pub Filled : Sim → Sim → ℕ → Type 0
Filled s s' i =
    (z : ZoneStatus) × (zone_at s' i ≡ some z)
    × (z.z_type ≡ Kind.sequential)
    × (z.z_conds ≡ Cond.full)
    × (z.z_write_ptr_offset ≡ size_of s)

fill_from :
    {s₀ : Sim} (target : Target) (i n : ℕ) (s : Sim) {z : ZoneStatus}
    → Managed s₀
    → (r : Run target s₀ s) → size_of s ≡ size_of s₀
    → i < s.smr_numzones
    → zone_at s i ≡ some z
    → Open s z
    → z.z_write_ptr_offset + 8 * suc n ≡ size_of s
    → (s' : Sim) × (r' : Run target s₀ s') × (run_length r' ≡ run_length r + suc n) × Filled s₀ s' i
unfolding run_length
fill_from target i zero s {z} m r q h ez o e =
    let w = Run-Managed m r in
    (
      after_block s i z,
      next r (block-Step target i w h ez o),
      omega arith,
      (
        written s (block_write s i z) z,
        after_block-zone s i ez,
        o.0,
        ground arith,
        omega (arith, size-bounds w.valid),
      ),
    )
fill_from target i (suc n) s {z} m r q h ez o e =
    let w = Run-Managed m r in
    let (s', r', l, f) =
      fill_from target i n (after_block s i z) m (next r (block-Step target i w h ez o)) q h
        (after_block-zone s i ez)
        (o.0, ground arith, ground arith, ground arith, omega (arith, size-bounds w.valid))
        (omega (arith, size-bounds w.valid)) in
    (s', r', omega (arith, l), f)

-- From every state of a host-managed device as `Run-Managed` describes it, each sequential zone,
-- whatever its condition, can be filled: there is a run of the host's operations, one more than the
-- zone has blocks, after which the zone is full and its pointer at its end.
pub fill-Run :
    {s : Sim} (target : Target) (i : ℕ) {z : ZoneStatus}
    → Managed s
    → i < s.smr_numzones
    → zone_at s i ≡ some z
    → z.z_type ≡ Kind.sequential
    → (s' : Sim) × (r : Run target s s') × (run_length r ≡ 1 + 2 ^ s.smr_zone_size_shift)
      × Filled s s' i
unfolding run_length
fill-Run {s} target i {z} m h ez k =
    let st : Step target s (rewound s i z) =
      resets h ez k (blkdev_reset_zone_ptr_start i m.valid h ez (ground arith)).0 in
    let blocks = 2 ^ s.smr_zone_size_shift in
    let (s', r', l, f) =
      fill_from target i (blocks - 1) (rewound s i z) m (next start st) refl h
        (zone_at-set_self s i (rewind z) ez)
        (k, ground arith, ground arith, ground arith, omega (arith, size-bounds m.valid))
        (omega (arith, size-bounds m.valid)) in
    (s', r', omega (arith, l, size-bounds m.valid), f)

-- ===== src/State/Access.antt =====
-- The accesses to the arrays of a live object.
use smr_simulator.Base.{
  ℕ, ◌<◌, ◌≡◌, arith, get_elem?, get_elem?-some, get_elem?-lt, get_elem?-set_self, get_elem?-set_ne,
  length-set, set, length, some, ◌≢◌,
}
use smr_simulator.Types.{ZoneStatus, ZoneStats}
use smr_simulator.Pstore.Spread.{IsSpread}
use smr_simulator.State.{Sim, PstoreTask, live, zone_at, stats_at, modify_zone, modify_stats}
use smr_simulator.State.Geometry.{IsValid}

pub zone_at-live : (s : Sim) (i : ℕ) → s.memory ≡ live → zone_at s i ≡ get_elem? s.zone_status i
unfolding zone_at
zone_at-live s i h = ground arith

pub stats_at-live : (s : Sim) (i : ℕ) → s.memory ≡ live → stats_at s i ≡ get_elem? s.zone_stats i
unfolding stats_at
stats_at-live s i h = ground arith

-- An array entry that can be read can be written.
pub modify_zone-some :
    (s : Sim) (i : ℕ) (f : ZoneStatus → ZoneStatus) {z : ZoneStatus}
    → zone_at s i ≡ some z
    → modify_zone s i f ≡ some (record s { zone_status = set s.zone_status i (f z) })
unfolding modify_zone
modify_zone-some s i f e = ground arith

pub modify_stats-some :
    (s : Sim) (i : ℕ) (f : ZoneStats → ZoneStats) {t : ZoneStats}
    → stats_at s i ≡ some t
    → modify_stats s i f ≡ some (record s { zone_stats = set s.zone_stats i (f t) })
unfolding modify_stats
modify_stats-some s i f e = ground arith

pub zone_at-valid :
    {s : Sim} (i : ℕ) → IsValid s → i < s.smr_numzones → (z : ZoneStatus) × (zone_at s i ≡ some z)
unfolding zone_at
zone_at-valid {s} i v h =
    let (z, e) = get_elem?-some s.zone_status i (omega arith) in (z, ground arith)

pub stats_at-valid :
    {s : Sim} (i : ℕ) → IsValid s → i < s.smr_numzones → (t : ZoneStats) × (stats_at s i ≡ some t)
unfolding stats_at
stats_at-valid {s} i v h =
    let (t, e) = get_elem?-some s.zone_stats i (omega arith) in (t, ground arith)

pub zone_at-lt :
    (s : Sim) (i : ℕ) {z : ZoneStatus} → zone_at s i ≡ some z → i < length s.zone_status
unfolding zone_at
zone_at-lt s i {z} e = get_elem?-lt s.zone_status i {v = z} (ground arith)

pub stats_at-lt :
    (s : Sim) (i : ℕ) {t : ZoneStats} → stats_at s i ≡ some t → i < length s.zone_stats
unfolding stats_at
stats_at-lt s i {t} e = get_elem?-lt s.zone_stats i {v = t} (ground arith)

-- A change of zone `i`, read back there and elsewhere.
pub zone_at-set_self :
    (s : Sim) (i : ℕ) (z : ZoneStatus) {o : ZoneStatus}
    → zone_at s i ≡ some o
    → zone_at (record s { zone_status = set s.zone_status i z }) i ≡ some z
unfolding zone_at
zone_at-set_self s i z e = ground (arith, get_elem?-set_self s.zone_status i z (zone_at-lt s i e))

pub zone_at-set_ne :
    (s : Sim) (i j : ℕ) (z : ZoneStatus)
    → i ≢ j
    → zone_at (record s { zone_status = set s.zone_status i z }) j ≡ zone_at s j
unfolding zone_at
zone_at-set_ne s i j z ne = rw (get_elem?-set_ne s.zone_status i j z ne)

-- A zone written to entry `i` keeps the state valid.
pub set_zone-IsValid :
    {s : Sim} (i : ℕ) (z : ZoneStatus)
    → IsValid s
    → IsValid (record s { zone_status = set s.zone_status i z })
set_zone-IsValid {s} i z v =
    let n = length-set s.zone_status i z in
    record {
      is_allocated = v.is_allocated;
      block_shift = v.block_shift;
      zone_shift = v.zone_shift;
      fits = rw n v.fits;
      small = v.small;
      status_room = omega (arith, v.status_room);
      stats_room = omega (arith, v.stats_room);
      counted = v.counted;
      defaults = v.defaults;
      queue = v.queue;
      object = rw n v.object;
      sized = rw n v.sized;
    }

-- A change of the background task's state that keeps its queue in order.
pub set_task-IsValid :
    {s : Sim} (p : PstoreTask) → IsValid s → IsSpread p → IsValid (record s { ptask = p })
set_task-IsValid p v q = record {
  is_allocated = v.is_allocated;
  block_shift = v.block_shift;
  zone_shift = v.zone_shift;
  fits = v.fits;
  small = v.small;
  status_room = v.status_room;
  stats_room = v.stats_room;
  counted = v.counted;
  defaults = v.defaults;
  queue = q;
  object = v.object;
  sized = v.sized;
}

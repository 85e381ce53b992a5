-- ===== src/Config/Zones/Table.antt =====
-- dm-smrsim.c, smrsim_clear_zone_config, smrsim_add_zone_config and smrsim_modify_zone_config: how
-- a user builds a table of zones.
use smr_simulator.Base.{
  ℕ, zero, suc, ◌+◌, ◌≡◌, ◌<◌, ◌≤◌, arith, true, false, length, some, none, ◌++◌, replicate, drop,
  length-set, length-clear, get_elem?-none, get_elem?-some, set, refl, ◌⊎◌, inl, inr, Bool-cases,
}
use native.Mathlib.Decide.{dec_lt}
use smr_simulator.Types.Cond
use smr_simulator.Types.Kind
use smr_simulator.Types.{ZoneStatus, success, einval}
use smr_simulator.State.{Sim, zone_at, modify_zone, num_sectors_zone}
use smr_simulator.State.Geometry.{IsValid, size_of, num_sectors_zone-size, numzones-lt}
use smr_simulator.State.Access.{zone_at-valid, modify_zone-some, set_zone-IsValid}
use smr_simulator.Init.{zero_stats}
use smr_simulator.Config.Zones.{
  clear_zone_config, add_zone_config, add_rejects, modify_zone_config, modify_checked,
  modify_rejects, modified, zone_seq_count, seq_count_from, zero_status,
}

-- The state without its zones.
abbrev pub cleared : Sim → Sim
cleared s = record s {
  zone_stats = replicate s.num_zones zero_stats ++ drop s.num_zones s.zone_stats;
  zone_status = replicate s.smr_numzones zero_status ++ drop s.smr_numzones s.zone_status;
  num_zones = 0;
  smr_numzones = 0;
}

pub cleared-IsValid : {s : Sim} → IsValid s → IsValid (cleared s)
cleared-IsValid {s} v =
    let a =
      length-clear s.num_zones zero_stats s.zone_stats
        (omega (arith, v.counted, v.status_room, v.stats_room)) in
    let b = length-clear s.smr_numzones zero_status s.zone_status v.status_room in
    record {
      is_allocated = v.is_allocated;
      block_shift = v.block_shift;
      zone_shift = v.zone_shift;
      fits = rw b v.fits;
      small = v.small;
      status_room = omega arith;
      stats_room = omega (arith, v.stats_room);
      counted = refl;
      defaults = v.defaults;
      queue = v.queue;
      object = rw b v.object;
      sized = rw b v.sized;
    }

pub clear_zone_config-cleared :
    {s : Sim} → IsValid s → clear_zone_config s ≡ some (success, cleared s)
unfolding clear_zone_config
clear_zone_config-cleared v = ground (arith, v)

-- Clearing a valid state succeeds, leaves no zone, and keeps it valid with the same room.
pub clear_zone_config_lem :
    {s : Sim}
    → IsValid s
    → (s' : Sim) × (clear_zone_config s ≡ some (success, s'))
      × IsValid s'
      × (s'.smr_numzones ≡ 0)
      × (length s'.zone_status ≡ length s.zone_status)
clear_zone_config_lem {s} v = (
  cleared s,
  clear_zone_config-cleared v,
  cleared-IsValid v,
  refl,
  length-clear s.smr_numzones zero_status s.zone_status v.status_room,
)

-- The state after `z` was added as the last zone.
abbrev pub added : Sim → ZoneStatus → Sim
added s z = record s {
  zone_status = set s.zone_status s.smr_numzones (record z { z_flag = 0 });
  num_zones = s.smr_numzones + 1;
  smr_numzones = s.smr_numzones + 1;
}

pub added-IsValid :
    {s : Sim} (z : ZoneStatus)
    → IsValid s
    → s.smr_numzones < length s.zone_status
    → IsValid (added s z)
added-IsValid {s} z v h =
    let w = set_zone-IsValid s.smr_numzones (record z { z_flag = 0 }) v in
    record {
      is_allocated = v.is_allocated;
      block_shift = v.block_shift;
      zone_shift = v.zone_shift;
      fits = w.fits;
      small = v.small;
      status_room =
          omega (arith, length-set s.zone_status s.smr_numzones (record z { z_flag = 0 }));
      stats_room = w.stats_room;
      counted = refl;
      defaults = v.defaults;
      queue = w.queue;
      object = w.object;
      sized = w.sized;
    }

-- In a valid state a zone that the checks refuse is not added and nothing changes; one that passes
-- them is added as the last if there is room in the table, which keeps the state valid; without
-- room its entry is written past the end of the object.
pub add_zone_config_lem :
    {s : Sim}
    → IsValid s
    → (z : ZoneStatus)
    → (add_rejects s z ≡ true → add_zone_config s (some z) ≡ some (einval, s))
      × (add_rejects s z ≡ false
          → s.smr_numzones < length s.zone_status
          → (add_zone_config s (some z) ≡ some (success, added s z)) × IsValid (added s z))
      × (add_rejects s z ≡ false
          → length s.zone_status ≤ s.smr_numzones
          → add_zone_config s (some z) ≡ none)
unfolding add_zone_config modify_zone zone_at
add_zone_config_lem {s} v z = (
  λ r. ground arith,
  λ r h.
      let (o, e) = get_elem?-some s.zone_status s.smr_numzones h in
      (ground (arith, v, numzones-lt v), added-IsValid z v h),
  λ r h. ground (arith, v, get_elem?-none s.zone_status s.smr_numzones h),
)

-- The guard looks at the number of zones of the default size, not at the table: in a valid state
-- whose table is full and smaller than that number, an empty sequential zone that continues the
-- table is written past its end.
pub add_zone_config_overruns :
    {s : Sim}
    → IsValid s
    → s.smr_numzones ≡ length s.zone_status
    → s.smr_numzones < s.smr_numzones_default
    → (z : ZoneStatus) → z.z_start ≡ s.smr_numzones
    → z.z_type ≡ Kind.sequential
    → z.z_conds ≡ Cond.empty
    → z.z_length ≡ num_sectors_zone s
    → z.z_write_ptr_offset ≡ 0
    → add_zone_config s (some z) ≡ none
unfolding add_rejects
add_zone_config_overruns v full less z start kind cond len wp =
    (add_zone_config_lem v z).2 (ground arith) (omega arith)

seq_count_from-total :
    (s : Sim) (n index count : ℕ)
    → IsValid s
    → index + n ≤ s.smr_numzones
    → (c : ℕ) × (seq_count_from s n index count ≡ some c)
unfolding seq_count_from
seq_count_from-total s zero index count v h = (count, refl)
seq_count_from-total s (suc n) index count v h =
    let (z, e) = zone_at-valid index v (omega arith) in
    rw e (seq_count_from-total s n (index + 1) _ v (omega arith))

modify_rejects-le :
    {s : Sim}
    → IsValid s
    → (c : ℕ) (old z : ZoneStatus) → modify_rejects (num_sectors_zone s) c old z ≡ false
    → z.z_write_ptr_offset ≤ size_of s
unfolding modify_rejects
modify_rejects-le v c old z r = ground (arith, num_sectors_zone-size v)

-- In a valid state a change of a zone does not fault. It is refused with the state unchanged, or it
-- passed every check and replaces that zone's write pointer, checkpoint, condition and type, clears
-- its flag, leaves every other zone, and keeps the state valid and the pointer within the zone.
pub modify_zone_config_lem :
    {s : Sim}
    → IsValid s
    → (z : ZoneStatus)
    → (modify_zone_config s (some z) ≡ some (einval, s))
      ⊎ ((old : ZoneStatus) × (zone_at s z.z_start ≡ some old)
          × (modify_zone_config s (some z)
              ≡ some (
                success,
                record s { zone_status = set s.zone_status z.z_start (modified z old) },
              ))
          × IsValid (record s { zone_status = set s.zone_status z.z_start (modified z old) })
          × (z.z_write_ptr_offset ≤ size_of s))
unfolding modify_zone_config modify_checked zone_seq_count
modify_zone_config_lem {s} v z =
    let (c, e) = seq_count_from-total s s.smr_numzones 0 0 v (omega arith) in
    elim (dec_lt z.z_start s.smr_numzones) [
      | no out ↦ inl (ground (arith, e))
      | yes h ↦
          let (old, eo) = zone_at-valid z.z_start v h in
          elim (Bool-cases (modify_rejects (num_sectors_zone s) c old z)) [
            | inl r ↦ inl (ground (arith, e))
            | inr r ↦ inr (
              old,
              eo,
              ground (arith, e, modify_zone-some s z.z_start (modified z) eo),
              set_zone-IsValid z.z_start (modified z old) v,
              modify_rejects-le v c old z r,
            )
          ]
    ]

-- ===== src/Examples/Table.antt =====
-- The zones of the device of four zones: queries, resets and the calls that configure the table.
use smr_simulator.Drive.Obey.{new_zone, wanted, can_add, can_modify, count_sequential}
use smr_simulator.Drive.View.{view}
use smr_simulator.Drive.Fresh.{init_zone_state-new_zone}
use smr_simulator.Drive.Found.{query_zones-wanted}
use smr_simulator.Drive.Table.{add_zone_config-can_add}
use smr_simulator.Map.{remapped, map_sector, map_at}
use smr_simulator.Map.Again.{map_at-after_reset}
use smr_simulator.Config.Device.{reset_default_device_config}
use smr_simulator.Base.{
  ◌≤◌, ℕ, refl, arith, ◌≡◌, ◌≢◌, true, false, some, none, ◌*◌, ◌+◌, ◌^◌, ◌≤◌, ◌<◌, inr, length,
  Bool, ◌==◌, [], ◌∷◌, ◌⊎◌, take, ==_self,
}
use smr_simulator.Types.Cond
use smr_simulator.Types.Kind
use smr_simulator.Types.{success, einval, write, ZoneStatus}
use smr_simulator.State.{Sim, zone_at, stats_at, num_sectors_zone, zone_idx_of, freed}
use smr_simulator.State.Geometry.{IsValid}
use smr_simulator.Init.{
  zero_stats, init_zone_state, index_power_of_2, init_zone_state_default, state_size, default_state,
}
use smr_simulator.Init.Power.{index_power_of_2-pow}
use smr_simulator.Init.Layout.{init_zone_state_default_fits}
use smr_simulator.Idle.{dev_idle_update}
use smr_simulator.Idle.Since.{dev_idle_update_since}
use smr_simulator.Config.Zones.{
  set_size_zone_default, reset_default_zone_config, reset_default_config, add_zone_config,
}
use smr_simulator.Config.Zones.Resize.{
  resized, with_defaults, set_size_zone_default_no_memory, reset_default_config_no_memory,
}
use smr_simulator.Config.Zones.Table.{cleared, cleared-IsValid, added, add_zone_config_overruns}
use smr_simulator.Config.Stats.{blkdev_reset_zone_ptr}
use smr_simulator.Config.Stats.Rewind.{blkdev_reset_zone_ptr_refuses}
use smr_simulator.Query.{
  match_free, match_all, unknown, answer, matches, scan_zones, query_checked, query_zones,
  refuse_query,
}
use smr_simulator.Query.Spec.{keep, slice, window, query_zones_refuses}
use smr_simulator.Examples.Device.{
  device, device-IsValid, target, task-IsSpread, block_at, half_written, zone,
}

live_kept : device.memory ≢ freed
live_kept e = cc

init_example :
    (s' : Sim) × (init_zone_state device 1572864 true 70 100 ≡ some (success, s'))
    × IsValid s'
    × (s'.smr_numzones ≡ 3)
    × ((k : ℕ) → k < 3 → zone_at s' k ≡ some (new_zone (2 ^ 19) 3 k))
init_example =
    init_zone_state-new_zone device 1572864 70 100 (omega arith) (omega arith) live_kept
      task-IsSpread

init_fits_example :
    (44 * 4 + 44 < 2 ^ 32
      → init_zone_state_default device (state_size device)
        ≡ some (default_state device (state_size device)))
    × (2 ^ 32 ≤ 44 * 4 + 44 → init_zone_state_default device (state_size device) ≡ none)
init_fits_example = init_zone_state_default_fits device

free_known : match_free ≢ unknown
free_known e = cc

query_example :
    let met =
      take 2 (keep (wanted (8 * 2 ^ 2) match_free) (slice device 1 (window match_free 2 3))) in
    query_zones device true 32 match_free 2
    ≡ some (record { code = success; copied = met; count = length met })
query_example =
    query_zones-wanted device 32 2 match_free device-IsValid free_known (omega arith) (omega arith)
      (omega arith)

-- From zone 1 on zone 2 is the only one that is free.
free_zones :
    query_zones device true 32 match_free 2
    ≡ some (record { code = success; copied = zone 2 Kind.sequential Cond.empty 0 ∷ []; count = 1 })
unfolding query_zones query_checked scan_zones matches answer zone_at zone_idx_of
free_zones = refl

query_refused_example : query_zones device true 32 match_all 4 ≡ some (refuse_query 4)
unfolding zone_idx_of
query_refused_example =
    query_zones_refuses device 32 4 match_all device-IsValid (omega arith) (omega arith)
      (inr (omega arith))

-- Powers of two, as `is_power_of_2` tells them up to 2 ^ 63.
abbrev pub is_power : ℕ → Bool
is_power n = n == 2 ^ index_power_of_2 n

pub is_power-pow : (k : ℕ) → k < 64 → is_power (2 ^ k) ≡ true
is_power-pow k h = rw (index_power_of_2-pow k h) (==_self (2 ^ k))

resize_no_memory_example :
    (set_size_zone_default is_power device (8 * 2 ^ 1) false ≡ some (einval, resized device 1))
    × (length device.zone_status < (resized device 1).smr_numzones → ¬ IsValid (resized device 1))
resize_no_memory_example =
    set_size_zone_default_no_memory is_power is_power-pow device-IsValid 1 (omega arith)

-- The size of 16 sectors asks for more zones than the table has.
more_zones : length device.zone_status < (resized device 1).smr_numzones
more_zones = omega arith

-- A device of two zones of the default size, configured as one zone.
abbrev big : Sim
big = record device {
  header = record device.header { length = 88 };
  smr_capacity = 1048576;
  smr_numzones = 1;
  smr_numzones_default = 2;
  smr_zone_size_shift = 17;
  num_zones = 1;
  zone_stats = zero_stats ∷ [];
  zone_status = zone 0 Kind.sequential Cond.empty 0 ∷ [];
}

big-IsValid : IsValid big
big-IsValid = record {
  is_allocated = refl;
  block_shift = refl;
  zone_shift = omega arith;
  fits = omega arith;
  small = omega arith;
  status_room = omega arith;
  stats_room = refl;
  counted = refl;
  defaults = omega arith;
  queue = task-IsSpread;
  object = omega arith;
  sized = refl;
}

reset_no_memory_example :
    (reset_default_zone_config big false
      ≡ some (einval, record (with_defaults big) { memory = freed }))
    × ((s : Sim) → s.memory ≡ freed → reset_default_device_config s ≡ none)
    × (reset_default_config big false ≡ none)
reset_no_memory_example = reset_default_config_no_memory big refl

-- The first zone of a table that was cleared.
abbrev first : ZoneStatus
first = record (zone 0 Kind.sequential Cond.empty 0) { z_length = 1048576; z_flag = 5 }

add_example :
    ((can_add (view (cleared big)) first ≡ false)
      × (add_zone_config (cleared big) (some first) ≡ some (einval, cleared big)))
    ⊎ ((can_add (view (cleared big)) first ≡ true)
        × (0 < 1)
        × (add_zone_config (cleared big) (some first)
            ≡ some (
              success,
              record (cleared big) {
                zone_status = record first { z_flag = 0 } ∷ [];
                num_zones = 1;
                smr_numzones = 1;
              },
            ))
        × IsValid (added (cleared big) first))
    ⊎ ((can_add (view (cleared big)) first ≡ true)
        × (1 ≤ 0)
        × (add_zone_config (cleared big) (some first) ≡ none))
add_example = add_zone_config-can_add (cleared-IsValid big-IsValid) first

first_added : can_add (view (cleared big)) first ≡ true
unfolding can_add view
first_added = refl

abbrev second : ZoneStatus
second = record (zone 1 Kind.sequential Cond.empty 0) { z_length = 1048576 }

overrun_example : add_zone_config big (some second) ≡ none
unfolding num_sectors_zone
overrun_example =
    add_zone_config_overruns big-IsValid refl (omega arith) second refl refl refl refl refl

abbrev shut : ZoneStatus
shut = zone 2 Kind.sequential Cond.closed 16

shut_fits : can_modify (view device) (zone 2 Kind.sequential Cond.empty 0) shut ≡ true
unfolding can_modify view count_sequential
shut_fits = refl

device_zone : zone_at device 1 ≡ some half_written
unfolding zone_at
device_zone = refl

device_stats : stats_at device 1 ≡ some zero_stats
unfolding stats_at
device_stats = refl

rewind_refused_example : blkdev_reset_zone_ptr device 40 ≡ some (einval, device)
rewind_refused_example =
    blkdev_reset_zone_ptr_refuses 40 device-IsValid (omega arith) (inr (inr (omega arith)))

write_again_example :
    (s₁ s₂ : Sim) × (z' : ZoneStatus) × (blkdev_reset_zone_ptr device (1 * (8 * 2 ^ 2))
      ≡ some (success, s₁))
    × (map_at s₁ target (block_at write 32) 1 ≡ some (remapped (map_sector target 32) 0, s₂))
    × (zone_at s₂ 1 ≡ some z')
    × (z'.z_write_ptr_offset ≡ 8)
    × (z'.z_conds ≡ Cond.closed)
write_again_example =
    map_at-after_reset target 1 (block_at write 32) device-IsValid (omega arith) device_zone
      device_stats refl refl refl refl refl refl refl refl (omega arith)

-- A request each 3 and 7 seconds after initialisation.
idle_example :
    (s₁ s₂ : Sim) × (dev_idle_update device 300 100 ≡ some s₁)
    × (dev_idle_update s₁ 700 100 ≡ some s₂)
    × (s₂.dev_idle_checkpoint ≡ 0)
    × (7 ≤ s₂.idle_stats.dev_idle_time_max)
    × (0 ≤ s₁.idle_stats.dev_idle_time_max)
    × (s₁.idle_stats.dev_idle_time_max ≤ s₂.idle_stats.dev_idle_time_max)
idle_example =
    dev_idle_update_since device 300 700 100 refl (omega arith) (omega arith) (omega arith)

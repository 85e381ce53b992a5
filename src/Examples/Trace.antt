-- ===== src/Examples/Trace.antt =====
-- The trace of requests to the device of four zones.
use smr_simulator.Base.{set, ◌≡◌, ◌≢◌, refl, arith, some, [], ◌∷◌}
use smr_simulator.Types.{code_u32, ZoneStatus, success, err_write_pointer, write}
use smr_simulator.State.{modify_stats, num_sectors_zone, zone_idx_lba, zone_idx_of, Sim, zone_at}
use smr_simulator.Rules.HostWrite.{host_code}
use smr_simulator.Map.{by_direction, map_write, nomap, Verdict, refused, map_at, map}
use smr_simulator.Trace.Entry.{block_io_evt, zone_write_evt, bio_write_check_evt}
use smr_simulator.Trace.Request.{written_trace, map_trace, map_at_trace}
use smr_simulator.Trace.Told.{Tells, tale, map-Tells}
use smr_simulator.Trace.Host.{map_at_trace-accepts, map_at_trace-breaks}
use smr_simulator.Examples.Requests.{accepts_block, rejected_code}
use smr_simulator.Examples.Device.{device, block_at, block-Aims, half_written, target}
use smr_simulator.Idle.{dev_idle_update, idle_seconds}
use smr_simulator.Rules.Write.{
  check_align, check_pointer, count_not_on_swp, end_lba, off_pointer, write_rule_check,
}
use smr_simulator.Pstore.Queue.{note_refusal}
use smr_simulator.Rules.Log.{log_code, log_error}
use smr_simulator.Init.{zero_stats}

-- A block past the write pointer.
past_trace :
    map_trace device (block_at write 48) 70 100
    ≡ block_io_evt "dm-smrsim" 48 8 write
      ∷ bio_write_check_evt "write error out of policy" 0 err_write_pointer
      ∷ []
unfolding map_trace dev_idle_update idle_seconds zone_idx_of zone_idx_lba num_sectors_zone end_lba
    zone_at check_align check_pointer modify_stats write_rule_check written_trace
past_trace = ground arith

-- The update of the idle time and the refusal.
abbrev after_past : Sim
after_past = record device {
  dbg_werr = code_u32 err_write_pointer;
  ptask = note_refusal device.ptask 1;
  zone_stats = set device.zone_stats 1 (count_not_on_swp zero_stats);
}

past_map : map device target (block_at write 48) 70 100 ≡ some (refused, after_past)
unfolding map dev_idle_update idle_seconds map_at zone_idx_of zone_idx_lba num_sectors_zone end_lba
    zone_at by_direction map_write nomap write_rule_check check_align check_pointer off_pointer
    modify_stats log_error log_code
past_map = ground arith

-- The entry says which rule was broken, and the request was refused.
map-Tells_example : Tells (tale (map_trace device (block_at write 48) 70 100)) refused
map-Tells_example = map-Tells device target (block_at write 48) 70 100 past_map

-- A block at the write pointer moves it from 8 to 16.
trace-accepts_example :
    (v : Verdict) × (s' : Sim) × (z' : ZoneStatus) × (map_at device target (block_at write 40) 1
      ≡ some (v, s'))
    × (zone_at s' 1 ≡ some z')
    × (map_at_trace device (block_at write 40) 1 ≡ zone_write_evt 1 8 z'.z_write_ptr_offset ∷ [])
trace-accepts_example =
    map_at_trace-accepts (block-Aims write 40 (omega arith) (omega arith)) refl refl refl refl refl
      refl target accepts_block

breaks_rule : host_code device (block_at write 48) 1 half_written ≢ success
breaks_rule e = ground (arith, rejected_code)

trace-breaks_example :
    (s' : Sim) × (map_at device target (block_at write 48) 1 ≡ some (refused, s'))
    × (map_at_trace device (block_at write 48) 1
        ≡ bio_write_check_evt "write error out of policy" 0
            (host_code device (block_at write 48) 1 half_written)
          ∷ [])
trace-breaks_example =
    map_at_trace-breaks (block-Aims write 48 (omega arith) (omega arith)) refl refl refl refl refl
      refl target (ground arith) (ground arith) (ground arith) (omega arith) breaks_rule

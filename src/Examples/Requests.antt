-- ===== src/Examples/Requests.antt =====
-- Requests to the device of four zones.
use smr_simulator.Base.{refl, arith, ◌≡◌, true, false, some, set, inl, inr, ◌⊎◌, ◌<◌}
use smr_simulator.Types.{Bio, success, err_write_pointer, err_read_pointer, write, read}
use smr_simulator.State.{Sim, zone_at, stats_at, zone_idx_of}
use smr_simulator.State.Geometry.{IsValid}
use smr_simulator.Rules.Frame.{Frame}
use smr_simulator.Rules.Write.{close_last, set_wp_conds, set_wp, write_rule_check, end_lba}
use smr_simulator.Rules.Read.{read_rule_check}
use smr_simulator.Rules.HostConventional.{high_water, write_rule_check-conventional}
use smr_simulator.Rules.Border.{close_last-border}
use smr_simulator.Rules.Aims.{Aims}
use smr_simulator.Types.Kind
use smr_simulator.Types.Cond
use smr_simulator.Rules.HostWrite.{host_code, host_state, write_rule_check-host}
use smr_simulator.Rules.HostRead.{
  host_read_code, host_read_stats, host_read_error, read_rule_check-host,
}
use smr_simulator.Init.{zero_stats}
use smr_simulator.Pstore.Queue.{note_write, note_refusal}
use smr_simulator.Map.{Verdict, remapped, refused, map_at, map, map_sector}
use smr_simulator.Map.Host.{accepts, written, map_at-accepts, map_at-breaks}
use smr_simulator.Map.Reading.{map_at_read}
use smr_simulator.Map.Entry.{Enters, map_total}
use smr_simulator.Examples.Device.{
  zone, device-IsValid, device, block_at, block-Aims, half_written, target,
}

write-host_example :
    write_rule_check device (block_at write 40) 1 0
    ≡ some (
      host_code device (block_at write 40) 1 half_written,
      host_state device
          (block_at write 40)
          1
          half_written
          zero_stats
          (host_code device (block_at write 40) 1 half_written),
    )
write-host_example =
    write_rule_check-host (block-Aims write 40 (omega arith) (omega arith)) refl refl refl refl

-- A block at the write pointer is accepted, a block past it is not.
accepted_code : host_code device (block_at write 40) 1 half_written ≡ success
unfolding host_code
accepted_code = refl

pub rejected_code : host_code device (block_at write 48) 1 half_written ≡ err_write_pointer
unfolding host_code
rejected_code = refl

read-host_example :
    read_rule_check device (block_at read 40) 1 0
    ≡ some (
      host_read_code device (block_at read 40) 1 half_written 0,
      record device {
        zone_stats =
            set device.zone_stats 1
              (host_read_stats device (block_at read 40) 1 half_written zero_stats 0);
        dbg_rerr = host_read_error device (block_at read 40) 1 half_written 0;
      },
    )
read-host_example = read_rule_check-host (block-Aims read 40 (omega arith) (omega arith)) 0

-- A read past the write pointer.
read_code : host_read_code device (block_at read 40) 1 half_written 0 ≡ err_read_pointer
unfolding host_read_code
read_code = refl

pub accepts_block : accepts device (block_at write 40) 1 half_written ≡ true
unfolding accepts
accepts_block = refl

breaks_block : accepts device (block_at write 48) 1 half_written ≡ false
unfolding accepts
breaks_block = refl

map-accepts_example :
    map_at device target (block_at write 40) 1
    ≡ some (
      remapped (map_sector target 40) 0,
      record device {
        zone_status = set device.zone_status 1 (written device (block_at write 40) half_written);
        ptask = note_write device.ptask 1;
      },
    )
map-accepts_example =
    map_at-accepts (block-Aims write 40 (omega arith) (omega arith)) refl refl refl refl refl refl
      target accepts_block

map-breaks_example :
    (s' : Sim) × (map_at device target (block_at write 48) 1 ≡ some (refused, s'))
    × (s'.zone_status ≡ device.zone_status)
    × (s'.ptask ≡ note_refusal device.ptask 1)
    × Frame device s'
map-breaks_example =
    map_at-breaks (block-Aims write 48 (omega arith) (omega arith)) refl refl refl refl refl refl
      target breaks_block

enters : Enters device (block_at write 60)
enters = inl (
  1,
  half_written,
  zero_stats,
  block-Aims write 60 (omega arith) (omega arith),
  inr (omega arith),
)

map_total_example :
    (v : Verdict) × (s' : Sim) × (map device target (block_at write 60) 70 100 ≡ some (v, s'))
    × ((zone_idx_of device 60 < 4) ⊎ (v ≡ refused))
    × IsValid s'
map_total_example = map_total device-IsValid enters target 70 100

-- Sector 200 lies behind the four zones.
behind : Enters device (block_at write 200)
unfolding zone_idx_of
behind = inr (omega arith)

map-read_example :
    (v : Verdict) × (s' : Sim) × (map_at device target (block_at read 40) 1 ≡ some (v, s'))
    × (s'.zone_status ≡ device.zone_status)
    × Frame device s'
map-read_example = map_at_read (block-Aims read 40 (omega arith) (omega arith)) target refl

first_zone : Aims device (block_at write 4) 0 (zone 0 Kind.conventional Cond.no_wp 0) zero_stats
unfolding zone_at stats_at
first_zone = record {
  valid = device-IsValid;
  in_table = omega arith;
  starts = omega arith;
  starts_in = omega arith;
  ends = omega arith;
  pointer = omega arith;
  zone = refl;
  stats = refl;
}

conventional_example :
    write_rule_check device (block_at write 4) 0 0
    ≡ some (
      success,
      record device {
        zone_status = set device.zone_status 0 (
            set_wp
              (high_water device (block_at write 4) 0 (zone 0 Kind.conventional Cond.no_wp 0))
              (zone 0 Kind.conventional Cond.no_wp 0));
      },
    )
conventional_example = write_rule_check-conventional first_zone refl (omega arith)

pointer_moves : high_water device (block_at write 4) 0 (zone 0 Kind.conventional Cond.no_wp 0) ≡ 12
unfolding high_water
pointer_moves = refl

-- A write from the first zone to the end of the second.
abbrev across : Bio
across = record { bi_sector = 24; bi_size = 20480; bio_sectors = 40; bio_dir = write }

across-Aims : Aims device across 0 (zone 0 Kind.conventional Cond.no_wp 0) zero_stats
unfolding zone_at stats_at
across-Aims = record {
  valid = device-IsValid;
  in_table = omega arith;
  starts = omega arith;
  starts_in = omega arith;
  ends = omega arith;
  pointer = omega arith;
  zone = refl;
  stats = refl;
}

third_zone : zone_at device 2 ≡ some (zone 2 Kind.sequential Cond.empty 0)
unfolding zone_at
third_zone = refl

border_end_example :
    (zone_idx_of device (end_lba across) ≡ 2)
    × (close_last device across 0 2
        ≡ smr_simulator.Exit.next (record device {
          zone_status =
              set device.zone_status 2
                (set_wp_conds 0 Cond.closed (zone 2 Kind.sequential Cond.empty 0));
        }))
border_end_example = close_last-border 1 across-Aims (omega arith) refl third_zone refl

-- ===== src/Examples/Runs.antt =====
-- Runs of the device of four zones.
use smr_simulator.Base.{◌+◌, ◌^◌, zero, suc, refl, arith, ◌≡◌, some, set}
use smr_simulator.Types.{write}
use smr_simulator.State.{Sim, zone_at}
use smr_simulator.Pstore.Queue.{note_write}
use smr_simulator.Map.{remapped, map_at, map_sector}
use smr_simulator.Map.Host.{written, map_at-accepts}
use smr_simulator.Map.Pointer.{Moves, Step-pointer}
use smr_simulator.Map.Sound.{AllSound}
use smr_simulator.Map.Managed.{Run, Managed, start, next, writes, Run-Managed}
use smr_simulator.Map.Fill.{run_length, Filled, fill-Run}
use smr_simulator.Examples.Requests.{accepts_block}
use smr_simulator.Examples.Device.{
  zones, device-IsValid, device, block_at, block-Aims, half_written, target,
}

zones_sound : AllSound 32 zones
zones_sound zero z e k = absurd (ground arith)
zones_sound (suc zero) z e k = ground arith
zones_sound (suc (suc zero)) z e k = ground arith
zones_sound (suc (suc (suc zero))) z e k = absurd (ground arith)
zones_sound (suc (suc (suc (suc i)))) z e k = absurd (ground arith)

device-Managed : Managed device
device-Managed = record {
  valid = device-IsValid;
  write_policy = refl;
  reset_off = refl;
  adjust_off = refl;
  sound = zones_sound;
}

-- The device after a block was written at the write pointer of zone 1.
abbrev after_write : Sim
after_write = record device {
  zone_status = set device.zone_status 1 (written device (block_at write 40) half_written);
  ptask = note_write device.ptask 1;
}

-- The first request of the run.
block_written :
    map_at device target (block_at write 40) 1
    ≡ some (remapped (map_sector target 40) 0, after_write)
block_written =
    map_at-accepts (block-Aims write 40 (omega arith) (omega arith)) refl refl refl refl refl refl
      target accepts_block

Run-Managed_example : Managed after_write
Run-Managed_example =
    Run-Managed device-Managed (
      next start (writes (block-Aims write 40 (omega arith) (omega arith)) refl refl block_written))

-- The zone that was written.
after_write_zone : zone_at after_write 1 ≡ some (written device (block_at write 40) half_written)
unfolding zone_at
after_write_zone = refl

before_write_zone : zone_at device 1 ≡ some half_written
unfolding zone_at
before_write_zone = refl

pointer_example : Moves half_written (written device (block_at write 40) half_written)
pointer_example =
    Step-pointer 1 device-Managed
      (writes (block-Aims write 40 (omega arith) (omega arith)) refl refl block_written)
      before_write_zone after_write_zone

-- Zone 1 has four blocks.
fill-Run_example :
    (s' : Sim) × (r : Run target device s') × (run_length r ≡ 1 + 2 ^ 2) × Filled device s' 1
fill-Run_example = fill-Run target 1 device-Managed (omega arith) before_write_zone refl

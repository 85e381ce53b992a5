-- ===== src/Examples/Interface.antt =====
-- Commands to the device of four zones.
use smr_simulator.Base.{none, ◌≡◌, ◌+◌, ◌*◌, arith, refl, true, some}
use smr_simulator.State.Geometry.{IsValid}
use smr_simulator.Config.Research.{border_across}
use smr_simulator.Config.Keeps.{border_across_overruns}
use smr_simulator.Ioctl.{given, set_sizzonedefault, Outcome, dispatch}
use smr_simulator.Ioctl.Calls.{given_inj, Safe, dispatch_total}
use smr_simulator.Examples.Device.{device, device-IsValid}
use smr_simulator.Examples.Table.{is_power, is_power-pow}

-- The zone size is set to 64 sectors.
resize-Safe : Safe device (set_sizzonedefault (given 64))
resize-Safe n e = (3, rw (← given_inj e) (omega arith), omega arith, omega arith)

dispatch_example :
    (o : Outcome) × (dispatch is_power true true true device (set_sizzonedefault (given 64))
      ≡ some o)
    × IsValid o.state
dispatch_example =
    dispatch_total is_power is_power-pow true true device (set_sizzonedefault (given 64))
      device-IsValid resize-Safe

-- Zone 9 of four.
border_example : border_across device (9 * 256 + 4) ≡ none
border_example = border_across_overruns (9 * 256 + 4) device-IsValid refl (omega arith)

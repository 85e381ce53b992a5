-- ===== src/Examples/Tool.antt =====
-- Command lines for the device of four zones.
use smr_simulator.Base.{
  none, ℕ, ◌≡◌, ◌+◌, ◌-◌, ◌<◌, ◌≤◌, ◌^◌, arith, refl, true, some, set, [], ◌∷◌,
}
use smr_simulator.State.{zone_at}
use smr_simulator.State.Geometry.{IsValid}
use smr_simulator.Pstore.Queue.{note_config}
use smr_simulator.Types.Cond
use smr_simulator.Ioctl.{dispatch}
use smr_simulator.Util.Atoi.{Text, atoi, atol, signed_value, skip_spaces, digits_value}
use smr_simulator.Util.Run.{Run, next, ended, value}
use smr_simulator.Util.Config.{config_iot, delay_ms}
use smr_simulator.Util.Main.{main}
use smr_simulator.Util.ResetZone.{reset_index_lem}
use smr_simulator.Util.AddLoop.{add_loop_lem}
use smr_simulator.Util.Safety.{Allowed, main_total}
use smr_simulator.Examples.Device.{device, device-IsValid, half_written}
use smr_simulator.Examples.Table.{is_power, is_power-pow}

-- The tool before a command: memory for one buffer, and 2 and 1 typed.
abbrev start : Run
start = record { device = device; printed = []; input = 2 ∷ 1 ∷ []; mallocs = true ∷ [] }

abbrev dev : Text
dev = 47 ∷ []

-- ` 12a`, `-1`, and a number past LONG_MAX.
atoi_spaces : atoi (32 ∷ 49 ∷ 50 ∷ 97 ∷ []) ≡ 12
unfolding atoi atol signed_value skip_spaces digits_value
atoi_spaces = refl

atoi_minus : atoi (45 ∷ 49 ∷ []) ≡ 2 ^ 32 - 1
unfolding atoi atol signed_value skip_spaces digits_value
atoi_minus = refl

digit : (n : ℕ) → n < 10 → atoi ((48 + n) ∷ []) ≡ n
unfolding atoi atol signed_value skip_spaces digits_value
digit n h = ground arith

-- 66 seconds on 16 bits of milliseconds.
delay_wraps : delay_ms 66 ≡ 464
unfolding delay_ms
delay_wraps = refl

reset_index_example :
    main
      (dispatch is_power true true true)
      2
      0
      true
      (dev ∷ (122 ∷ []) ∷ (53 ∷ []) ∷ (49 ∷ []) ∷ [])
      start
    ≡ next tt (record start {
      device = record device {
        zone_status =
            set device.zone_status 1
              (record half_written { z_write_ptr_offset = 0; z_conds = Cond.empty });
        ptask = note_config device.ptask;
      };
      printed = value 1 ∷ [];
    })
unfolding zone_at
reset_index_example =
    reset_index_lem is_power true true true 2 0 dev [] (53 ∷ []) (49 ∷ []) start 1 half_written
      device-IsValid (omega arith) refl (omega arith) (digit 5 (omega arith))
      (digit 1 (omega arith))

-- There are four zones: the zone that is asked for is refused.
add_loop_example :
    (r' : Run) × (ended (config_iot (dispatch is_power true true true) 2 0 8 none start) ≡ some r')
    × IsValid r'.device
    × (0 < 4 → r'.device ≡ device)
    × (r'.device.smr_numzones ≤ 4 + 1)
add_loop_example = add_loop_lem is_power true true true 0 0 none start device-IsValid (omega arith)

some_inj : {t u : Text} → some t ≡ some u → t ≡ u
some_inj e = cc

one : atol (49 ∷ []) ≡ 1
unfolding atol signed_value skip_spaces digits_value
one = refl

-- `h 4 1`
cross_line-Allowed : Allowed device (dev ∷ (104 ∷ []) ∷ (52 ∷ []) ∷ (49 ∷ []) ∷ [])
cross_line-Allowed = (
  λ code seq t e. absurd (omega (arith, code)),
  λ code seq t e. rw (← some_inj e, one) (omega arith),
)

main_total_example :
    (r' : Run) × (ended (
        main
          (dispatch is_power true true true)
          2
          0
          true
          (dev ∷ (104 ∷ []) ∷ (52 ∷ []) ∷ (49 ∷ []) ∷ [])
          start)
      ≡ some r')
    × IsValid r'.device
main_total_example =
    main_total is_power is_power-pow true true 0 0 true
      (dev ∷ (104 ∷ []) ∷ (52 ∷ []) ∷ (49 ∷ []) ∷ []) start device-IsValid (omega arith)
      cross_line-Allowed

-- ===== src/Util/Safety.antt =====
-- smrsim_util.c, main, on a device in a valid state.
use smr_simulator.Base.{
  ℕ, suc, ◌^◌, ◌≡◌, ◌<◌, refl, arith, inl, inr, Bool, true, false, List, [], ◌∷◌, ◌==◌, Bool-cases,
  Option, some, none, length, u32, shr,
}
use smr_simulator.State.{Sim}
use smr_simulator.State.Geometry.{IsValid}
use smr_simulator.Ioctl.{dispatch, given, set_sizzonedefault}
use smr_simulator.Ioctl.Calls.{Safe}
use smr_simulator.Util.Atoi.{Text, atoi, atol}
use smr_simulator.Util.Run.{Run, Result, fault, left, next, ended, Driver, help}
use smr_simulator.Util.Research.{border_option}
use smr_simulator.Util.Good.{Good, Any}
use smr_simulator.Util.Valid.{err_iot-Good, zone_iot-Good, print-Good}
use smr_simulator.Util.Valid.Stats.{stats_iot-Good}
use smr_simulator.Util.Valid.Config.{config_iot-Good}
use smr_simulator.Util.Valid.Research.{zone_rt-Good}
use smr_simulator.Util.Main.{main, command, first_char}

-- What a command line must respect, beside the driver's own checks: the zone size of `z 3` can be
-- set up, and the index of `h 4` is one of the table.
abbrev pub Sized : Sim → ℕ → ℕ → Option Text → Type 0
Sized s code seq arg =
    code ≡ 122 → seq ≡ 3 → (t : Text) → arg ≡ some t → Safe s (set_sizzonedefault (given (atoi t)))

abbrev pub Indexed : Sim → ℕ → ℕ → Option Text → Type 0
Indexed s code seq arg =
    code ≡ 104
    → seq ≡ 4
    → (t : Text) → arg ≡ some t
    → u32 (shr (border_option (atol t)) 8) < s.smr_numzones

abbrev pub Allowed : Sim → List Text → Type 0
Allowed s (dev ∷ code ∷ seq ∷ arg ∷ []) =
    Sized s (first_char code) (atoi seq) (some arg)
    × Indexed s (first_char code) (atoi seq) (some arg)
Allowed s _ = Unit

module _ (is_power_of_2 : ℕ → Bool) (powers : (k : ℕ) → k < 64 → is_power_of_2 (2 ^ k) ≡ true)
    (kzalloc krealloc : Bool) where
  abbrev call : Driver
  call = dispatch is_power_of_2 true kzalloc krealloc

  command-Good :
      (n garbage code seq : ℕ) (arg : Option Text) (r : Run)
      → IsValid r.device
      → 0 < length r.device.zone_status
      → Sized r.device code seq arg
      → Indexed r.device code seq arg
      → Good IsValid Any (command call (suc (suc n)) garbage code seq arg r)
  unfolding command
  command-Good n garbage code seq arg r v room sized indexed = elim (Bool-cases (code == 122)) [
    | inl z ↦ ground (
      arith,
      z,
      zone_iot-Good is_power_of_2 powers kzalloc krealloc v seq arg r refl
          (sized (ground (arith, z))),
    )
    | inr noz ↦ elim (Bool-cases (code == 104)) [
      | inl h ↦ ground (
        arith,
        h,
        zone_rt-Good is_power_of_2 powers kzalloc krealloc v seq arg r refl
            (indexed (ground (arith, h))),
      )
      | inr noh ↦ ground (
        arith,
        noz,
        noh,
        err_iot-Good is_power_of_2 powers kzalloc krealloc v seq r refl,
        stats_iot-Good is_power_of_2 powers kzalloc krealloc v seq arg r refl,
        config_iot-Good is_power_of_2 powers kzalloc krealloc v n garbage seq arg r refl room,
        print-Good is_power_of_2 powers kzalloc krealloc v help r refl,
      )
    ]
  ]

  main-Good :
      (n garbage : ℕ) (opened : Bool) (args : List Text) (r : Run)
      → IsValid r.device
      → 0 < length r.device.zone_status
      → Allowed r.device args
      → Good IsValid Any (main call (suc (suc n)) garbage opened args r)
  unfolding main
  main-Good n garbage true (dev ∷ code ∷ seq ∷ []) r v room h =
      command-Good n garbage (first_char code) (atoi seq) none r v room
        (λ _ _ t e. absurd (none-some t e)) (λ _ _ t e. absurd (none-some t e))
    where
      none-some : (t : Text) → ¬ (none ≡ some t)
      none-some t e = cc
  main-Good n garbage true (dev ∷ code ∷ seq ∷ arg ∷ []) r v room h =
      command-Good n garbage (first_char code) (atoi seq) (some arg) r v room (h.0) (h.1)
  main-Good n garbage false (dev ∷ code ∷ seq ∷ []) r v room h = (v, tt)
  main-Good n garbage false (dev ∷ code ∷ seq ∷ arg ∷ []) r v room h = (v, tt)
  main-Good n garbage opened [] r v room h = (v, tt)
  main-Good n garbage opened (a ∷ []) r v room h = (v, tt)
  main-Good n garbage opened (a ∷ b ∷ []) r v room h = (v, tt)
  main-Good n garbage opened (a ∷ b ∷ c ∷ d ∷ e ∷ rest) r v room h = (v, tt)

  Good-ended :
      (x : Result (Unit {0}))
      → Good IsValid Any x
      → (r : Run) × (ended x ≡ some r) × IsValid r.device
  Good-ended fault h = absurd h
  Good-ended (left r) h = (r, refl, h)
  Good-ended (next a r) h = (r, refl, h.0)

  -- With the switch of smrsim_ioctl as the driver (`dispatch`), where `is_power_of_2` holds of the
  -- powers of two below 2 ^ 64 and there is memory for a new table, a call of the tool with any
  -- arguments ends without a fault on a device in a valid state whose table has room for a zone,
  -- whatever is typed, and leaves the state valid: if the size for `z 3` can be set up and the
  -- index for `h 4` is one of the table (`Allowed`). Two rounds are enough for the loop of `l 8`.
  pub main_total :
      (n garbage : ℕ) (opened : Bool) (args : List Text) (r : Run)
      → IsValid r.device
      → 0 < length r.device.zone_status
      → Allowed r.device args
      → (r' : Run) × (ended (main call (suc (suc n)) garbage opened args r) ≡ some r')
        × IsValid r'.device
  main_total n garbage opened args r v room h =
      Good-ended _ (main-Good n garbage opened args r v room h)

-- ===== src/Util/Main.antt =====
-- source/smrsim_util/smrsim_util.c, main.
use smr_simulator.Base.{ℕ, Bool, if◌then◌else◌, ◌==◌, List, [], ◌∷◌, Option, some, none}
use smr_simulator.Util.Atoi.{Text, atoi}
use smr_simulator.Util.Run.{help, failed, Driver, Tool, print}
use smr_simulator.Util.Log.{err_iot}
use smr_simulator.Util.Zones.{zone_iot}
use smr_simulator.Util.Stats.{stats_iot}
use smr_simulator.Util.Config.{config_iot}
use smr_simulator.Util.Research.{zone_rt}

-- `argv[2][0]`: the empty text has the final 0 there.
abbrev pub first_char : Text → ℕ
first_char [] = 0
first_char (c ∷ cs) = c

-- The letters e, z, s, l and h.
unfoldable pub command : Driver → ℕ → ℕ → ℕ → ℕ → Option Text → Tool (Unit {0})
command call rounds garbage code seq arg =
    if code == 101
    then err_iot call seq
    else if code == 122
    then zone_iot call seq arg
    else if code == 115
    then stats_iot call seq arg
    else if code == 108
    then config_iot call rounds garbage seq arg
    else if code == 104
    then zone_rt call seq arg
    else print help

-- The command line after the program's name; `opened` is the result of `open`.
unfoldable pub main : Driver → ℕ → ℕ → Bool → List Text → Tool (Unit {0})
unfolding command
main call rounds garbage opened (dev ∷ code ∷ seq ∷ []) =
    if opened then command call rounds garbage (first_char code) (atoi seq) none else print failed
main call rounds garbage opened (dev ∷ code ∷ seq ∷ arg ∷ []) =
    if opened
    then command call rounds garbage (first_char code) (atoi seq) (some arg)
    else print failed
main call rounds garbage opened [] = print help
main call rounds garbage opened (a ∷ []) = print help
main call rounds garbage opened (a ∷ b ∷ []) = print help
main call rounds garbage opened (a ∷ b ∷ c ∷ d ∷ e ∷ rest) = print help

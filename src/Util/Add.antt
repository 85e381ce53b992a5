-- ===== src/Util/Add.antt =====
-- source/smrsim_util/smrsim_util.c, smrsim_config_iot, the case 8: the loop that adds zones.
use smr_simulator.Base.{
  ℕ, zero, suc, ◌+◌, ◌*◌, Bool, true, false, not, ◌&&◌, ◌||◌, if◌then◌else◌, ◌==◌, u32, some, none,
}
use smr_simulator.Types.Cond
use smr_simulator.Types.Kind
use smr_simulator.Types.{ZoneStatus}
use smr_simulator.Config.Zones.{zero_status}
use smr_simulator.Ioctl.{given, writable, get_numzones, get_sizzonedefault, add_zoneconfig}
use smr_simulator.Util.Run.{
  failed, wrong_parameter, succeeded, asks_type, asks_more, all_conventional, value, Driver, Tool,
  fault, ◌>>=◌, ◌>>◌, pure, break, print, scanf, ioctl_call, word_or, number_or_break,
}
use smr_simulator.Util.Count.{query_seq_zones}

-- The variables that a round of the loop leaves to the next one.
pub record Vars : Type 0 where
  pub s_cnt : ℕ
  pub flag : Bool
  pub size32 : ℕ
  pub option : ℕ

-- The zones are counted in the first round that finds one.
unfoldable pub counted : Driver → ℕ → Vars → Tool Vars
unfolding query_seq_zones
counted call num32 v =
    if v.flag || num32 == 0
    then pure v
    else (do n ← query_seq_zones call num32; pure (record v { flag = true; s_cnt = n }))

-- `zone_status` for the option 1 or 2. Its `z_start` is a sector.
unfoldable pub new_zone : ℕ → ℕ → ℕ → ZoneStatus
new_zone num32 size32 option =
    let conventional = option == 1 in
    record zero_status {
      z_start = u32 (num32 * size32);
      z_length = size32;
      z_type = if conventional then Kind.conventional else Kind.sequential;
      z_conds = if conventional then Cond.no_wp else Cond.empty;
    }

-- A round from the answer to the first question on.
unfoldable pub add_answered : Driver → ℕ → Vars → Tool Vars
unfolding new_zone
add_answered call num32 v =
    if not (v.option == 1) && not (v.option == 2)
    then (do print wrong_parameter; break; pure v)
    else (do
      let s_cnt = if v.option == 2 then u32 (v.s_cnt + 1) else v.s_cnt
      o ← ioctl_call call (add_zoneconfig (given (new_zone num32 v.size32 v.option)))
      elim o [
        | none ↦ (do print failed; break; pure v)
        | some w ↦ (do
          print succeeded
          print asks_more
          option ← scanf v.option
          if option == 0 && s_cnt == 0 then print all_conventional else pure tt
          pure (record v { s_cnt = s_cnt; option = option }))
      ])

unfoldable pub add_round : Driver → Vars → Tool Vars
unfolding counted add_answered
add_round call v = do
  num32 ← number_or_break call (get_numzones writable)
  print (value num32)
  o ← ioctl_call call (get_sizzonedefault writable)
  elim o [ none ↦ print failed | some w ↦ pure tt ]
  w ← counted call num32 (record v { size32 = word_or v.size32 o })
  print asks_type
  option ← scanf w.option
  add_answered call num32 (record w { option = option })

-- `do { ... } while (option == 1)`, by the rounds that may still be run. Out of them is the fault.
unfoldable pub add_loop : Driver → ℕ → Vars → Tool (Unit {0})
unfolding add_round
add_loop call zero v r = fault
add_loop call (suc n) v r =
    (add_round call v >>= λ w. elim (w.option == 1) [ true ↦ add_loop call n w | false ↦ pure tt ])
      r

abbrev pub first_vars : Vars
first_vars = record { s_cnt = 0; flag = false; size32 = 0; option = 0 }

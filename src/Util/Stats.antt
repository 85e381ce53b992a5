-- ===== src/Util/Stats.antt =====
-- source/smrsim_util/smrsim_util.c, smrsim_report_zone_stats to smrsim_stats_iot: the commands `s`.
-- An entry of `zone_stats` that the driver did not fill is a fault.
use smr_simulator.Base.{
  ℕ, zero, suc, ◌+◌, ◌*◌, if◌then◌else◌, ltb, leb, ◌==◌, u64, [], get_elem?, Option, some, none,
}
use smr_simulator.Config.Stats.{Stats}
use smr_simulator.Ioctl.{
  nothing, word, config, stats, zones, given, writable, get_numzones, get_sizzonedefault,
  get_stats_cmd, reset_stats_cmd, reset_zonestats,
}
use smr_simulator.Util.Atoi.{Text, atoi, atol}
use smr_simulator.Util.Run.{
  invalid_command, failed, out_of_range, succeeded, idle_line, stats_line, Driver, Tool, ◌>>=◌,
  ◌>>◌, pure, break, print, malloc_or_break, or_fault, ioctl_call, ioctl_say, number_or_break,
  argument,
}

-- `stats` is not a null pointer: its caller has tested it.
unfoldable pub report_zone_stats : Stats → ℕ → Tool (Unit {0})
report_zone_stats st idx = do
  print (idle_line st.dev_stats)
  z ← or_fault (get_elem? st.stats_zones idx)
  print (stats_line idx z)

unfoldable pub report_from : Stats → ℕ → ℕ → Tool (Unit {0})
report_from st zero i = pure tt
report_from st (suc n) i = do
  z ← or_fault (get_elem? st.stats_zones i)
  print (stats_line i z)
  report_from st n (i + 1)

unfoldable pub report_stats : Stats → ℕ → Tool (Unit {0})
unfolding report_from
report_stats st num32 = do print (idle_line st.dev_stats); report_from st num32 0

-- `if (!ioctl(fd, IOCTL_SMRSIM_GET_STATS, stats)) report(stats)`
abbrev pub get_report : Driver → (Stats → Tool (Unit {0})) → Tool (Unit {0})
get_report call report = do
  o ← ioctl_call call (get_stats_cmd writable)
  elim o [
    | none ↦ print failed
    | some w ↦ elim w [
      | stats st ↦ (do print succeeded; report st)
      | nothing ↦ pure tt
      | word n ↦ pure tt
      | config c ↦ pure tt
      | zones a ↦ pure tt
    ]
  ]

-- `s 2`
unfoldable pub first_stats : Driver → ℕ → Option Text → Tool (Unit {0})
unfolding report_stats
first_stats call num_zones arg = do
  text ← argument arg []
  if ltb num_zones (atoi text)
      then (do print out_of_range; break)
      else get_report call (λ st. report_stats st (atoi text))

-- `s 3`
unfoldable pub stats_of_index : Driver → ℕ → Option Text → Tool (Unit {0})
unfolding report_zone_stats
stats_of_index call num_zones arg = do
  text ← argument arg []
  if leb num_zones (atoi text)
      then (do print out_of_range; break)
      else get_report call (λ st. report_zone_stats st (atoi text))

-- `s 5`
unfoldable pub reset_stats_lba : Driver → Option Text → Tool (Unit {0})
reset_stats_lba call arg = do
  text ← argument arg []
  ioctl_say call (reset_zonestats (given (atol text))) succeeded

-- `s 6`
unfoldable pub reset_stats_index : Driver → ℕ → Option Text → Tool (Unit {0})
reset_stats_index call num_zones arg = do
  text ← argument arg []
  let num32 = atoi text
  if leb num_zones num32 then (do print out_of_range; break) else (do
    num64 ← number_or_break call (get_sizzonedefault writable)
    ioctl_say call (reset_zonestats (given (u64 (num32 * num64)))) succeeded)

unfoldable pub stats_iot : Driver → ℕ → Option Text → Tool (Unit {0})
unfolding report_stats
stats_iot call seq arg = do
  num_zones ← number_or_break call (get_numzones writable)
  malloc_or_break
  if seq == 1
      then get_report call (λ st. report_stats st num_zones)
      else if seq == 2
      then first_stats call num_zones arg
      else if seq == 3
      then stats_of_index call num_zones arg
      else if seq == 4
      then ioctl_say call reset_stats_cmd succeeded
      else if seq == 5
      then reset_stats_lba call arg
      else if seq == 6
      then reset_stats_index call num_zones arg
      else print invalid_command

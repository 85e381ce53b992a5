-- ===== src/Util/Zones.antt =====
-- source/smrsim_util/smrsim_util.c, smrsim_report_zbc_query and smrsim_zone_iot: the commands `z`.
use smr_simulator.Base.{
  ℕ, ◌*◌, ◌||◌, if◌then◌else◌, ltb, leb, ◌==◌, u64, List, [], ◌∷◌, Option, some, none,
}
use smr_simulator.Types.Cond
use smr_simulator.Types.{ZoneStatus}
use smr_simulator.Query.{
  Criteria, Answer, match_all, match_full, match_nfull, match_free, match_rnly, match_offl,
}
use smr_simulator.Ioctl.{
  Reply, nothing, word, config, stats, zones, given, writable, get_numzones, get_sizzonedefault,
  set_sizzonedefault, zbc_reset_zone, zbc_query,
}
use smr_simulator.Util.Atoi.{Text, atoi, atol}
use smr_simulator.Util.Run.{
  help, invalid_command, failed, out_of_range, null_pointer, no_zone_matched, value, matching,
  query_line, zone_line, Driver, Tool, ◌>>=◌, ◌>>◌, pure, break, print, malloc_or_break, ioctl_call,
  ioctl_say, word_or, number_or_break, argument,
}
use smr_simulator.Util.Log.{show_number}

-- The conditions that the switch has a line for; the two open ones and an unknown one print none.
abbrev shown_condition : ℕ → Option ℕ
shown_condition c =
    if c == Cond.no_wp
      || c == Cond.empty
      || c == Cond.read_only
      || c == Cond.closed
      || c == Cond.full
      || c == Cond.offline
    then some c
    else none

unfoldable pub report_zones : List ZoneStatus → Tool (Unit {0})
report_zones [] = pure tt
report_zones (z ∷ zs) = do
  print (
      zone_line z.z_start z.z_length z.z_write_ptr_offset z.z_type z.z_flag
        (shown_condition z.z_conds))
  report_zones zs

-- `zbc_query->ptr[i]` for the first `num_zones` entries: those that the driver copied.
unfoldable pub report_zbc_query : Option (ℕ × Criteria × Answer) → Tool (Unit {0})
unfolding report_zones
report_zbc_query none = print null_pointer
report_zbc_query (some (lba, c, a)) =
    if a.count == 0
    then print no_zone_matched
    else (do print (query_line lba c a.count); report_zones a.copied)

-- `if (!ioctl(fd, IOCTL_SMRSIM_ZBC_QUERY, zbc_query)) smrsim_report_zbc_query(zbc_query)`
abbrev pub report_reply : ℕ → Criteria → Option Reply → Tool (Unit {0})
report_reply lba c (some (zones a)) = report_zbc_query (some (lba, c, a))
report_reply lba c (some (word n)) = pure tt
report_reply lba c (some nothing) = pure tt
report_reply lba c (some (config d)) = pure tt
report_reply lba c (some (stats t)) = pure tt
report_reply lba c none = print failed

unfoldable pub query_matching : Driver → ℕ → ℕ → Criteria → Tool (Unit {0})
unfolding report_zbc_query
query_matching call lba num c = do
  print (matching c)
  o ←
      ioctl_call call
        (zbc_query (given (record { lba = lba; num_zones = num; criteria = c })) writable)
  report_reply lba c o

-- `z 8`: the zone of an index.
unfoldable pub query_index : Driver → Option Text → Tool (Unit {0})
unfolding query_matching
query_index call arg = do
  num_zones ← number_or_break call (get_numzones writable)
  num64 ← number_or_break call (get_sizzonedefault writable)
  text ← argument arg []
  let num32 = atoi text
  if leb num_zones num32
      then (do print out_of_range; print help; break)
      else (do malloc_or_break; query_matching call (u64 (num32 * num64)) 1 match_all)

-- `z 6` and `z 7` have a range of zones each, by the number of zones and their size.
unfoldable pub query_range : ℕ → ℕ → ℕ → Text → Option (ℕ × ℕ)
query_range seq num_zones num64 text =
    if seq == 6
    then (if atoi text == 0 || ltb num_zones (atoi text) then none else some (0, atoi text))
    else if leb (u64 (num64 * num_zones)) (atol text)
    then none
    else some (atol text, 1)

abbrev range_or_break : Option (ℕ × ℕ) → Tool (ℕ × ℕ)
range_or_break none = do print out_of_range; print help; break; pure (0, 0)
range_or_break (some q) = pure q

-- The `break` that ends this case stands under `#if 0`: the next case, `z 8`, follows.
unfoldable pub query_all : Driver → ℕ → Option Text → Tool (Unit {0})
unfolding query_matching query_index query_range
query_all call seq arg = do
  num_zones ← number_or_break call (get_numzones writable)
  num64 ← number_or_break call (get_sizzonedefault writable)
  text ← argument arg []
  (lba, num32) ← range_or_break (query_range seq num_zones num64 text)
  malloc_or_break
  query_matching call lba num32 match_all
  query_matching call lba num32 match_full
  query_matching call lba num32 match_nfull
  query_matching call lba num32 match_free
  query_matching call lba num32 match_rnly
  query_matching call lba num32 match_offl
  query_index call arg

-- `z 3`
unfoldable pub set_size : Driver → Option Text → Tool (Unit {0})
set_size call arg = do
  text ← argument arg []
  ioctl_say call (set_sizzonedefault (given (atoi text))) (value (atoi text))

-- `z 4`
unfoldable pub reset_lba : Driver → Option Text → Tool (Unit {0})
reset_lba call arg = do
  text ← argument arg []
  ioctl_say call (zbc_reset_zone (given (atol text))) (value (atol text))

-- `z 5`. The first failure is only told; the number of zones is 0 then.
unfoldable pub reset_index : Driver → Option Text → Tool (Unit {0})
reset_index call arg = do
  text ← argument arg []
  o ← ioctl_call call (get_numzones writable)
  elim o [ none ↦ print failed | some w ↦ pure tt ]
  let num32 = atoi text
  if leb (word_or 0 o) num32 then (do print out_of_range; break) else (do
    num64 ← number_or_break call (get_sizzonedefault writable)
    ioctl_say call (zbc_reset_zone (given (u64 (num32 * num64)))) (value num32))

unfoldable pub zone_iot : Driver → ℕ → Option Text → Tool (Unit {0})
zone_iot call seq arg =
    if seq == 1
    then show_number call (get_numzones writable)
    else if seq == 2
    then show_number call (get_sizzonedefault writable)
    else if seq == 3
    then set_size call arg
    else if seq == 4
    then reset_lba call arg
    else if seq == 5
    then reset_index call arg
    else if seq == 6 || seq == 7
    then query_all call seq arg
    else if seq == 8
    then query_index call arg
    else print invalid_command

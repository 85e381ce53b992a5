-- ===== src/Rules/HostWrite.antt =====
-- Writes to a sequential zone under the default policy, against the rules of a host-managed drive.
use smr_simulator.Base.{
  ℕ, ◌+◌, ◌*◌, ◌%◌, ◌≡◌, ◌≤◌, ◌<◌, arith, some, if◌then◌else◌, ◌==◌, ltb, set, not,
}
use smr_simulator.Types.Kind
use smr_simulator.Types.{
  ZoneStatus, ZoneStats, Code, success, err_write_align, err_write_pointer, err_write_border, Bio,
}
use smr_simulator.State.{Sim}
use smr_simulator.State.Geometry.{size_of}
use smr_simulator.State.Access.{modify_zone-some, modify_stats-some, zone_at-valid}
use smr_simulator.Exit.{ret, next}
use smr_simulator.Rules.Log.{log_error}
use smr_simulator.Rules.Aims.{Aims, Aims-Sizes, next-in_table}
use smr_simulator.Rules.Write.{
  check_align, check_pointer, trace_conventional, split_border, reject_border, check_border,
  advance, write_rule_check, count_unaligned, count_not_on_swp, count_write_span, set_wp_conds,
  conds_at,
}

-- The first rule that a write of a sequential zone breaks.
unfoldable pub host_code : Sim → Bio → ℕ → ZoneStatus → Code
host_code s b i z =
    if not (b.bi_size % 4096 == 0)
    then err_write_align
    else if not (b.bi_sector == i * size_of s + z.z_write_ptr_offset)
    then err_write_pointer
    else if ltb (i * size_of s + size_of s) (b.bi_sector + b.bio_sectors)
    then err_write_border
    else success

-- What the write leaves: the pointer moved past it, or one counter and the debug error.
unfoldable pub host_state : Sim → Bio → ℕ → ZoneStatus → ZoneStats → Code → Sim
host_state s b i z t err_write_align =
    log_error (record s { zone_stats = set s.zone_stats i (count_unaligned t) }) err_write_align
host_state s b i z t err_write_pointer =
    log_error (record s { zone_stats = set s.zone_stats i (count_not_on_swp t) }) err_write_pointer
host_state s b i z t err_write_border =
    log_error (record s { zone_stats = set s.zone_stats i (count_write_span t) }) err_write_border
host_state s b i z t _ =
    let wp = z.z_write_ptr_offset + b.bio_sectors in
    record s { zone_status = set s.zone_status i (set_wp_conds wp (conds_at wp (size_of s)) z) }

module _ {s : Sim} {b : Bio} {i : ℕ} {z : ZoneStatus} {t : ZoneStats} (a : Aims s b i z t)
    (kind : z.z_type ≡ Kind.sequential) where
  pub align_cases : check_align s b i 0 ≡ (
      if b.bi_size % 4096 == 0
      then next (0, s)
      else ret err_write_align (host_state s b i z t err_write_align))
  unfolding check_align host_state
  align_cases = ground (arith, modify_stats-some s i count_unaligned a.stats)

  pub pointer_cases :
      s.wp_reset_flag ≡ 0
      → s.wp_adjust_flag ≡ 0
      → check_pointer s b i 0 0 ≡ (
          if b.bi_sector == i * size_of s + z.z_write_ptr_offset
          then next (0, s)
          else ret err_write_pointer (host_state s b i z t err_write_pointer))
  unfolding check_pointer host_state
  pointer_cases r d = ground (arith, modify_stats-some s i count_not_on_swp a.stats, Aims-Sizes a)

  pub trace_next : trace_conventional s b i ≡ next s
  unfolding trace_conventional
  trace_next = ground arith

  split_next :
      z.z_flag ≡ 0
      → i * size_of s + size_of s < b.bi_sector + b.bio_sectors
      → split_border s b i ≡ next s
  unfolding split_border
  split_next f h =
      let (n, e) = zone_at-valid (i + 1) a.valid (next-in_table a h) in ground (arith, Aims-Sizes a)

  reject_ret : reject_border s i 0 0 ≡ ret err_write_border (host_state s b i z t err_write_border)
  unfolding reject_border host_state
  reject_ret = ground (arith, modify_stats-some s i count_write_span a.stats)

  pub border_ret :
      z.z_flag ≡ 0
      → i * size_of s + size_of s < b.bi_sector + b.bio_sectors
      → check_border s b i 0 0 ≡ ret err_write_border (host_state s b i z t err_write_border)
  unfolding check_border
  border_ret f h = ground (arith, Aims-Sizes a, split_next f h, reject_ret)

  pub border_next :
      b.bi_sector + b.bio_sectors ≤ i * size_of s + size_of s → check_border s b i 0 0 ≡ next (0, s)
  unfolding check_border
  border_next h = ground (arith, Aims-Sizes a)

  advance_next :
      b.bi_sector + b.bio_sectors ≤ i * size_of s + size_of s
      → b.bi_sector ≡ i * size_of s + z.z_write_ptr_offset
      → advance s b i 0 ≡ next (host_state s b i z t success)
  unfolding advance host_state
  advance_next h e = ground (
    arith,
    Aims-Sizes a,
    modify_zone-some s i
        (set_wp_conds (z.z_write_ptr_offset + b.bio_sectors)
          (conds_at (z.z_write_ptr_offset + b.bio_sectors) (size_of s)))
        a.zone,
  )

  -- For a request to a zone of the table (`Aims`), under the default policy and with
  -- the research options off: a write to a sequential zone gets the code of the first rule that it
  -- breaks: 4 KiB alignment, start at the write pointer, end in the zone. If it breaks none it is
  -- accepted, its zone's pointer moves past it and the zone is full or closed; else one counter of
  -- its zone and, with the log on, the debug error are all that changes.
  pub write_rule_check-host :
      s.wp_reset_flag ≡ 0
      → s.wp_adjust_flag ≡ 0
      → z.z_flag ≡ 0
      → let code = host_code s b i z in
        write_rule_check s b i 0 ≡ some (code, host_state s b i z t code)
  unfolding write_rule_check host_code
  write_rule_check-host r d f =
      ground
        (arith, align_cases, pointer_cases r d, trace_next, border_ret f, border_next, advance_next)

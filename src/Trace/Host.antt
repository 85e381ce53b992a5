-- ===== src/Trace/Host.antt =====
-- The trace of a write to a sequential zone under the default policy.
use smr_simulator.Base.{
  ℕ, ◌+◌, ◌*◌, ◌≡◌, ◌≢◌, ◌≤◌, arith, [], ◌∷◌, some, true, false, Bool-cases, u32,
}
use smr_simulator.Types.Cond
use smr_simulator.Types.Kind
use smr_simulator.Types.{ZoneStatus, ZoneStats, success, Bio, write}
use smr_simulator.State.{Sim, zone_at}
use smr_simulator.State.Geometry.{size_of}
use smr_simulator.State.Access.{zone_at-set_self}
use smr_simulator.Rules.Aims.{Aims, Aims-Sizes}
use smr_simulator.Rules.Write.{end_lba}
use smr_simulator.Rules.HostWrite.{
  host_code, align_cases, pointer_cases, trace_next, border_ret, border_next, write_rule_check-host,
}
use smr_simulator.Map.{Target, Verdict, refused, map_at}
use smr_simulator.Map.Host.{accepts, written, map_at-accepts, map_at-breaks}
use smr_simulator.Trace.Entry.{zone_write_evt, bio_write_check_evt}
use smr_simulator.Trace.Request.{write_trace, written_trace, direction_trace, map_at_trace}

module _ {s : Sim} {b : Bio} {i : ℕ} {z : ZoneStatus} {t : ZoneStats} (a : Aims s b i z t)
    (dir : b.bio_dir ≡ write) (kind : z.z_type ≡ Kind.sequential)
    (policy : s.dev_config.out_of_policy_write_flag ≡ 0) (r : s.wp_reset_flag ≡ 0)
    (d : s.wp_adjust_flag ≡ 0) (f : z.z_flag ≡ 0) where
  -- The tracepoint behind the checks is reached by the writes that pass them.
  passed_trace :
      host_code s b i z ≡ success
      → write_trace s b i 0
        ≡ zone_write_evt i z.z_write_ptr_offset (u32 (z.z_write_ptr_offset + b.bio_sectors)) ∷ []
  unfolding write_trace host_code
  passed_trace h = ground (
    arith,
    align_cases a kind,
    pointer_cases a kind r d,
    trace_next a kind,
    border_next a kind,
    a.zone,
  )

  broken_trace : host_code s b i z ≢ success → write_trace s b i 0 ≡ []
  unfolding write_trace host_code
  broken_trace h =
      ground (
        arith,
        align_cases a kind,
        pointer_cases a kind r d,
        trace_next a kind,
        border_ret a kind f,
      )

  -- A write that keeps the rules of a host-managed drive leaves one entry behind its first one: the
  -- zone with its write pointer before the request, and with the pointer that the zone has after it.
  -- For a request to a zone of the table (`Aims`) to a sequential zone, under the default
  -- write policy and with the research options off.
  pub map_at_trace-accepts :
      (target : Target)
      → accepts s b i z ≡ true
      → (v : Verdict) × (s' : Sim) × (z' : ZoneStatus) × (map_at s target b i ≡ some (v, s'))
        × (zone_at s' i ≡ some z')
        × (map_at_trace s b i ≡ zone_write_evt i z.z_write_ptr_offset z'.z_write_ptr_offset ∷ [])
  unfolding zone_at
  map_at_trace-accepts target h = (
    _,
    _,
    written s b z,
    map_at-accepts a dir kind policy r d f target h,
    zone_at-set_self s i (written s b z) a.zone,
    (unfold accepts host_code map_at_trace direction_trace written_trace end_lba in
        ground (arith, passed_trace, write_rule_check-host a kind r d f, Aims-Sizes a, a.zone)),
  )

  -- A write that gets as far as the rules and breaks one leaves one entry behind its first one, with
  -- the code of the first rule that it breaks, and is refused. For a request that the device mapper
  -- may hand in (`Aims`) to a sequential zone that is neither offline nor read-only nor full, of at
  -- most one zone past its own, under the default write policy and with the research options off.
  pub map_at_trace-breaks :
      (target : Target)
      → z.z_conds ≢ Cond.offline
      → z.z_conds ≢ Cond.read_only
      → z.z_conds ≢ Cond.full
      → b.bi_sector + b.bio_sectors ≤ i * size_of s + 2 * size_of s
      → host_code s b i z ≢ success
      → (s' : Sim) × (map_at s target b i ≡ some (refused, s'))
        × (map_at_trace s b i
            ≡ bio_write_check_evt "write error out of policy" 0 (host_code s b i z) ∷ [])
  map_at_trace-breaks target h₁ h₂ h₃ l n =
      let (s', e, _, _, _) = map_at-breaks a dir kind policy r d f target rejected in
      (
        s',
        e,
        (unfold map_at_trace direction_trace written_trace end_lba in
            ground
              (arith, broken_trace n, write_rule_check-host a kind r d f, Aims-Sizes a, a.zone)),
      )
    where
      rejected : accepts s b i z ≡ false
      rejected = unfold accepts host_code in ground (arith, Bool-cases (accepts s b i z))

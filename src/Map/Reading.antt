-- ===== src/Map/Reading.antt =====
-- smrsim_map for a read, under every policy: no zone changes.
use smr_simulator.Base.{ℕ, ◌≡◌, arith, Option, some, none, set, refl}
use smr_simulator.Types.{
  ZoneStatus, ZoneStats, Code, Bio, read, err_out_range, err_out_of_policy, err_zone_offline,
}
use smr_simulator.State.{Sim}
use smr_simulator.Rules.Log.{log_error, log_code}
use smr_simulator.Rules.Aims.{Aims}
use smr_simulator.Rules.Frame.{Frame, log_error-Frame, note_refusal-Frame, read_stats-Frame}
use smr_simulator.Rules.HostRead.{read_rule_check-host, host_read_stats, host_read_error}
use smr_simulator.Map.{Target, Verdict, mapped, nomap, map_read, by_direction, map_at}

-- The verdict leaves the zones and the frame.
abbrev pub Spares : Sim → Option (Verdict × Sim) → Type 0
Spares s none = ⊥
Spares s (some (v, s')) = (s'.zone_status ≡ s.zone_status) × Frame s s'

Spares-verdict :
    (s : Sim) (r : Option (Verdict × Sim))
    → Spares s r
    → (v : Verdict) × (s' : Sim) × (r ≡ some (v, s'))
      × (s'.zone_status ≡ s.zone_status)
      × Frame s s'
Spares-verdict s none h = absurd h
Spares-verdict s (some (v, s')) h = (v, s', refl, h.0, h.1)

log_error-zones : (s : Sim) (c : Code) → (log_error s c).zone_status ≡ s.zone_status
unfolding log_error log_code
log_error-zones s c = ground arith

nomap-Spares :
    {s s' : Sim} (i : ℕ)
    → s'.zone_status ≡ s.zone_status
    → Frame s s'
    → Spares s (some (nomap s' i))
unfolding nomap
nomap-Spares {s} {s'} i z f = (z, note_refusal-Frame i f)

mapped-Spares :
    {s s' : Sim} (t : Target) (b : Bio) (n : ℕ)
    → s'.zone_status ≡ s.zone_status
    → Frame s s'
    → Spares s (some (mapped s' t b n))
unfolding mapped
mapped-Spares t b n z f = (z, f)

module _ {s : Sim} {b : Bio} {i : ℕ} {z : ZoneStatus} {t : ZoneStats} (a : Aims s b i z t)
    (target : Target) where
  map_read-Spares : Spares s (map_read s target b i)
  unfolding map_read
  map_read-Spares =
      let policy = s.dev_config.out_of_policy_read_flag in
      let u = host_read_stats s b i z t policy in
      let r = host_read_error s b i z policy in
      let s' : Sim = record s { zone_stats = set s.zone_stats i u; dbg_rerr = r } in
      let f : Frame s s' = read_stats-Frame s i u r a.in_table in
      ground (
        arith,
        read_rule_check-host a policy,
        nomap-Spares {s = s} {s' = s'} i refl f,
        mapped-Spares {s = s} {s' = s'} target b 0 refl f,
        mapped-Spares {s = s} {s' = s'} target b s'.dev_config.r_time_to_rmw_zone refl f,
      )

  map_at-Spares : b.bio_dir ≡ read → Spares s (map_at s target b i)
  unfolding map_at by_direction
  map_at-Spares dir = ground (
    arith,
    map_read-Spares,
    a.zone,
    spares_error err_out_range,
    spares_error err_out_of_policy,
    spares_error err_zone_offline,
  )
    where
      spares_error : (c : Code) → Spares s (some (nomap (log_error s c) i))
      spares_error c = nomap-Spares i (log_error-zones s c) (log_error-Frame s c)

  -- For a request to a zone of the table (`Aims`): whatever the policy, the zone and
  -- its condition, a read gets a verdict and leaves every zone, the geometry and the configuration
  -- as they were.
  pub map_at_read :
      b.bio_dir ≡ read
      → (v : Verdict) × (s' : Sim) × (map_at s target b i ≡ some (v, s'))
        × (s'.zone_status ≡ s.zone_status)
        × Frame s s'
  map_at_read dir = Spares-verdict s (map_at s target b i) (map_at-Spares dir)

-- ===== src/Map/Total.antt =====
-- smrsim_map for every request, policy and research option: it gives a verdict and keeps the state
-- valid.
use native.Mathlib.Decide.{dec_lt}
use smr_simulator.Base.{ℕ, ◌+◌, ◌*◌, ◌≡◌, ◌≤◌, ◌<◌, ◌⊎◌, inl, inr, arith, Option, some, set, refl}
use smr_simulator.Types.{
  ZoneStatus, ZoneStats, Bio, err_out_range, err_out_of_policy, err_zone_offline, err_write_ro,
  err_write_full,
}
use smr_simulator.Pstore.Queue.{note_refusal}
use smr_simulator.State.{Sim, zone_idx_of}
use smr_simulator.State.Geometry.{size_of, zone_idx_of-lt, zone_idx_of_bounds, zones_fit}
use smr_simulator.Rules.Aims.{Aims, Aims-Sizes, next-in_table}
use smr_simulator.Rules.Frame.{
  Frame, CanAccess, log_error-Frame, note_refusal-Frame, note_write-Frame, read_stats-Frame,
}
use smr_simulator.Rules.WriteTotal.{EndsInTable, Reaches, write_rule_check_total}
use smr_simulator.Rules.HostRead.{read_rule_check-host, host_read_stats, host_read_error}
use smr_simulator.Rules.Write.{end_lba}
use smr_simulator.Map.{
  Target, Verdict, refused, mapped, nomap, map_write, map_read, by_direction, map_at,
}

-- The request ends in its zone, or before the end of the last one.
abbrev pub EndsBefore : Sim → Bio → ℕ → Type 0
EndsBefore s b i =
    (b.bi_sector + b.bio_sectors ≤ i * size_of s + size_of s)
    ⊎ (b.bi_sector + b.bio_sectors < s.smr_numzones * size_of s)

Aims-CanAccess :
    {s : Sim} {b : Bio} {i : ℕ} {z : ZoneStatus} {t : ZoneStats}
    → Aims s b i z t
    → (k : ℕ) → k < s.smr_numzones
    → CanAccess s k
Aims-CanAccess a k h = record {
  is_allocated = a.valid.is_allocated;
  in_table = h;
  in_status = omega (arith, a.valid);
  in_stats = omega (arith, a.valid);
}

pub le_of_mul : (i k p : ℕ) → i * p < k * p + p → i ≤ k
le_of_mul i k p h = elim (dec_lt k i) [
  | no n ↦ omega arith
  | yes l ↦ absurd (omega (arith, suc_mul (k + 1) i p (omega arith)))
]
  where
    suc_mul : (a b p : ℕ) → a ≤ b → a * p ≤ b * p
    suc_mul a b p h = grind arith

module _ {s : Sim} {b : Bio} {i : ℕ} {z : ZoneStatus} {t : ZoneStats} (a : Aims s b i z t) where
  Aims-EndsInTable :
      i * size_of s + size_of s < b.bi_sector + b.bio_sectors
      → b.bi_sector + b.bio_sectors < s.smr_numzones * size_of s
      → EndsInTable s b i
  unfolding end_lba
  Aims-EndsInTable h e = record {
    next_zone = rw (Aims-Sizes a).next_eq (Aims-CanAccess a (i + 1) (next-in_table a h));
    last_zone = Aims-CanAccess a _ last;
    ahead = le_of_mul i _ (size_of s) (omega (arith, bounds));
  }
    where
      end_eq : end_lba b ≡ b.bi_sector + b.bio_sectors
      end_eq = omega (arith, Aims-Sizes a)

      last : zone_idx_of s (end_lba b) < s.smr_numzones
      last =
          rw end_eq (zone_idx_of-lt _ s.smr_numzones a.valid (omega (arith, zones_fit a.valid)) e)

      bounds :
          (zone_idx_of s (end_lba b) * size_of s ≤ b.bi_sector + b.bio_sectors)
          × (b.bi_sector + b.bio_sectors < zone_idx_of s (end_lba b) * size_of s + size_of s)
      bounds = rw end_eq (zone_idx_of_bounds _ _ a.valid (omega (arith, zones_fit a.valid)) refl)

  Aims-Reaches : EndsBefore s b i → Reaches s b i
  unfolding end_lba
  Aims-Reaches e h = elim e [
    | inl l ↦ absurd (omega (arith, Aims-Sizes a))
    | inr l ↦ Aims-EndsInTable (omega (arith, Aims-Sizes a)) l
  ]

-- What a verdict leaves.
Keeps : Sim → Option (Verdict × Sim) → Type 0
Keeps s r = (v : Verdict) × (s' : Sim) × (r ≡ some (v, s')) × Frame s s'

nomap-Keeps : {s s' : Sim} (i : ℕ) → Frame s s' → Keeps s (some (nomap s' i))
unfolding nomap Keeps
nomap-Keeps {s} {s'} i f =
    (refused, record s' { ptask = note_refusal s'.ptask i }, refl, note_refusal-Frame i f)

mapped-Keeps :
    {s s' : Sim} (t : Target) (b : Bio) (n : ℕ) → Frame s s' → Keeps s (some (mapped s' t b n))
unfolding mapped Keeps
mapped-Keeps {s} {s'} t b n f = (_, s', refl, f)

module _ {s : Sim} {b : Bio} {i : ℕ} {z : ZoneStatus} {t : ZoneStats} (a : Aims s b i z t)
    (e : EndsBefore s b i) (target : Target) where
  write-Keeps : Keeps s (map_write s target b i z)
  unfolding map_write
  write-Keeps =
      let (c, s', q, f) =
        write_rule_check_total s.dev_config.out_of_policy_write_flag (Aims-CanAccess a i a.in_table)
          (Aims-Reaches a e) in
      ground (
        arith,
        nomap-Keeps i f,
        nomap-Keeps i (log_error-Frame s err_write_ro),
        nomap-Keeps i (log_error-Frame s err_write_full),
        mapped-Keeps target b 0 f,
        mapped-Keeps target b 0 (note_write-Frame i f),
        mapped-Keeps target b s'.dev_config.w_time_to_rmw_zone (note_write-Frame i f),
      )

  read-Keeps : Keeps s (map_read s target b i)
  unfolding map_read
  read-Keeps =
      let policy = s.dev_config.out_of_policy_read_flag in
      let u = host_read_stats s b i z t policy in
      let s' = record s {
        zone_stats = set s.zone_stats i u;
        dbg_rerr = host_read_error s b i z policy;
      } in
      let f = read_stats-Frame s i u (host_read_error s b i z policy) a.in_table in
      ground (
        arith,
        read_rule_check-host a policy,
        nomap-Keeps i f,
        mapped-Keeps target b 0 f,
        mapped-Keeps target b s'.dev_config.r_time_to_rmw_zone f,
      )

  by_direction-Keeps : Keeps s (by_direction b.bio_dir s target b i z)
  unfolding by_direction
  by_direction-Keeps = ground (arith, write-Keeps, read-Keeps)

  map_at-Keeps : Keeps s (map_at s target b i)
  unfolding map_at
  map_at-Keeps = ground (
    arith,
    by_direction-Keeps,
    a.zone,
    nomap-Keeps i (log_error-Frame s err_out_range),
    nomap-Keeps i (log_error-Frame s err_out_of_policy),
    nomap-Keeps i (log_error-Frame s err_zone_offline),
  )

  -- A request that starts in zone `i`, with its pointer in the zone, and ends in that zone or
  -- before the end of the last one gets a verdict: no access faults, whatever its direction and the
  -- policy, the research options and the zones. The frame of the state stays.
  pub map_at-Frame : (v : Verdict) × (s' : Sim) × (map_at s target b i ≡ some (v, s')) × Frame s s'
  unfolding Keeps
  map_at-Frame = map_at-Keeps

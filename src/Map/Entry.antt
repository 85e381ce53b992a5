-- ===== src/Map/Entry.antt =====
-- smrsim_map from its entry: the idle time, the zone's index, and then the checks.
use smr_simulator.Base.{
  ℕ, ◌+◌, ◌*◌, ◌≡◌, ◌≤◌, ◌<◌, arith, some, ltb, ◌==◌, not, ◌&&◌, refl, ◌∙◌, ap, Bool-cases, inl,
  inr, ◌⊎◌,
}
use smr_simulator.Types.{ZoneStatus, ZoneStats, IdleStats, Bio, err_out_range}
use smr_simulator.State.{Sim, zone_at, stats_at, zone_idx_of, live}
use smr_simulator.State.Geometry.{IsValid, size_of, zone_idx_of_bounds, zones_fit}
use smr_simulator.Idle.{dev_idle_update, idle_seconds}
use smr_simulator.Rules.Log.{log_error}
use smr_simulator.Rules.Aims.{Aims}
use smr_simulator.Rules.Frame.{
  Frame, Frame-trans, Frame-IsValid, log_error-Frame, note_refusal-Frame,
}
use smr_simulator.Map.{Target, Verdict, refused, nomap, map_at, map}
use smr_simulator.Map.Total.{EndsBefore, map_at-Frame, le_of_mul}

abbrev pub idled : Sim → IdleStats → Sim
idled s u = record s { idle_stats = u }

pub dev_idle_update_lem :
    (s : Sim) (jiffies hz : ℕ)
    → s.memory ≡ live
    → (u : IdleStats) × (dev_idle_update s jiffies hz ≡ some (idled s u))
unfolding dev_idle_update
dev_idle_update_lem s jiffies hz m = elim (Bool-cases (ltb s.idle_stats.dev_idle_time_max dt)) [
  | inl e ↦ (record s.idle_stats { dev_idle_time_max = dt }, ground arith)
  | inr n ↦ elim (Bool-cases (not (dt == 0) && ltb dt s.idle_stats.dev_idle_time_min)) [
    | inl e ↦ (record s.idle_stats { dev_idle_time_min = dt }, ground arith)
    | inr n' ↦ (s.idle_stats, ground arith)
  ]
]
  where
    dt : ℕ
    dt = idle_seconds s.dev_idle_checkpoint jiffies hz

pub idled-IsValid : {s : Sim} (u : IdleStats) → IsValid s → IsValid (idled s u)
idled-IsValid u v = record {
  is_allocated = v.is_allocated;
  block_shift = v.block_shift;
  zone_shift = v.zone_shift;
  fits = v.fits;
  small = v.small;
  status_room = v.status_room;
  stats_room = v.stats_room;
  counted = v.counted;
  defaults = v.defaults;
  queue = v.queue;
  object = v.object;
  sized = v.sized;
}

index_unique : (x i k p : ℕ) → i * p ≤ x → x < i * p + p → k * p ≤ x → x < k * p + p → k ≡ i
index_unique x i k p h₁ h₂ h₃ h₄ =
    omega (arith, le_of_mul i k p (omega arith), le_of_mul k i p (omega arith))

module _ {s : Sim} {b : Bio} {i : ℕ} {z : ZoneStatus} {t : ZoneStats} (a : Aims s b i z t) where
  idled-Aims : (u : IdleStats) → Aims (idled s u) b i z t
  unfolding zone_at stats_at
  idled-Aims u = record {
    valid = idled-IsValid u a.valid;
    in_table = a.in_table;
    starts = a.starts;
    starts_in = a.starts_in;
    ends = a.ends;
    pointer = a.pointer;
    zone = a.zone;
    stats = a.stats;
  }

  idled-index : (u : IdleStats) → zone_idx_of (idled s u) b.bi_sector ≡ i
  idled-index u =
      let (l, h) =
        zone_idx_of_bounds {s = idled s u} b.bi_sector _ (idled-IsValid u a.valid)
          (omega (arith, zones_fit a.valid, a.ends)) refl in
      index_unique b.bi_sector i _ (size_of s) a.starts a.starts_in l h

  pub map-at :
      (target : Target) (jiffies hz : ℕ)
      → (u : IdleStats) × (map s target b jiffies hz ≡ map_at (idled s u) target b i)
        × Aims (idled s u) b i z t
  unfolding map
  map-at target jiffies hz =
      let (u, e) = dev_idle_update_lem s jiffies hz a.valid.is_allocated in
      (u, rw (e, ap (λ k. map_at (idled s u) target b k) (idled-index u)) refl, idled-Aims u)

  idled-Frame : (u : IdleStats) → Frame s (idled s u)
  idled-Frame u = ground arith

  in_table-Frame :
      EndsBefore s b i
      → (target : Target) (jiffies hz : ℕ)
      → (v : Verdict) × (s' : Sim) × (map s target b jiffies hz ≡ some (v, s')) × Frame s s'
  in_table-Frame e target jiffies hz =
      let (u, q, a') = map-at target jiffies hz in
      let (v, s', q', f) = map_at-Frame a' e target in
      (v, s', q ∙ q', Frame-trans (idled-Frame u) f)

  Aims-index : zone_idx_of s b.bi_sector < s.smr_numzones
  Aims-index = rw (idled-index s.idle_stats) a.in_table

-- A request that starts in a zone of the table ends in it or before the end of the last one; or it
-- starts behind the zones of the table. A write that leaves its zone and ends at or past the end of
-- the last one is neither: the code then looks at an entry behind the table.
abbrev pub Enters : Sim → Bio → Type 0
Enters s b =
    ((i : ℕ) × (z : ZoneStatus) × (t : ZoneStats) × Aims s b i z t × EndsBefore s b i)
    ⊎ (s.smr_numzones ≤ zone_idx_of s b.bi_sector)

-- Behind the table a request is refused by the check of its zone's index.
past_table-Frame :
    {s : Sim} (b : Bio) (target : Target) (jiffies hz : ℕ)
    → IsValid s
    → s.smr_numzones ≤ zone_idx_of s b.bi_sector
    → (s' : Sim) × (map s target b jiffies hz ≡ some (refused, s')) × Frame s s'
unfolding map map_at nomap zone_idx_of
past_table-Frame {s} b target jiffies hz v past =
    let (u, e) = dev_idle_update_lem s jiffies hz v.is_allocated in
    let s₁ = log_error (idled s u) err_out_range in
    (
      (nomap s₁ (zone_idx_of s b.bi_sector)).1,
      rw e (ground (arith, past)),
      note_refusal-Frame _ (Frame-trans (ground arith) (log_error-Frame (idled s u) err_out_range)),
    )

pub map-Frame :
    {s : Sim} {b : Bio}
    → IsValid s
    → Enters s b
    → (target : Target) (jiffies hz : ℕ)
    → (v : Verdict) × (s' : Sim) × (map s target b jiffies hz ≡ some (v, s'))
      × ((zone_idx_of s b.bi_sector < s.smr_numzones) ⊎ (v ≡ refused))
      × Frame s s'
map-Frame v (inl (i, z, t, a, e)) target jiffies hz =
    let (w, s', q, f) = in_table-Frame a e target jiffies hz in (w, s', q, inl (Aims-index a), f)
map-Frame {s} {b} v (inr past) target jiffies hz =
    let (s', q, f) = past_table-Frame b target jiffies hz v past in (refused, s', q, inr refl, f)

-- smrsim_map as a whole, in a valid state, under every policy and research option. A request that
-- starts in a zone of the table, whose pointer is not past its end, and that ends in that zone or
-- before the end of the last one, gets a verdict; one that starts behind the table (`Enters`) is
-- refused. The state stays valid.
pub map_total :
    {s : Sim} {b : Bio}
    → IsValid s
    → Enters s b
    → (target : Target) (jiffies hz : ℕ)
    → (v : Verdict) × (s' : Sim) × (map s target b jiffies hz ≡ some (v, s'))
      × ((zone_idx_of s b.bi_sector < s.smr_numzones) ⊎ (v ≡ refused))
      × IsValid s'
map_total v en target jiffies hz =
    let (w, s', q, r, f) = map-Frame v en target jiffies hz in (w, s', q, r, Frame-IsValid f v)

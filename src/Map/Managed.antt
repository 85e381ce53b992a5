-- ===== src/Map/Managed.antt =====
-- Runs of a host-managed device: requests and resets one after the other, under the default policy
-- with the research options off.
use smr_simulator.Base.{
  true, ◌⊎◌, ◌≤◌, ℕ, ◌*◌, ◌≡◌, ◌<◌, arith, Option, some, set, refl, sym, ◌∙◌, ap, length-set,
  get_elem?, get_elem?-lt, Bool-cases, inl, inr,
}
use smr_simulator.Types.Kind
use smr_simulator.Types.{ZoneStatus, ZoneStats, Code, Bio, read, write}
use smr_simulator.State.{Sim, zone_at}
use smr_simulator.State.Geometry.{IsValid, size_of}
use smr_simulator.State.Access.{zone_at-live}
use smr_simulator.Rules.Aims.{Aims-Sizes, Aims}
use smr_simulator.Rules.Frame.{Frame, Frame-IsValid, note_write-Frame}
use smr_simulator.Config.Stats.{blkdev_reset_zone_ptr, rewind}
use smr_simulator.Config.Stats.Rewind.{rewound, blkdev_reset_zone_ptr_start}
use smr_simulator.Pstore.Queue.{note_write}
use smr_simulator.Map.{Target, Verdict, map_at}
use smr_simulator.Map.Host.{accepts, written, map_at-accepts, map_at-breaks}
use smr_simulator.Map.Sound.{Sound, AllSound, AllSound-set, written-Sound, rewound-Sound}
use smr_simulator.Map.Reading.{map_at_read}

-- One operation of the host: a write to a sequential zone, a read, the reset of a sequential zone.
pub data Step (target : Target) : Sim → Sim → Type 0 where
  writes :
      {s s' : Sim} {b : Bio} {i : ℕ} {z : ZoneStatus} {t : ZoneStats} {v : Verdict}
      → Aims s b i z t
      → b.bio_dir ≡ write
      → z.z_type ≡ Kind.sequential
      → map_at s target b i ≡ some (v, s')
      → Step target s s'
  reads :
      {s s' : Sim} {b : Bio} {i : ℕ} {z : ZoneStatus} {t : ZoneStats} {v : Verdict}
      → Aims s b i z t
      → b.bio_dir ≡ read
      → map_at s target b i ≡ some (v, s')
      → Step target s s'
  resets :
      {s s' : Sim} {i : ℕ} {z : ZoneStatus} {c : Code}
      → i < s.smr_numzones
      → zone_at s i ≡ some z
      → z.z_type ≡ Kind.sequential
      → blkdev_reset_zone_ptr s (i * size_of s) ≡ some (c, s')
      → Step target s s'

pub data Run (target : Target) (s : Sim) : Sim → Type 0 where
  start : Run target s s
  next : {t u : Sim} → Run target s t → Step target t u → Run target s u

pub record Managed (s : Sim) : Type 0 where
  pub valid : IsValid s
  pub write_policy : s.dev_config.out_of_policy_write_flag ≡ 0
  pub reset_off : s.wp_reset_flag ≡ 0
  pub adjust_off : s.wp_adjust_flag ≡ 0
  pub sound : AllSound (size_of s) s.zone_status

-- What an operation does to the zones: nothing, or a change of one.
pub data Effect (s s' : Sim) : Type 0 where
  nothing : s'.zone_status ≡ s.zone_status → Effect s s'
  changes :
      (i : ℕ) (z z' : ZoneStatus)
      → zone_at s i ≡ some z
      → s'.zone_status ≡ set s.zone_status i z'
      → (Sound (size_of s) z → Sound (size_of s) z')
      → z.z_type ≡ Kind.sequential
      → (z'.z_type ≡ z.z_type)
        × ((z.z_write_ptr_offset ≤ z'.z_write_ptr_offset) ⊎ (z'.z_write_ptr_offset ≡ 0))
      → Effect s s'

Effect-AllSound :
    {s s' : Sim}
    → IsValid s
    → AllSound (size_of s) s.zone_status
    → Effect s s'
    → AllSound (size_of s) s'.zone_status
Effect-AllSound v h (nothing e) = rw e h
Effect-AllSound {s} v h (changes i z z' ez e keep k _) =
    let entry : get_elem? s.zone_status i ≡ some z = sym (zone_at-live s i v.is_allocated) ∙ ez in
    rw e (
      AllSound-set (size_of s) s.zone_status i z' (get_elem?-lt s.zone_status i entry) h
        (keep (h i z entry k)))

written_moves :
    {s : Sim} {b : Bio} {i : ℕ} {z : ZoneStatus} {t : ZoneStats}
    → Aims s b i z t
    → accepts s b i z ≡ true
    → ((written s b z).z_type ≡ z.z_type)
      × ((z.z_write_ptr_offset ≤ (written s b z).z_write_ptr_offset)
          ⊎ ((written s b z).z_write_ptr_offset ≡ 0))
unfolding accepts
written_moves a h = (refl, inl (ground (arith, Aims-Sizes a)))

state_inj :
    {v w : Verdict} {s s' : Sim}
    → ◌≡◌ {A = Option (Verdict × Sim)} (some (v, s)) (some (w, s'))
    → s' ≡ s
state_inj e = cc

code_inj :
    {c d : Code} {s s' : Sim} → ◌≡◌ {A = Option (Code × Sim)} (some (c, s)) (some (d, s')) → s' ≡ s
code_inj e = cc

rewound-Frame : (s : Sim) (i : ℕ) (z : ZoneStatus) → Frame s (rewound s i z)
rewound-Frame s i z = ground (arith, length-set s.zone_status i (rewind z))

pub written-Frame :
    (s : Sim) (b : Bio) (i : ℕ) (z : ZoneStatus)
    → Frame s (record s {
      zone_status = set s.zone_status i (written s b z);
      ptask = note_write s.ptask i;
    })
written-Frame s b i z =
    note_write-Frame {s' = record s { zone_status = set s.zone_status i (written s b z) }} i
      (ground (arith, length-set s.zone_status i (written s b z)))

Writes-Effect :
    (target : Target) {s s' : Sim} {b : Bio} {i : ℕ} {z : ZoneStatus} {t : ZoneStats} {v : Verdict}
    → Managed s
    → Aims s b i z t
    → b.bio_dir ≡ write
    → z.z_type ≡ Kind.sequential
    → map_at s target b i ≡ some (v, s')
    → Effect s s' × Frame s s'
Writes-Effect target {s} {s'} {b} {i} {z} m a dir k e = elim (Bool-cases (accepts s b i z)) [
  | inl h ↦
      let q = state_inj (
        sym (map_at-accepts a dir k m.write_policy m.reset_off m.adjust_off single target h) ∙ e) in
      rw q (
        changes i z (written s b z) a.zone refl (written-Sound a h) k (written_moves a h),
        written-Frame s b i z,
      )
  | inr h ↦
      let (s₁, e₁, zs, p, f) =
        map_at-breaks a dir k m.write_policy m.reset_off m.adjust_off single target h in
      rw (state_inj (sym e₁ ∙ e)) (nothing zs, f)
]
  where
    single : z.z_flag ≡ 0
    single = (m.sound i z (sym (zone_at-live s i m.valid.is_allocated) ∙ a.zone) k).single

pub Step-Effect :
    {target : Target} {s s' : Sim} → Managed s → Step target s s' → Effect s s' × Frame s s'
Step-Effect {target} m (writes a dir k e) = Writes-Effect target m a dir k e
Step-Effect {target} m (reads a dir e) =
    let (v, s₁, e₁, zs, f) = map_at_read a target dir in rw (state_inj (sym e₁ ∙ e)) (nothing zs, f)
Step-Effect {s} m (resets {i} {z} l ez k e) =
    let done = (blkdev_reset_zone_ptr_start i m.valid l ez (ground arith)).0 in
    rw (code_inj (sym done ∙ e)) (
      changes i z (rewind z) ez refl (rewound-Sound z m.valid k) k (refl, inr refl),
      rewound-Frame s i z,
    )

Step-Managed : {target : Target} {s s' : Sim} → Managed s → Step target s s' → Managed s'
Step-Managed {target} {s} {s'} m st =
    let (e, f) = Step-Effect m st in
    record {
      valid = Frame-IsValid f m.valid;
      write_policy = ap (λ c. c.out_of_policy_write_flag) f.config ∙ m.write_policy;
      reset_off = f.reset_option ∙ m.reset_off;
      adjust_off = f.adjust_option ∙ m.adjust_off;
      sound = rw f.zone_shift (Effect-AllSound m.valid m.sound e);
    }

-- From a valid state under the default write policy, with the research options off and every
-- sequential zone sound, whatever writes to sequential zones, reads and resets of sequential zones
-- a host issues, one after the other, the state stays such a state: the pointer of every sequential
-- zone is in it, and the zone is full exactly if its pointer is at its end.
pub Run-Managed : {target : Target} {s s' : Sim} → Managed s → Run target s s' → Managed s'
Run-Managed m start = m
Run-Managed m (next r st) = Step-Managed (Run-Managed m r) st

-- ===== src/System/Served.antt =====
-- smrsim_map against the drive: what a request does to what the user sees.
use smr_simulator.Base.{
  ℕ, ◌≡◌, ◌∙◌, sym, arith, refl, true, some, Option, none, set, Bool-cases, inl, inr,
}
use smr_simulator.Types.Kind
use smr_simulator.Types.{ZoneStatus, ZoneStats, IdleStats, Bio, Dir, read, write}
use smr_simulator.State.{Sim, zone_at}
use smr_simulator.State.Geometry.{IsValid}
use smr_simulator.State.Access.{zone_at-live}
use smr_simulator.Rules.Aims.{Aims, Aims-Sizes}
use smr_simulator.Rules.Frame.{Frame, Frame-IsValid, Frame-trans}
use smr_simulator.Map.{Target, Verdict, map_at}
use smr_simulator.Map.Host.{accepts, written, map_at-accepts, map_at-breaks}
use smr_simulator.Map.Managed.{written-Frame}
use smr_simulator.Map.Reading.{map_at_read}
use smr_simulator.Map.Total.{map_at-Frame, EndsBefore}
use smr_simulator.Map.Entry.{idled, idled-IsValid}
use smr_simulator.Pstore.Queue.{note_write}
use smr_simulator.Drive.Lists.{rest_eq, length-take, get_elem?-take, take-set}
use smr_simulator.Drive.View.{view, IsTidy}
use smr_simulator.System.{request, verdict}
use smr_simulator.System.User.{
  is_managed, allows, advanced, Keeps, StartsIn, Serves, reads, writes, breaks, trusts,
}

Frame-Keeps : {s s' : Sim} → IsValid s → Frame s s' → Keeps (view s) (view s')
unfolding view
Frame-Keeps {s} {s'} v f =
    let v' = Frame-IsValid f v in
    record {
      capacity = f.capacity;
      default_zones = f.numzones_default;
      zone_size = rw f.zone_shift refl;
      device = f.config;
      reset_option = f.reset_option;
      adjust_option = f.adjust_option;
      log_enabled = f.log_option;
      number = omega (
        arith,
        length-take s.smr_numzones s.zone_status v.status_room,
        length-take s'.smr_numzones s'.zone_status v'.status_room,
        f.numzones,
      );
      counters = omega (
        arith,
        length-take s.smr_numzones s.zone_stats (omega (arith, v.status_room, v.stats_room)),
        length-take s'.smr_numzones s'.zone_stats (omega (arith, v'.status_room, v'.stats_room)),
        f.numzones,
      );
    }

pub Frame-IsTidy : {s s' : Sim} → IsTidy s → Frame s s' → IsTidy s'
Frame-IsTidy {s} {s'} t f = record {
  valid = Frame-IsValid f t.valid;
  rest = λ i l h.
      rest_eq s.smr_numzones s'.zone_stats s.zone_stats i f.stats_rest
        (omega (arith, l, f.numzones))
      ∙ t.rest i (omega (arith, l, f.numzones)) (omega (arith, h, f.stats_length));
}

pub idled-IsTidy : {s : Sim} (u : IdleStats) → IsTidy s → IsTidy (idled s u)
idled-IsTidy u t = record { valid = idled-IsValid u t.valid; rest = t.rest }

module _ {s : Sim} {b : Bio} {i : ℕ} {z : ZoneStatus} {t : ZoneStats} (a : Aims s b i z t) where
  Aims-StartsIn : StartsIn (view s) b i z
  unfolding view zone_at
  Aims-StartsIn = record {
    zone =
        get_elem?-take s.smr_numzones s.zone_status i a.in_table
        ∙ sym (zone_at-live s i a.valid.is_allocated)
        ∙ a.zone;
    starts = a.starts;
    starts_in = a.starts_in;
  }

  -- The rules on the drive are those that smrsim_map checks.
  allows_eq : allows (view s) b i z ≡ accepts s b i z
  unfolding view accepts
  allows_eq = refl

  advanced_eq : accepts s b i z ≡ true → written s b z ≡ advanced (view s) b z
  unfolding view accepts
  advanced_eq h = ground (arith, Aims-Sizes a)

  managed_cases :
      is_managed (view s) z ≡ true
      → (z.z_type ≡ Kind.sequential)
        × (s.dev_config.out_of_policy_write_flag ≡ 0)
        × (s.wp_reset_flag ≡ 0)
        × (s.wp_adjust_flag ≡ 0)
        × (z.z_flag ≡ 0)
  unfolding view
  managed_cases h = ground arith

-- A verdict that serves the request, and a tidy state.
abbrev pub Answers : Target → Sim → Bio → ℕ → Option (Verdict × Sim) → Type 0
Answers target s b jiffies none = ⊥
Answers target s b jiffies (some (v, s')) =
    Serves target (view s) (request b jiffies) (verdict v) (view s') × IsTidy s'

module _ {s : Sim} {b : Bio} {i : ℕ} {z : ZoneStatus} {t : ZoneStats} (u : IdleStats)
    (a : Aims (idled s u) b i z t) (tidy : IsTidy s) (target : Target) (jiffies : ℕ) where
  same_zones :
      {s' : Sim}
      → s'.zone_status ≡ s.zone_status
      → Frame (idled s u) s'
      → (view s').zones ≡ (view s).zones
  unfolding view
  same_zones e f = rw (f.numzones, e) refl

  idled-Keeps : {s' : Sim} → Frame (idled s u) s' → Keeps (view s) (view s')
  idled-Keeps f = Frame-Keeps tidy.valid (Frame-trans (ground arith) f)

  idled-StartsIn : StartsIn (view s) b i z
  unfolding view
  idled-StartsIn =
      let r = Aims-StartsIn a in
      record { zone = r.zone; starts = r.starts; starts_in = r.starts_in }

  idled_managed : is_managed (view s) z ≡ is_managed (view (idled s u)) z
  unfolding view
  idled_managed = refl

  idled_rules : allows (view s) b i z ≡ accepts (idled s u) b i z
  unfolding view accepts
  idled_rules = refl

  -- The drive after a write that is accepted.
  after_write :
      accepts (idled s u) b i z ≡ true
      → view (record (idled s u) {
        zone_status = set s.zone_status i (written (idled s u) b z);
        ptask = note_write s.ptask i;
      })
        ≡ record (view s) { idle = u; zones = set (view s).zones i (advanced (view s) b z) }
  unfolding view
  after_write y =
      rw (take-set s.smr_numzones s.zone_status i (written (idled s u) b z), advanced_eq a y) refl

  read-Answers : b.bio_dir ≡ read → Answers target s b jiffies (map_at (idled s u) target b i)
  read-Answers dir =
      let (v, s', e, same, f) = map_at_read a target dir in
      rw e (
        reads jiffies dir (same_zones same f) (idled-Keeps f),
        Frame-IsTidy (idled-IsTidy u tidy) f,
      )

  managed-Answers :
      b.bio_dir ≡ write
      → is_managed (view s) z ≡ true
      → Answers target s b jiffies (map_at (idled s u) target b i)
  managed-Answers dir m =
      let (kind, policy, r, d, f) = managed_cases a (sym idled_managed ∙ m) in
      elim (Bool-cases (accepts (idled s u) b i z)) [
        | inr n ↦
            let (s', e, same, _, g) = map_at-breaks a dir kind policy r d f target n in
            rw e (
              breaks jiffies dir idled-StartsIn m (idled_rules ∙ n) (same_zones same g)
                  (idled-Keeps g),
              Frame-IsTidy (idled-IsTidy u tidy) g,
            )
        | inl y ↦
            rw (map_at-accepts a dir kind policy r d f target y, after_write y)
              (
                writes jiffies u dir idled-StartsIn m (idled_rules ∙ y),
                Frame-IsTidy (idled-IsTidy u tidy) (written-Frame (idled s u) b i z),
              )
      ]

  write-Answers :
      b.bio_dir ≡ write
      → EndsBefore (idled s u) b i
      → Answers target s b jiffies (map_at (idled s u) target b i)
  write-Answers dir en = elim (Bool-cases (is_managed (view s) z)) [
    | inr n ↦
        let (v, s', e, f) = map_at-Frame a en target in
        rw e (
          trusts jiffies dir idled-StartsIn n (idled-Keeps f),
          Frame-IsTidy (idled-IsTidy u tidy) f,
        )
    | inl m ↦ managed-Answers dir m
  ]

  pub direction-Answers :
      (d : Dir)
      → b.bio_dir ≡ d
      → EndsBefore s b i
      → Answers target s b jiffies (map_at (idled s u) target b i)
  direction-Answers read dir en = read-Answers dir
  direction-Answers write dir en = write-Answers dir en

-- ===== src/Ioctl/Holds.antt =====
-- The commands of smrsim_ioctl that read, and the ends of a command: they keep a valid state valid.
use smr_simulator.Base.{
  ◌≢◌, ℕ, ◌≡◌, ◌≤◌, arith, Option, some, none, Bool, true, false, inl, inr, Bool-cases, ◌==◌,
  if◌then◌else◌, ltb, refl, not, ◌||◌,
}
use smr_simulator.Types.{Code, Code-discrete, success}
use smr_simulator.State.{Sim}
use smr_simulator.State.Geometry.{IsValid}
use smr_simulator.State.Access.{set_task-IsValid}
use smr_simulator.Pstore.Queue.{note_config}
use smr_simulator.Pstore.Gap.{note_config-IsSpread}
use smr_simulator.Faults.{◌>>=◌}
use smr_simulator.Rules.Log.{get_last_rd_error, get_last_wd_error, set_log_enable}
use smr_simulator.Config.Keeps.{KeepsValid}
use smr_simulator.Config.Device.{get_device_config}
use smr_simulator.Query.{query_zones}
use smr_simulator.Query.Spec.{query_zones-returns}
use smr_simulator.Config.Stats.{get_stats}
use smr_simulator.Config.Research.{forward_wp_adjust, backward_wp_reset}
use smr_simulator.Ioctl.{
  get_last_rerror, get_last_werror, get_numzones, get_sizzonedefault, get_devconfig, zones, In,
  null, unreadable, given, Out, nowhere, unwritable, writable, ZbcQuery, Reply, Outcome, ioerr,
  done, nothing, copy_out, noted, unnoted, with_arg, ioctl_get, ioctl_stats, ioctl_query,
}

-- The command returned, and the state is valid.
abbrev pub Holds : Option Outcome → Type 0
Holds none = ⊥
Holds (some o) = IsValid o.state

pub noted-Holds : (r : Option (Code × Sim)) → KeepsValid r → Holds (r >>= noted)
noted-Holds none h = h
noted-Holds (some (c, s)) h =
    elim (Code-discrete c success)
      as (λ d. Holds (elim d [
        | yes _ ↦ done nothing (record s { ptask = note_config s.ptask })
        | no _ ↦ ioerr s
      ])) [ yes _ ↦ set_task-IsValid _ h (note_config-IsSpread s.ptask h.queue) | no _ ↦ h ]

pub unnoted-Holds : (r : Option (Code × Sim)) → KeepsValid r → Holds (r >>= unnoted)
unnoted-Holds none h = h
unnoted-Holds (some (c, s)) h = ground (arith, h)

pub copy_out-Holds : (out : Out) (r : Reply) (s : Sim) → IsValid s → Holds (copy_out out r s)
copy_out-Holds nowhere r s v = v
copy_out-Holds unwritable r s v = v
copy_out-Holds writable r s v = v

pub with_arg-Holds :
    {A : Type 0} (s : Sim) (arg : In A) (f : A → Option Outcome)
    → IsValid s
    → ((a : A) → arg ≡ given a → Holds (f a))
    → Holds (with_arg s arg f)
with_arg-Holds s null f v h = v
with_arg-Holds s unreadable f v h = v
with_arg-Holds s (given a) f v h = h a refl

module _ {s : Sim} (v : IsValid s) where
  pub stats-Holds :
      (kzalloc : Bool) (out : Out) → out ≢ unwritable → Holds (ioctl_stats s kzalloc out)
  unfolding ioctl_stats get_stats
  stats-Holds false out h = v
  stats-Holds true nowhere h = ground (arith, v)
  stats-Holds true unwritable h = absurd (h refl)
  stats-Holds true writable h = ground (arith, v)

  pub query-Holds :
      (kzalloc krealloc : Bool) (arg : In ZbcQuery) (out : Out)
      → ((q : ZbcQuery) → arg ≡ given q → q.lba ≤ s.smr_capacity)
      → Holds (ioctl_query s kzalloc krealloc arg out)
  unfolding ioctl_query
  query-Holds false krealloc arg out h = v
  query-Holds true krealloc arg out h = with_arg-Holds s arg _ v λ q e. asked q (h q e)
    where
      asked :
          (q : ZbcQuery)
          → q.lba ≤ s.smr_capacity
          → Holds (
              if q.num_zones == 0 || ltb s.smr_numzones q.num_zones
              then ioerr s
              else if not krealloc
              then ioerr s
              else (do
                a ← query_zones s true q.lba q.criteria q.num_zones
                elim (Code-discrete a.code success) [
                  | yes _ ↦ copy_out out (zones a) s
                  | no _ ↦ ioerr s
                ]))
      asked q inside = elim (Bool-cases (q.num_zones == 0 || ltb s.smr_numzones q.num_zones)) [
        | inl e ↦ ground (arith, v)
        | inr e ↦
            let (a, r) =
              query_zones-returns s q.lba q.num_zones q.criteria v (ground arith) inside in
            ground (arith, v, r, copy_out-Holds out (zones a) s v)
      ]

module _ {s : Sim} (v : IsValid s) where
  pub get-Holds :
      (out : Out)
      → Holds (ioctl_get s (get_last_rerror out))
        × Holds (ioctl_get s (get_last_werror out))
        × Holds (ioctl_get s (get_numzones out))
        × Holds (ioctl_get s (get_sizzonedefault out))
        × Holds (ioctl_get s (get_devconfig out))
  unfolding ioctl_get get_device_config get_last_rd_error get_last_wd_error
  get-Holds nowhere = (ground (arith, v), ground (arith, v), v, v, ground (arith, v))
  get-Holds unwritable = (ground (arith, v), ground (arith, v), v, v, ground (arith, v))
  get-Holds writable = (ground (arith, v), ground (arith, v), v, v, ground (arith, v))

  pub log-Holds : (n : ℕ) → IsValid (set_log_enable s n)
  unfolding set_log_enable
  log-Holds n = ground (arith, v)

  pub adjust-Holds : (n : ℕ) → Holds (unnoted (forward_wp_adjust s n))
  unfolding forward_wp_adjust
  adjust-Holds n = ground (arith, v)

  pub reset-Holds : (n : ℕ) → Holds (unnoted (backward_wp_reset s n))
  unfolding backward_wp_reset
  reset-Holds n = ground (arith, v)

-- ===== src/Ioctl/Notes.antt =====
-- smrsim_ioctl and the background task: which commands set SMR_CONFIG_CHANGE.
use smr_simulator.Base.{ℕ, ◌≡◌, refl, arith, Option, some, none, Bool, true, false, u8}
use smr_simulator.Types.{Code, success}
use smr_simulator.State.{Sim, PstoreTask}
use smr_simulator.Faults.{◌>>=◌}
use smr_simulator.Pstore.Queue.{note_config}
use smr_simulator.Rules.Log.{get_last_rd_error, get_last_wd_error, set_log_enable}
use smr_simulator.Config.Device.{get_device_config}
use smr_simulator.Config.Stats.{get_stats}
use smr_simulator.Config.Research.{forward_wp_adjust, backward_wp_reset}
use smr_simulator.Config.Task.{
  Leaves, reset_device-Leaves, set_rconfig-Leaves, set_wconfig-Leaves, set_rdelay-Leaves,
  set_wdelay-Leaves, reset_zone_stats-Leaves, reset_stats-Leaves, reset_zone_ptr-Leaves,
  size-Leaves, default_zones-Leaves, default-Leaves, clear-Leaves, add-Leaves, modify-Leaves,
  border-Leaves,
}
use smr_simulator.Ioctl.{
  get_last_rerror, get_last_werror, get_numzones, get_sizzonedefault, get_stats_cmd, get_devconfig,
  set_logenable, set_logdisable, reset_stats_cmd, reset_defaultconfig, reset_zoneconfig,
  reset_devconfig, clear_zoneconfig, set_sizzonedefault, zbc_reset_zone, reset_zonestats,
  bdwp_reset, fdwp_adjst, border_cross, zbc_query, set_devrconfig, set_devwconfig,
  set_devrconfig_delay, set_devwconfig_delay, add_zoneconfig, modify_zoneconfig, other, In, null,
  unreadable, given, Out, nowhere, unwritable, writable, ZbcQuery, Cmd, Reply, Outcome, noted,
  unnoted, with_arg, copy_out, ioctl_get, ioctl_stats, ioctl_query, ioctl_log, ioctl_reset_stats,
  ioctl_device, ioctl_table, ioctl_research, ioctl_zones, ioctl_reset_config, dispatch,
}

-- The commands that change what is stored.
abbrev pub is_setter : Cmd → Bool
is_setter reset_stats_cmd = true
is_setter reset_defaultconfig = true
is_setter reset_zoneconfig = true
is_setter reset_devconfig = true
is_setter clear_zoneconfig = true
is_setter (set_sizzonedefault arg) = true
is_setter (zbc_reset_zone arg) = true
is_setter (reset_zonestats arg) = true
is_setter (set_devrconfig arg) = true
is_setter (set_devwconfig arg) = true
is_setter (set_devrconfig_delay arg) = true
is_setter (set_devwconfig_delay arg) = true
is_setter (add_zoneconfig arg) = true
is_setter (modify_zoneconfig arg) = true
is_setter _ = false

-- The task's state after a command that returned the code.
abbrev pub task_after : Bool → Code → PstoreTask → PstoreTask
task_after true success p = note_config p
task_after _ _ p = p

abbrev Notes : Bool → Sim → Option Outcome → Type 0
Notes setter s none = Unit
Notes setter s (some o) = o.state.ptask ≡ task_after setter o.code s.ptask

noted-Notes : (s : Sim) (r : Option (Code × Sim)) → Leaves s r → Notes true s (r >>= noted)
noted-Notes s none h = tt
noted-Notes s (some (c, s')) h = ground (arith, h)

unnoted-Notes : (s : Sim) (r : Option (Code × Sim)) → Leaves s r → Notes false s (r >>= unnoted)
unnoted-Notes s none h = tt
unnoted-Notes s (some (c, s')) h = ground (arith, h)

with_arg-Notes :
    {A : Type 0} (b : Bool) (s : Sim) (arg : In A) (f : A → Option Outcome)
    → ((a : A) → Notes b s (f a))
    → Notes b s (with_arg s arg f)
with_arg-Notes true s null f h = refl
with_arg-Notes false s null f h = refl
with_arg-Notes true s unreadable f h = refl
with_arg-Notes false s unreadable f h = refl
with_arg-Notes b s (given a) f h = h a

copy_out-Notes :
    (s s' : Sim) (out : Out) (r : Reply) → s'.ptask ≡ s.ptask → Notes false s (copy_out out r s')
copy_out-Notes s s' nowhere r h = h
copy_out-Notes s s' unwritable r h = h
copy_out-Notes s s' writable r h = h

module _ (s : Sim) where
  stats-Notes : (kzalloc : Bool) (out : Out) → Notes false s (ioctl_stats s kzalloc out)
  unfolding ioctl_stats get_stats
  stats-Notes false out = refl
  stats-Notes true nowhere = ground arith
  stats-Notes true unwritable = tt
  stats-Notes true writable = ground arith

  query-Notes :
      (kzalloc krealloc : Bool) (arg : In ZbcQuery) (out : Out)
      → Notes false s (ioctl_query s kzalloc krealloc arg out)
  unfolding ioctl_query
  query-Notes false krealloc arg out = refl
  query-Notes true krealloc null out = refl
  query-Notes true krealloc unreadable out = refl
  query-Notes true krealloc (given q) nowhere = ground arith
  query-Notes true krealloc (given q) unwritable = ground arith
  query-Notes true krealloc (given q) writable = ground arith

  get-Notes :
      (out : Out)
      → Notes false s (ioctl_get s (get_last_rerror out))
        × Notes false s (ioctl_get s (get_last_werror out))
        × Notes false s (ioctl_get s (get_numzones out))
        × Notes false s (ioctl_get s (get_sizzonedefault out))
        × Notes false s (ioctl_get s (get_devconfig out))
  unfolding ioctl_get get_device_config get_last_rd_error get_last_wd_error
  get-Notes nowhere = ground arith
  get-Notes unwritable = ground arith
  get-Notes writable = ground arith

  reset-Notes : (n : ℕ) → Notes false s (unnoted (backward_wp_reset s n))
  unfolding backward_wp_reset
  reset-Notes n = ground arith

  adjust-Notes : (n : ℕ) → Notes false s (unnoted (forward_wp_adjust s n))
  unfolding forward_wp_adjust
  adjust-Notes n = ground arith

  default-Notes :
      (is_power_of_2 : ℕ → Bool) (allocated : Bool)
      → Notes true s (ioctl_reset_config is_power_of_2 allocated s reset_defaultconfig)
  unfolding ioctl_reset_config forward_wp_adjust backward_wp_reset
  default-Notes is_power_of_2 allocated = ground (arith, default-Leaves s allocated)

  -- smrsim_ioctl and the background task, for every command, state, allocation and copy: a setter
  -- that returns success sets SMR_CONFIG_CHANGE and leaves the rest of the task's state as it was;
  -- every other command, and a setter that returns an error, leaves all of it as it was.
  pub dispatch-task_after :
      (is_power_of_2 : ℕ → Bool) (allocated kzalloc krealloc : Bool) (cmd : Cmd) {o : Outcome}
      → dispatch is_power_of_2 allocated kzalloc krealloc s cmd ≡ some o
      → o.state.ptask ≡ task_after (is_setter cmd) o.code s.ptask
  unfolding dispatch ioctl_reset_config ioctl_zones ioctl_research ioctl_table ioctl_device
      ioctl_reset_stats ioctl_log ioctl_get
  dispatch-task_after is_power_of_2 allocated kzalloc krealloc cmd e = rw e at (notes cmd)
    where
      notes :
          (cmd : Cmd)
          → Notes (is_setter cmd) s (dispatch is_power_of_2 allocated kzalloc krealloc s cmd)
      notes (get_last_rerror out) = (get-Notes out).0
      notes (get_last_werror out) = (get-Notes out).1
      notes (get_numzones out) = (get-Notes out).2
      notes (get_sizzonedefault out) = (get-Notes out).3
      notes (get_devconfig out) = (get-Notes out).4
      notes (get_stats_cmd out) = stats-Notes kzalloc out
      notes set_logenable = unfold set_log_enable in refl
      notes set_logdisable = unfold set_log_enable in refl
      notes reset_stats_cmd = noted-Notes s _ (reset_stats-Leaves s)
      notes reset_defaultconfig = default-Notes is_power_of_2 allocated
      notes reset_zoneconfig = noted-Notes s _ (default_zones-Leaves s allocated)
      notes reset_devconfig = noted-Notes s _ (reset_device-Leaves s)
      notes clear_zoneconfig = noted-Notes s _ (clear-Leaves s)
      notes (set_sizzonedefault arg) =
          with_arg-Notes true s arg _ λ n. noted-Notes s _ (size-Leaves s is_power_of_2 n allocated)
      notes (zbc_reset_zone arg) =
          with_arg-Notes true s arg _ λ n. noted-Notes s _ (reset_zone_ptr-Leaves s n)
      notes (reset_zonestats arg) =
          with_arg-Notes true s arg _ λ n. noted-Notes s _ (reset_zone_stats-Leaves s n)
      notes (bdwp_reset arg) = with_arg-Notes false s arg _ λ n. reset-Notes (u8 n)
      notes (fdwp_adjst arg) = with_arg-Notes false s arg _ λ n. adjust-Notes (u8 n)
      notes (border_cross arg) =
          with_arg-Notes false s arg _ λ n. unnoted-Notes s _ (border-Leaves s n)
      notes (zbc_query arg out) = query-Notes kzalloc krealloc arg out
      notes (set_devrconfig arg) =
          with_arg-Notes true s arg _ λ c. noted-Notes s _ (set_rconfig-Leaves s c)
      notes (set_devwconfig arg) =
          with_arg-Notes true s arg _ λ c. noted-Notes s _ (set_wconfig-Leaves s c)
      notes (set_devrconfig_delay arg) =
          with_arg-Notes true s arg _ λ c. noted-Notes s _ (set_rdelay-Leaves s c)
      notes (set_devwconfig_delay arg) =
          with_arg-Notes true s arg _ λ c. noted-Notes s _ (set_wdelay-Leaves s c)
      notes (add_zoneconfig arg) = with_arg-Notes true s arg _ λ z. noted-Notes s _ (add-Leaves s z)
      notes (modify_zoneconfig arg) =
          with_arg-Notes true s arg _ λ z. noted-Notes s _ (modify-Leaves s z)
      notes other = refl

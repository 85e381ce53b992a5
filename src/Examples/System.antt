-- ===== src/Examples/System.antt =====
-- Runs of the device of four zones: a write, commands and rounds of the background task.
use smr_simulator.Base.{
  ◌≡◌, ◌≢◌, arith, refl, true, false, List, [], ◌∷◌, some, inl, inr, ◌⊎◌, ◌≤◌, ◌<◌,
}
use smr_simulator.Types.{write, success}
use smr_simulator.Types.{DevConfig}
use smr_simulator.State.{Sim, PstoreTask}
use smr_simulator.State.Geometry.{IsValid}
use smr_simulator.Init.{zero_stats}
use smr_simulator.Idle.{dev_idle_update, idle_seconds}
use smr_simulator.Pstore.Queue.{note_config, pstore_pg_gap}
use smr_simulator.Pstore.Task.{no_change, set_flags, any_change, task_round}
use smr_simulator.Pstore.Round.{unsaved_round_forgets}
use smr_simulator.Config.Device.{set_device_wconfig}
use smr_simulator.Ioctl.{
  given, Outcome, nothing, set_devwconfig, set_logenable, reset_devconfig, zbc_reset_zone, dispatch,
  ioctl, ioctl_reset_config, ioctl_zones, ioctl_research, ioctl_table, ioctl_device,
}
use smr_simulator.Ioctl.Calls.{given_inj}
use smr_simulator.Ioctl.Notes.{task_after, dispatch-task_after}
use smr_simulator.System.{Kernel, Event, request, command, round, Seen, outcome, pages, step, run}
use smr_simulator.System.Safe.{AllAdmitted, run_total}
use smr_simulator.System.Saves.{SavesAll, setter-saves}
use smr_simulator.Drive.Obey.{obey}
use smr_simulator.Drive.View.{view, shown, IsTidy}
use smr_simulator.Drive.Refines.{dispatch-obey}
use smr_simulator.System.User.{is_managed, allows, AllServed}
use smr_simulator.System.Refines.{AllAsked, run-AllServed}
use smr_simulator.Examples.Device.{
  device, device-IsValid, task, target, block_at, block-Aims, half_written,
}
use smr_simulator.Examples.Table.{is_power, is_power-pow}

abbrev kernel : Kernel
kernel = record {
  target = target;
  hz = 100;
  page_size = 4096;
  crc_of = λ s. 7;
  is_power_of_2 = is_power;
}

abbrev policy : DevConfig
policy = record {
  out_of_policy_read_flag = 0;
  out_of_policy_write_flag = 1;
  r_time_to_rmw_zone = 0;
  w_time_to_rmw_zone = 0;
}

-- A write, a command and a round of the task.
abbrev events : List Event
events =
    request (block_at write 40) 70
    ∷ command true true true (set_devwconfig (given policy)) 80
    ∷ round true
    ∷ []

events_admitted : AllAdmitted kernel device events
events_admitted = (
  inl (
    1,
    half_written,
    zero_stats,
    block-Aims write 40 (omega arith) (omega arith),
    inr (omega arith),
  ),
  λ seen s' q. ((refl, tt), λ seen₂ s₂ q₂. (tt, λ seen₃ s₃ q₃. tt)),
)

run_total_example :
    (seen : List Seen) × (s' : Sim) × (run kernel device events ≡ some (seen, s')) × IsValid s'
run_total_example = run_total kernel is_power-pow events device-IsValid events_admitted

-- The write policy is changed.
abbrev repoliced : Sim
repoliced = record device {
  dev_config = record device.dev_config { out_of_policy_write_flag = 1 };
  ptask = note_config task;
}

policy_set :
    dispatch is_power true true true device (set_devwconfig (given policy))
    ≡ some (record { code = success; reply = nothing; state = repoliced })
unfolding dispatch ioctl_reset_config ioctl_zones ioctl_research ioctl_table ioctl_device
    set_device_wconfig
policy_set = ground arith

task_after_example : repoliced.ptask ≡ task_after true success task
task_after_example =
    dispatch-task_after device is_power true true true (set_devwconfig (given policy)) policy_set

forgets_example :
    (p : PstoreTask) × (task_round 4096 (λ s. 7) repoliced false
      ≡ some (record repoliced { ptask = p }, []))
    × (((repoliced.ptask.flag.config_change ≡ true) × (p ≡ set_flags no_change repoliced.ptask))
        ⊎ ((repoliced.ptask.flag.config_change ≡ false)
            × (pstore_pg_gap ≤ repoliced.ptask.stu_zone_idx_gap)
            × (p.flag ≡ no_change)
            × (p.stu_zone_idx_cnt ≡ 0))
        ⊎ ((repoliced.ptask.flag.config_change ≡ false)
            × (repoliced.ptask.stu_zone_idx_gap < pstore_pg_gap)
            × (p ≡ repoliced.ptask)))
forgets_example = unsaved_round_forgets 4096 (λ s. 7) repoliced any
  where
    any : any_change repoliced.ptask.flag ≡ true
    any = unfold note_config in refl

abbrev after : List Event
after = command true true true set_logenable 90 ∷ command true true true reset_devconfig 95 ∷ []

policy-step :
    step kernel device (command true true true (set_devwconfig (given policy)) 80)
    ≡ some (outcome (record { code = success; reply = nothing; state = repoliced }), repoliced)
unfolding step ioctl dev_idle_update idle_seconds
policy-step = rw policy_set refl

saves_example :
    (seen : List Seen) × (s₂ : Sim) × (run kernel repoliced after ≡ some (seen, s₂))
    × (((s₂.smr_numzones ≢ 0) × SavesAll kernel s₂)
        ⊎ ((s₂.smr_numzones ≡ 0)
            × (step kernel s₂ (round true)
                ≡ some (pages [], record s₂ { ptask = set_flags no_change s₂.ptask }))))
saves_example =
    setter-saves kernel is_power-pow (omega arith) true true true (set_devwconfig (given policy)) 80
      device-IsValid (refl, tt) policy-step refl refl after
      ((refl, tt), λ seen s' q. ((refl, tt), λ seen₂ s₃ q₂. tt)) tt

device-IsTidy : IsTidy device
device-IsTidy = record { valid = device-IsValid; rest = λ i l h. absurd (omega arith) }

obey_example :
    (o : Outcome) × (dispatch is_power true true true device (zbc_reset_zone (given 32)) ≡ some o)
    × (shown o ≡ obey (view device) (zbc_reset_zone (given 32)))
    × IsTidy o.state
obey_example =
    dispatch-obey is_power is_power-pow device (zbc_reset_zone (given 32)) device-IsTidy tt
      (λ x e. rw (← given_inj e) (omega arith))

events_asked : AllAsked kernel device events
events_asked = (
  (1, half_written, zero_stats, block-Aims write 40 (omega arith) (omega arith), inr (omega arith)),
  λ seen s' q. ((refl, refl, refl, tt, tt), λ seen₂ s₂ q₂. (tt, λ seen₃ s₃ q₃. tt)),
)

AllServed_example :
    (seen : List Seen) × (s' : Sim) × (run kernel device events ≡ some (seen, s'))
    × AllServed target (view device) events seen (view s')
    × IsTidy s'
AllServed_example = run-AllServed kernel is_power-pow events device-IsTidy events_asked

-- The write is one that the rules allow.
allowed :
    (is_managed (view device) half_written ≡ true)
    × (allows (view device) (block_at write 40) 1 half_written ≡ true)
unfolding view
allowed = (refl, refl)

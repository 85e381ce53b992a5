-- ===== src/Ioctl/User.antt =====
-- dm-smrsim.c, smrsim_ioctl: the commands with what the kernel's copies from and to the user's
-- memory do with `arg`, and the ends of a command.
use smr_simulator.Base.{ℕ, Option, some}
use smr_simulator.Types.{ZoneStatus, DevConfig, Code, Code-discrete, success, efault}
use smr_simulator.State.{Sim}
use smr_simulator.Pstore.Queue.{note_config}
use smr_simulator.Config.Stats.{Stats}
use smr_simulator.Query.{Criteria, Answer}

-- An argument to read: a null pointer, memory that `copy_from_user` cannot read, or a value.
pub data In (A : Type 0) : Type 0 where
  null unreadable : In A
  given : A → In A

-- A pointer to write to: null, refused by `copy_to_user`, or good.
pub data Out : Type 0 where
  nowhere unwritable writable : Out

-- The fields that IOCTL_SMRSIM_ZBC_QUERY reads.
pub record ZbcQuery : Type 0 where
  pub lba : ℕ
  pub num_zones : ℕ
  pub criteria : Criteria

pub data Cmd : Type 0 where
  get_last_rerror get_last_werror get_numzones get_sizzonedefault get_stats_cmd get_devconfig :
      Out → Cmd
  set_logenable set_logdisable reset_stats_cmd : Cmd
  reset_defaultconfig reset_zoneconfig reset_devconfig clear_zoneconfig : Cmd
  set_sizzonedefault zbc_reset_zone reset_zonestats bdwp_reset fdwp_adjst border_cross : In ℕ → Cmd
  zbc_query : In ZbcQuery → Out → Cmd
  set_devrconfig set_devwconfig set_devrconfig_delay set_devwconfig_delay : In DevConfig → Cmd
  add_zoneconfig modify_zoneconfig : In ZoneStatus → Cmd
  other : Cmd

-- What is copied to the user.
pub data Reply : Type 0 where
  nothing : Reply
  word : ℕ → Reply
  config : DevConfig → Reply
  stats : Stats → Reply
  zones : Answer → Reply

pub record Outcome : Type 0 where
  pub code : Code
  pub reply : Reply
  pub state : Sim

-- The end of the switch, and the label `ioerr`.
abbrev pub done : Reply → Sim → Option Outcome
done r s = some (record { code = success; reply = r; state = s })

abbrev pub ioerr : Sim → Option Outcome
ioerr s = some (record { code = efault; reply = nothing; state = s })

-- `copy_to_user`
abbrev pub copy_out : Out → Reply → Sim → Option Outcome
copy_out writable r s = done r s
copy_out nowhere r s = ioerr s
copy_out unwritable r s = ioerr s

-- A setter that failed leaves by `ioerr`; one that did not is noted as a change of configuration.
abbrev pub noted : Code × Sim → Option Outcome
noted (code, s) = elim (Code-discrete code success) [
  | yes _ ↦ done nothing (record s { ptask = note_config s.ptask })
  | no _ ↦ ioerr s
]

-- The research commands change nothing that is stored.
abbrev pub unnoted : Code × Sim → Option Outcome
unnoted (code, s) = elim (Code-discrete code success) [ yes _ ↦ done nothing s | no _ ↦ ioerr s ]

-- `copy_from_user`, and the call of a setter with the value.
abbrev pub with_arg : {A : Type 0} → Sim → In A → (A → Option Outcome) → Option Outcome
with_arg s null f = ioerr s
with_arg s unreadable f = ioerr s
with_arg s (given a) f = f a

-- The next call of a chain that stops at the first code that is not 0.
abbrev pub and_then : Code × Sim → (Sim → Code × Sim) → Code × Sim
and_then (code, s) f = elim (Code-discrete code success) [ yes _ ↦ f s | no _ ↦ (code, s) ]

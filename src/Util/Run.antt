-- ===== src/Util/Run.antt =====
-- What the tool does to its surroundings: ioctl calls on the device, lines printed, numbers read by
-- scanf, memory taken. The driver is an argument: `call` is the ioctl system call on the open
-- device.
use smr_simulator.Base.{if◌then◌else◌, ℕ, u32, Bool, false, List, [], ◌∷◌, ◌++◌, Option, some, none}
use smr_simulator.Types.{ZoneStats, IdleStats, DevConfig, Code-discrete, success}
use smr_simulator.State.{Sim}
use smr_simulator.Query.{Criteria}
use smr_simulator.Ioctl.{Cmd, Reply, nothing, word, config, stats, zones, Outcome}

-- A line that is printed, by what it says: the help, a refusal, a success, a number, a heading, the
-- fields of a structure.
pub data Msg : Type 0 where
  help invalid_command failed out_of_range no_memory wrong_parameter null_pointer : Msg
  succeeded no_zone_matched destroys_zones asks_type asks_condition asks_more : Msg
  no_zone_yet all_conventional : Msg
  value : ℕ → Msg
  matching : Criteria → Msg
  query_line : ℕ → Criteria → ℕ → Msg
  zone_line : (index length offset type control : ℕ) → Option ℕ → Msg
  idle_line : IdleStats → Msg
  stats_line : ℕ → ZoneStats → Msg
  config_line : DevConfig → Msg

-- The device, the lines so far, the numbers that scanf will find (at the end of them it fails and
-- leaves its variable as it was) and the results that malloc will have (then NULL).
pub record Run : Type 0 where
  pub device : Sim
  pub printed : List Msg
  pub input : List ℕ
  pub mallocs : List Bool

-- `left` is a `break` or a `return`, `fault` a fault of the driver or of the tool itself.
pub data Result (A : Type 0) : Type 0 where
  fault : Result A
  left : Run → Result A
  next : A → Run → Result A

-- The end of a command, by a `break` or not.
abbrev pub ended : {A : Type 0} → Result A → Option Run
ended fault = none
ended (left r) = some r
ended (next a r) = some r

abbrev pub Tool : Type 0 → Type 0
Tool A = Run → Result A

abbrev pub Driver : Type 0
Driver = Sim → Cmd → Option Outcome

abbrev pub chain : {A B : Type 0} → Result A → (A → Tool B) → Result B
chain fault f = fault
chain (left r) f = left r
chain (next a r) f = f a r

infixl 5 ◌>>=◌ ◌>>◌
abbrev pub ◌>>=◌ : {A B : Type 0} → Tool A → (A → Tool B) → Tool B
◌>>=◌ m f r = chain (m r) f

abbrev pub ◌>>◌ : {A B : Type 0} → Tool A → Tool B → Tool B
m >> k = m >>= λ _. k

abbrev pub pure : {A : Type 0} → A → Tool A
pure a r = next a r

abbrev pub break : Tool (Unit {0})
break r = left r

abbrev pub print : Msg → Tool (Unit {0})
print m r = next tt (record r { printed = r.printed ++ (m ∷ []) })

-- The bits that scanf stores, and the variable's old value where it finds no number.
abbrev pub scanf : ℕ → Tool ℕ
scanf old r = elim r.input [ [] ↦ next old r | n ∷ ns ↦ next (u32 n) (record r { input = ns }) ]

abbrev pub malloc : Tool Bool
malloc r = elim r.mallocs [ [] ↦ next false r | b ∷ bs ↦ next b (record r { mallocs = bs }) ]

abbrev pub or_fault : {A : Type 0} → Option A → Tool A
or_fault none r = fault
or_fault (some a) r = next a r

-- `ioctl(fd, cmd, arg)`: what is copied out where it returns 0, nothing where it does not.
abbrev pub ioctl_call : Driver → Cmd → Tool (Option Reply)
ioctl_call call cmd r = elim (call r.device cmd) [
  | none ↦ fault
  | some o ↦ elim (Code-discrete o.code success) [
    | yes _ ↦ next (some o.reply) (record r { device = o.state })
    | no _ ↦ next none (record r { device = o.state })
  ]
]

-- `if (!ioctl(fd, cmd, arg)) printf(m) else printf(failed)`
abbrev pub ioctl_say : Driver → Cmd → Msg → Tool (Unit {0})
ioctl_say call cmd m = do o ← ioctl_call call cmd; elim o [ some _ ↦ print m | none ↦ print failed ]

-- The number in a variable that a call filled, and its old value where the call failed.
abbrev pub word_or : ℕ → Option Reply → ℕ
word_or old none = old
word_or old (some (word n)) = n
word_or old (some nothing) = old
word_or old (some (config c)) = old
word_or old (some (stats t)) = old
word_or old (some (zones a)) = old

-- `if (ioctl(fd, cmd, &n)) { printf(m); break; }`
abbrev pub number_or_break : Driver → Cmd → Tool ℕ
number_or_break call cmd = do
  o ← ioctl_call call cmd
  elim o [ some w ↦ pure (word_or 0 (some w)) | none ↦ (do print failed; break; pure 0) ]

-- `argv[4]`, or the help and a `break`.
abbrev pub argument : {A : Type 0} → Option A → A → Tool A
argument none a = do print help; break; pure a
argument (some t) a = pure t

-- `p = malloc(n); if (!p) { printf(...); break; }`
abbrev pub malloc_or_break : Tool (Unit {0})
malloc_or_break = do got ← malloc; if got then pure tt else (do print no_memory; break)

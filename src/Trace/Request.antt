-- ===== src/Trace/Request.antt =====
-- dm-smrsim.c, smrsim_map with its checks: what a request writes to the trace, up to the verdict or
-- to a fault.
use smr_simulator.Base.{
  ℕ, ◌+◌, ◌*◌, not, ◌&&◌, if◌then◌else◌, ltb, leb, ◌==◌, u32, u64, Option, some, none, List, [],
  ◌∷◌, ◌++◌,
}
use smr_simulator.Types.Cond
use smr_simulator.Types.Kind
use smr_simulator.Types.{ZoneStatus, Code, Code-discrete, success, Bio, Dir, read, write}
use smr_simulator.State.{Sim, zone_at, num_sectors_zone, zone_idx_lba, zone_idx_of}
use smr_simulator.Exit.{Exit, fault, ret, next, ◌>>=◌, access}
use smr_simulator.Idle.{dev_idle_update}
use smr_simulator.Rules.Write.{
  check_align, check_pointer, trace_conventional, check_border, write_rule_check, end_lba,
}
use smr_simulator.Rules.Read.{read_border, read_rule_check}
use smr_simulator.Trace.Entry.{
  Entry, block_io_evt, zone_write_evt, zone_read_evt, bio_read_check_evt, bio_write_check_evt,
  bio_oop_read_check_evt, bio_oop_write_check_evt,
}

-- What is traced where a check ends: nothing more after an early return.
abbrev pub reached : Exit (List Entry) → List Entry
reached fault = []
reached (ret c s) = []
reached (next es) = es

-- The tracepoint of smrsim_write_rule_check, behind its checks.
unfoldable pub write_trace : Sim → Bio → ℕ → ℕ → List Entry
write_trace s b i policy = reached (do
  (rv₁, s₁) ← check_align s b i policy
  (rv₂, s₂) ← check_pointer s₁ b i policy rv₁
  s₃ ← trace_conventional s₂ b i
  (rv₃, s₄) ← check_border s₃ b i policy rv₂
  z ← access (zone_at s₄ i)
  let wp = z.z_write_ptr_offset
  if policy == 1 && z.z_conds == Cond.full
      then next []
      else next (zone_write_evt i wp (u32 (wp + b.bio_sectors)) ∷ []))

-- The tracepoint of smrsim_read_rule_check, for zones that are not conventional.
unfoldable pub read_trace : Sim → Bio → ℕ → ℕ → List Entry
read_trace s b i policy = reached (do
  (rv₁, s₁) ← read_border s b i policy
  z ← access (zone_at s₁ i)
  if z.z_type == Kind.conventional
      then next []
      else next (zone_read_evt i z.z_write_ptr_offset ∷ []))

-- The tracepoints of the branch of a write, behind the check.
unfoldable pub written_trace : Sim → Option (Code × Sim) → List Entry
written_trace s none = []
written_trace s (some (code, s₁)) = elim (Code-discrete code success) [
  | yes _ ↦ []
  | no _ ↦
      if wflag == 1 && rflag == 1
      then []
      else if wflag == 1
      then bio_oop_write_check_evt "out of policy: bio write error pass" wflag
          s₁.dev_config.w_time_to_rmw_zone code
        ∷ []
      else bio_write_check_evt "write error out of policy" wflag code ∷ []
]
  where
    rflag : ℕ
    rflag = s.dev_config.out_of_policy_read_flag

    wflag : ℕ
    wflag = s.dev_config.out_of_policy_write_flag

-- The tracepoints of the branch of a read, behind the check.
unfoldable pub read_back_trace : Sim → Option (Code × Sim) → List Entry
read_back_trace s none = []
read_back_trace s (some (code, s₁)) = elim (Code-discrete code success) [
  | yes _ ↦ []
  | no _ ↦
      if wflag == 1 && rflag == 1
      then []
      else if rflag == 1
      then bio_oop_read_check_evt "out of policy: bio read error" rflag
          s₁.dev_config.r_time_to_rmw_zone code
        ∷ []
      else bio_read_check_evt "read error out of policy" rflag code ∷ []
]
  where
    rflag : ℕ
    rflag = s.dev_config.out_of_policy_read_flag

    wflag : ℕ
    wflag = s.dev_config.out_of_policy_write_flag

unfoldable pub direction_trace : Dir → Sim → Bio → ℕ → ZoneStatus → List Entry
unfolding write_trace written_trace read_trace read_back_trace
direction_trace write s b i z =
    let wflag = s.dev_config.out_of_policy_write_flag in
    if z.z_conds == Cond.read_only && wflag == 0
    then []
    else if z.z_conds == Cond.full && not (b.bi_sector == zone_idx_lba s i) && wflag == 0
    then []
    else write_trace s b i wflag ++ written_trace s (write_rule_check s b i wflag)
direction_trace read s b i z =
    let rflag = s.dev_config.out_of_policy_read_flag in
    read_trace s b i rflag ++ read_back_trace s (read_rule_check s b i rflag)

abbrev zone_trace : Option ZoneStatus → Sim → Bio → ℕ → List Entry
zone_trace none s b i = []
zone_trace (some z) s b i =
    if z.z_conds == Cond.offline then [] else direction_trace b.bio_dir s b i z

-- From the range check on.
unfoldable pub map_at_trace : Sim → Bio → ℕ → List Entry
unfolding direction_trace
map_at_trace s b i =
    if leb s.smr_numzones i
    then []
    else if ltb (u64 (zone_idx_lba s i + u32 (2 * num_sectors_zone s))) (end_lba b)
    then []
    else zone_trace (zone_at s i) s b i

abbrev idle_trace : Option Sim → Bio → List Entry
idle_trace none b = []
idle_trace (some s) b = map_at_trace s b (zone_idx_of s b.bi_sector)

-- A request is traced first of all, before the idle time.
unfoldable pub map_trace : Sim → Bio → ℕ → ℕ → List Entry
unfolding map_at_trace
map_trace s b jiffies hz =
    block_io_evt "dm-smrsim" b.bi_sector b.bio_sectors b.bio_dir
    ∷ idle_trace (dev_idle_update s jiffies hz) b

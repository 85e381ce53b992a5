-- ===== src/Rules/Write.antt =====
-- dm-smrsim.c, smrsim_write_rule_check: its blocks in their order, each a function of the state,
-- the request, the zone's index, the policy flag and the count `rv` of violations so far.
use smr_simulator.Base.{
  ℕ, zero, suc, ◌+◌, ◌-◌, ◌*◌, ◌%◌, not, ◌&&◌, ◌||◌, if◌then◌else◌, ltb, leb, ◌==◌, u32, u64, sub64,
  Option,
}
use smr_simulator.Types.Cond
use smr_simulator.Types.Kind
use smr_simulator.Types.Cross
use smr_simulator.Types.{
  ZoneStatus, ZoneStats, Code, success, err_write_align, err_write_pointer, err_write_border,
  err_out_of_policy, Bio,
}
use smr_simulator.State.{
  Sim, zone_at, modify_zone, modify_stats, num_sectors_zone, zone_idx_lba, zone_idx_of,
}
use smr_simulator.Exit.{Exit, ret, next, ◌>>=◌, access, call}
use smr_simulator.Rules.Log.{log_error}

-- `elba`
unfoldable pub end_lba : Bio → ℕ
end_lba b = u64 (b.bi_sector + b.bio_sectors)

-- Counters of the statistics, each a __u32.
abbrev pub count_unaligned : ZoneStats → ZoneStats
count_unaligned t = record t { unaligned_count = u32 (t.unaligned_count + 1) }

abbrev pub count_not_on_swp : ZoneStats → ZoneStats
count_not_on_swp t = record t { not_on_swp_count = u32 (t.not_on_swp_count + 1) }

abbrev pub count_write_span : ZoneStats → ZoneStats
count_write_span t = record t { write_span_zones_count = u32 (t.write_span_zones_count + 1) }

-- `z_write_ptr_offset = wp`, and with it `z_conds = c`
abbrev pub set_wp : ℕ → ZoneStatus → ZoneStatus
set_wp wp z = record z { z_write_ptr_offset = wp }

abbrev pub set_wp_conds : ℕ → ℕ → ZoneStatus → ZoneStatus
set_wp_conds wp c z = record z { z_write_ptr_offset = wp; z_conds = c }

-- A write to a sequential zone has to be a multiple of 4096 bytes.
unfoldable pub check_align : Sim → Bio → ℕ → ℕ → Exit (ℕ × Sim)
check_align s b i policy = do
  z ← access (zone_at s i)
  if z.z_type == Kind.sequential && not (b.bi_size % 4096 == 0)
      then (do
        s₁ ← access (modify_stats s i count_unaligned)
        let s₂ = log_error s₁ err_write_align
        if policy == 0 then ret err_write_align s₂ else next (1, s₂))
      else next (0, s)

-- Not at the write pointer: rewind it, advance it, or count a violation.
unfoldable pub off_pointer : Sim → Bio → ℕ → ℕ → ℕ → ZoneStatus → Exit (ℕ × Sim)
off_pointer s b i policy rv z =
    if not (s.wp_reset_flag == 0) && b.bi_sector == zone_idx_lba s i
    then (do
      s₁ ← access (modify_zone (record s { wp_reset_cnt = u32 (s.wp_reset_cnt + 1) }) i (set_wp 0))
      next (rv + 1, s₁))
    else if not (s.wp_adjust_flag == 0)
        && ltb (u64 (zone_idx_lba s i + z.z_write_ptr_offset)) b.bi_sector
    then (do
      s₁ ←
          access (
            modify_stats (record s { wp_adjust_cnt = u32 (s.wp_adjust_cnt + 1) }) i
              count_not_on_swp)
      s₂ ← access (modify_zone s₁ i (set_wp (u32 (sub64 b.bi_sector (zone_idx_lba s i)))))
      next (rv + 1, s₂))
    else (do
      s₁ ← access (modify_stats s i count_not_on_swp)
      let s₂ = log_error s₁ err_write_pointer
      if policy == 0 then ret err_write_pointer s₂ else next (rv + 1, s₂))

-- A write to a sequential zone has to start at the write pointer.
unfoldable pub check_pointer : Sim → Bio → ℕ → ℕ → ℕ → Exit (ℕ × Sim)
unfolding off_pointer
check_pointer s b i policy rv = do
  z ← access (zone_at s i)
  if z.z_type == Kind.sequential
        && not (u64 (zone_idx_lba s i + z.z_write_ptr_offset) == b.bi_sector)
      then off_pointer s b i policy rv z
      else next (rv, s)

-- The internal trace of a conventional zone's highest written sector.
unfoldable pub trace_conventional : Sim → Bio → ℕ → Exit Sim
unfolding end_lba
trace_conventional s b i = do
  z ← access (zone_at s i)
  if not (z.z_type == Kind.conventional)
      then next s
      else if end_lba b == u64 (zone_idx_lba s i + num_sectors_zone s)
      then (do s₁ ← access (modify_zone s i (set_wp (num_sectors_zone s))); ret success s₁)
      else if ltb (u64 (zone_idx_lba s i + z.z_write_ptr_offset)) (end_lba b)
          && ltb (end_lba b) (u64 (zone_idx_lba s i + num_sectors_zone s))
      then (do
        s₁ ← access (modify_zone s i (set_wp (u32 (sub64 (end_lba b) (zone_idx_lba s i)))))
        ret success s₁)
      else if ltb (end_lba b) (u64 (zone_idx_lba s i + z.z_write_ptr_offset))
      then ret success s
      else next s

-- The research split: two sequential zones in a row taken as one.
unfoldable pub split_border : Sim → Bio → ℕ → Exit Sim
unfolding end_lba
split_border s b i = do
  z ← access (zone_at s i)
  if leb (end_lba b) (u64 (zone_idx_lba s i + u32 (2 * num_sectors_zone s)))
        && z.z_type == Kind.sequential
      then (do
        n ← access (zone_at s (u32 (i + 1)))
        if n.z_type == Kind.sequential
              && ltb (u32 (i + 1)) s.smr_numzones
              && (z.z_flag == Cross.seq || z.z_flag == Cross.cur)
              && (s.wp_reset_flag == 1 || n.z_write_ptr_offset == 0)
            then (do
              s₁ ← access (modify_zone s i (set_wp_conds (num_sectors_zone s) Cond.full))
              s₂ ← access (
                  modify_zone s₁ (u32 (i + 1)) (
                    set_wp_conds
                      (u32 (sub64 (sub64 (end_lba b) (zone_idx_lba s i)) (num_sectors_zone s)))
                      Cond.closed))
              s₃ ← access (modify_stats s₂ i count_write_span)
              ret success s₃)
            else next s)
      else next s

-- The border check of a sequential zone.
unfoldable pub reject_border : Sim → ℕ → ℕ → ℕ → Exit (ℕ × Sim)
reject_border s i policy rv = do
  z ← access (zone_at s i)
  if z.z_type == Kind.sequential
      then (do
        s₁ ← access (modify_stats s i count_write_span)
        let s₂ = log_error s₁ err_write_border
        if policy == 0 then ret err_write_border s₂ else next (rv + 1, s₂))
      else next (rv, s)

-- `for (idx = zone_idx + 1; idx <= eidx; idx++)`, by the rounds left.
unfoldable pub scan_conventional : ℕ → Sim → ℕ → ℕ → ℕ → Exit Sim
scan_conventional zero s i idx policy = next s
scan_conventional (suc n) s i idx policy =
    let rest = scan_conventional n s i (idx + 1) policy in
    (do
      z ← access (zone_at s idx)
      if z.z_type == Kind.conventional then rest else (do
        s₁ ← access (modify_stats s i count_write_span)
        if policy == 0 then ret err_write_border s₁ else next s₁))

-- `for (idx = zone_idx; idx < eidx; idx++)`, by the rounds left: the zones that are filled up.
unfoldable pub fill_zones : ℕ → Sim → ℕ → Exit Sim
fill_zones zero s idx = next s
fill_zones (suc n) s idx = do
  s₁ ← access (
      modify_zone s idx λ z.
        set_wp_conds (num_sectors_zone s)
          (if z.z_type == Kind.conventional then Cond.no_wp else Cond.full) z)
  fill_zones n s₁ (idx + 1)

-- The condition of a sequential zone after its pointer moved to `wp`.
abbrev pub conds_at : ℕ → ℕ → ℕ
conds_at wp size = if wp == size then Cond.full else Cond.closed

-- The zone in which the write ends.
unfoldable pub close_last : Sim → Bio → ℕ → ℕ → Exit Sim
unfolding end_lba
close_last s b i eidx =
    let size = num_sectors_zone s in
    let wp = u32 (sub64 (sub64 (end_lba b) (zone_idx_lba s i)) size % size) in
    access (
      modify_zone s eidx λ z.
        if z.z_type == Kind.sequential then set_wp_conds wp (conds_at wp size) z else set_wp wp z)

-- A write that goes past the zone's end.
unfoldable pub check_border : Sim → Bio → ℕ → ℕ → ℕ → Exit (ℕ × Sim)
unfolding split_border reject_border scan_conventional fill_zones close_last end_lba
check_border s b i policy rv =
    if ltb (u64 (zone_idx_lba s i + num_sectors_zone s)) (end_lba b)
    then (do
      s₁ ← split_border s b i
      (rv', s₂) ← reject_border s₁ i policy rv
      let eidx = zone_idx_of s (end_lba b)
      z ← access (zone_at s₂ i)
      s₃ ←
          if z.z_type == Kind.conventional
          then scan_conventional (eidx - i) s₂ i (i + 1) policy
          else next s₂
      if z.z_type == Kind.conventional || policy == 1
          then (do
            s₄ ← fill_zones (eidx - i) s₃ i
            s₅ ← close_last s₄ b i eidx
            if policy == 1 then ret err_out_of_policy s₅ else ret success s₅)
          else next (rv', s₃))
    else next (rv, s)

-- The write pointer of a write that stays in its zone, or was let pass.
unfoldable pub advance : Sim → Bio → ℕ → ℕ → Exit Sim
unfolding end_lba
advance s b i policy = do
  z ← access (zone_at s i)
  let size = num_sectors_zone s
  let past = u32 (sub64 (end_lba b) (zone_idx_lba s i))
  let wp = u32 (z.z_write_ptr_offset + b.bio_sectors)
  if policy == 1 && z.z_conds == Cond.full
      then access (modify_zone s i (set_wp_conds past (conds_at past size)))
      else if z.z_type == Kind.sequential
      then access (modify_zone s i (set_wp_conds wp (conds_at wp size)))
      else access (modify_zone s i (set_wp wp))

unfoldable pub write_rule_check : Sim → Bio → ℕ → ℕ → Option (Code × Sim)
write_rule_check s b i policy = call (do
  (rv₁, s₁) ← check_align s b i policy
  (rv₂, s₂) ← check_pointer s₁ b i policy rv₁
  s₃ ← trace_conventional s₂ b i
  (rv₃, s₄) ← check_border s₃ b i policy rv₂
  s₅ ← advance s₄ b i policy
  if not (rv₃ == 0) && policy == 1 then next (err_out_of_policy, s₅) else next (success, s₅))

-- ===== src/Rules/Total.antt =====
-- No check of a request faults where its accesses are in range, and none leaves the frame.
use smr_simulator.Base.{ℕ, zero, suc, ◌+◌, ◌<◌, arith, u32, sub64, if◌then◌else◌, ◌==◌}
use smr_simulator.Types.Cond
use smr_simulator.Types.{
  ZoneStatus, ZoneStats, Code, Bio, err_write_align, err_write_pointer, err_write_border,
}
use smr_simulator.State.{Sim, modify_zone, modify_stats, num_sectors_zone, zone_idx_lba}
use smr_simulator.Exit.{Exit, fault, ret, next, ◌>>=◌, access}
use smr_simulator.Rules.Log.{log_error}
use smr_simulator.Rules.Frame.{
  Frame, Frame-refl, Frame-trans, log_error-Frame, CanAccess, Frame-CanAccess, zone_at-CanAccess,
  modify_zone-Frame, modify_stats-Frame,
}
use smr_simulator.Rules.Write.{
  check_align, off_pointer, check_pointer, trace_conventional, split_border, reject_border,
  scan_conventional, fill_zones, close_last, advance, end_lba, count_unaligned, count_not_on_swp,
  count_write_span, set_wp, set_wp_conds, conds_at,
}

abbrev pub Good : {A : Type 0} → (A → Sim) → Sim → Exit A → Type 0
Good st s fault = ⊥
Good st s (ret c s') = Frame s s'
Good st s (next a) = Frame s (st a)

pub Good-bind :
    {A B : Type 0} (st : A → Sim) (st' : B → Sim) (s : Sim) (m : Exit A) (f : A → Exit B)
    → Good st s m
    → ((a : A) → Frame s (st a) → Good st' s (f a))
    → Good st' s (m >>= f)
Good-bind st st' s fault f g k = absurd g
Good-bind st st' s (ret c s') f g k = g
Good-bind st st' s (next a) f g k = k a g

pub Good-trans :
    {A : Type 0} (st : A → Sim) (s t : Sim) (m : Exit A) → Frame s t → Good st t m → Good st s m
Good-trans st s t fault f g = g
Good-trans st s t (ret c s') f g = Frame-trans f g
Good-trans st s t (next a) f g = Frame-trans f g

abbrev pub snd_state : ℕ × Sim → Sim
snd_state p = p.1

-- The changes of one entry, as blocks.
pub modify_stats-Good :
    {s : Sim} {i : ℕ} (f : ZoneStats → ZoneStats)
    → CanAccess s i
    → Good (λ s'. s') s (access (modify_stats s i f))
modify_stats-Good f c = let (s', e, g, _) = modify_stats-Frame f c in rw e g

pub modify_zone-Good :
    {s : Sim} {i : ℕ} (f : ZoneStatus → ZoneStatus)
    → CanAccess s i
    → Good (λ s'. s') s (access (modify_zone s i f))
modify_zone-Good f c = let (s', e, g) = modify_zone-Frame f c in rw e g

-- A violation is counted and noted, and the function returns or goes on.
count-Good :
    {s : Sim} {i : ℕ} (f : ZoneStats → ZoneStats) (code : Code) (policy rv : ℕ)
    → CanAccess s i
    → Good snd_state s (
        access (modify_stats s i f) >>= λ s₁.
        (if policy == 0 then ret code (log_error s₁ code) else next (rv, log_error s₁ code)))
count-Good {s} {i} f code policy rv c =
    Good-bind (λ s'. s') snd_state s _ _ (modify_stats-Good f c)
      λ s₁ g. let h = Frame-trans g (log_error-Frame s₁ code) in ground arith

pub check_align-Good :
    {s : Sim} {i : ℕ} (b : Bio) (policy : ℕ)
    → CanAccess s i
    → Good snd_state s (check_align s b i policy)
unfolding check_align
check_align-Good {s} {i} b policy c =
    let (z, e) = zone_at-CanAccess c in
    rw e (ground (arith, count-Good count_unaligned err_write_align policy 1 c, Frame-refl s))

abbrev pub itself : Sim → Sim
itself s = s

abbrev bumped_reset : Sim → Sim
bumped_reset s = record s { wp_reset_cnt = u32 (s.wp_reset_cnt + 1) }

abbrev bumped_adjust : Sim → Sim
bumped_adjust s = record s { wp_adjust_cnt = u32 (s.wp_adjust_cnt + 1) }

bumped_reset-Frame : (s : Sim) → Frame s (bumped_reset s)
bumped_reset-Frame s = ground arith

bumped_adjust-Frame : (s : Sim) → Frame s (bumped_adjust s)
bumped_adjust-Frame s = ground arith

off_pointer-Good :
    {s : Sim} {i : ℕ} (b : Bio) (policy rv : ℕ) (z : ZoneStatus)
    → CanAccess s i
    → Good snd_state s (off_pointer s b i policy rv z)
unfolding off_pointer
off_pointer-Good {s} {i} b policy rv z c =
    let f = bumped_reset-Frame s in
    let (s₁, e₁, g₁) = modify_zone-Frame (set_wp 0) (Frame-CanAccess f c) in
    let h = bumped_adjust-Frame s in
    let (s₂, e₂, g₂, _) = modify_stats-Frame count_not_on_swp (Frame-CanAccess h c) in
    let (s₃, e₃, g₃) =
      modify_zone-Frame (set_wp (u32 (sub64 b.bi_sector (zone_idx_lba s i))))
        (Frame-CanAccess (Frame-trans h g₂) c) in
    ground (
      arith,
      count-Good count_not_on_swp err_write_pointer policy (rv + 1) c,
      Frame-trans f g₁,
      Frame-trans h (Frame-trans g₂ g₃),
    )

pub check_pointer-Good :
    {s : Sim} {i : ℕ} (b : Bio) (policy rv : ℕ)
    → CanAccess s i
    → Good snd_state s (check_pointer s b i policy rv)
unfolding check_pointer
check_pointer-Good {s} {i} b policy rv c =
    let (z, e) = zone_at-CanAccess c in
    rw e (ground (arith, off_pointer-Good b policy rv z c, Frame-refl s))

pub trace_conventional-Good :
    {s : Sim} {i : ℕ} (b : Bio) → CanAccess s i → Good itself s (trace_conventional s b i)
unfolding trace_conventional
trace_conventional-Good {s} {i} b c =
    let (z, e) = zone_at-CanAccess c in
    let (s₁, e₁, g₁) = modify_zone-Frame (set_wp (num_sectors_zone s)) c in
    let (s₂, e₂, g₂) = modify_zone-Frame (set_wp (u32 (sub64 (end_lba b) (zone_idx_lba s i)))) c in
    ground (arith, Frame-refl s)

pub reject_border-Good :
    {s : Sim} {i : ℕ} (policy rv : ℕ)
    → CanAccess s i
    → Good snd_state s (reject_border s i policy rv)
unfolding reject_border
reject_border-Good {s} {i} policy rv c =
    let (z, e) = zone_at-CanAccess c in
    rw e
      (ground (arith, count-Good count_write_span err_write_border policy (rv + 1) c, Frame-refl s))

pub split_border-Good :
    {s : Sim} {i : ℕ} (b : Bio)
    → CanAccess s i
    → CanAccess s (u32 (i + 1))
    → Good itself s (split_border s b i)
unfolding split_border
split_border-Good {s} {i} b c d =
    let (z, e) = zone_at-CanAccess c in
    let (n, e') = zone_at-CanAccess d in
    let (s₁, e₁, g₁) = modify_zone-Frame (set_wp_conds (num_sectors_zone s) Cond.full) c in
    let (s₂, e₂, g₂) =
      modify_zone-Frame
        (set_wp_conds (u32 (sub64 (sub64 (end_lba b) (zone_idx_lba s i)) (num_sectors_zone s)))
          Cond.closed)
        (Frame-CanAccess g₁ d) in
    let (s₃, e₃, g₃, _) =
      modify_stats-Frame count_write_span (Frame-CanAccess (Frame-trans g₁ g₂) c) in
    ground (arith, Frame-refl s, Frame-trans (Frame-trans g₁ g₂) g₃)

pub scan_conventional-Good :
    (n : ℕ) {s : Sim} {i : ℕ} (idx policy : ℕ)
    → CanAccess s i
    → ((k : ℕ) → k < idx + n → CanAccess s k)
    → Good itself s (scan_conventional n s i idx policy)
unfolding scan_conventional
scan_conventional-Good zero {s} idx policy c all = Frame-refl s
scan_conventional-Good (suc n) {s} {i} idx policy c all =
    let (z, e) = zone_at-CanAccess (all idx (omega arith)) in
    let (s₁, e₁, g₁, _) = modify_stats-Frame count_write_span c in
    ground (
      arith,
      scan_conventional-Good n {s = s} {i = i} (idx + 1) policy c (λ k h. all k (omega arith)),
    )

pub fill_zones-Good :
    (n : ℕ) {s : Sim} (idx : ℕ)
    → ((k : ℕ) → k < idx + n → CanAccess s k)
    → Good itself s (fill_zones n s idx)
unfolding fill_zones
fill_zones-Good zero {s} idx all = Frame-refl s
fill_zones-Good (suc n) {s} idx all =
    Good-bind itself itself s _ _ (modify_zone-Good _ (all idx (omega arith))) λ s₁ g.
      Good-trans itself s s₁ _ g
        (fill_zones-Good n (idx + 1) (λ k h. Frame-CanAccess g (all k (omega arith))))

pub close_last-Good :
    {s : Sim} (b : Bio) (i eidx : ℕ) → CanAccess s eidx → Good itself s (close_last s b i eidx)
unfolding close_last
close_last-Good b i eidx c = modify_zone-Good _ c

pub advance-Good :
    {s : Sim} {i : ℕ} (b : Bio) (policy : ℕ) → CanAccess s i → Good itself s (advance s b i policy)
unfolding advance
advance-Good {s} {i} b policy c =
    let (z, e) = zone_at-CanAccess c in
    let past = u32 (sub64 (end_lba b) (zone_idx_lba s i)) in
    let wp = u32 (z.z_write_ptr_offset + b.bio_sectors) in
    let size = num_sectors_zone s in
    rw e (
      ground (
        arith,
        modify_zone-Good (set_wp_conds past (conds_at past size)) c,
        modify_zone-Good (set_wp_conds wp (conds_at wp size)) c,
        modify_zone-Good (set_wp wp) c,
      ))

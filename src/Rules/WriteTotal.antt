-- ===== src/Rules/WriteTotal.antt =====
-- The write check as a whole: it returns a code, and never leaves the frame.
use smr_simulator.Base.{
  ℕ, ◌+◌, ◌-◌, ◌≡◌, ◌<◌, ◌≤◌, arith, some, u32, u64, ◌==◌, ◌||◌, refl, if◌then◌else◌,
}
use native.Mathlib.Decide.{dec_lt}
use smr_simulator.Types.Kind
use smr_simulator.Types.{ZoneStatus, Bio, Code, success, err_out_of_policy}
use smr_simulator.State.{Sim, zone_at, num_sectors_zone, zone_idx_lba, zone_idx_of}
use smr_simulator.Exit.{Exit, fault, ret, next, ◌>>=◌, access, call}
use smr_simulator.Rules.Frame.{
  Frame, Frame-refl, Frame-trans, CanAccess, Frame-CanAccess, zone_at-CanAccess, Frame-zone_idx_lba,
  Frame-num_sectors_zone, Frame-zone_idx_of,
}
use smr_simulator.Rules.Total.{
  Good, Good-bind, Good-trans, itself, snd_state, check_align-Good, check_pointer-Good,
  trace_conventional-Good, reject_border-Good, split_border-Good, scan_conventional-Good,
  fill_zones-Good, close_last-Good, advance-Good,
}
use smr_simulator.Rules.Write.{
  reject_border, scan_conventional, fill_zones, close_last, check_border, write_rule_check, end_lba,
}

-- Where the write leaves its zone, every zone up to the one that its end lies in is in the table.
pub record EndsInTable (s : Sim) (b : Bio) (i : ℕ) : Type 0 where
  pub next_zone : CanAccess s (u32 (i + 1))
  pub last_zone : CanAccess s (zone_idx_of s (end_lba b))
  pub ahead : i ≤ zone_idx_of s (end_lba b)

module _ {s : Sim} {b : Bio} {i : ℕ} (c : CanAccess s i) (n : EndsInTable s b i) where
  abbrev eidx : ℕ
  eidx = zone_idx_of s (end_lba b)

  all_zones : {t : Sim} → Frame s t → (k : ℕ) → k < i + (eidx - i) → CanAccess t k
  all_zones f k h = ground (arith, n.last_zone, n.ahead, c)

  all_next : {t : Sim} → Frame s t → (k : ℕ) → k < i + 1 + (eidx - i) → CanAccess t k
  all_next f k h = ground (arith, n.last_zone, n.ahead, c)

  -- The zones that are filled, and the last one.
  spill-Good :
      (t : Sim) (policy : ℕ)
      → Frame s t
      → Good snd_state s (
          fill_zones (eidx - i) t i >>= λ s₄. close_last s₄ b i eidx >>= λ s₅.
          if policy == 1 then ret err_out_of_policy s₅ else ret success s₅)
  spill-Good t policy f = Good-trans snd_state s t _ f (
      Good-bind itself snd_state t _ _ (fill_zones-Good (eidx - i) i (all_zones f)) λ s₄ g₄.
        Good-bind itself snd_state t _ _
          (Good-trans itself t s₄ _ g₄
            (close_last-Good b i eidx (Frame-CanAccess (Frame-trans f g₄) n.last_zone)))
          λ s₅ g₅. ground arith)

  -- From the border check of the zone on.
  leave-Good :
      (s₁ : Sim) (policy rv : ℕ)
      → Frame s s₁
      → Good snd_state s (
          reject_border s₁ i policy rv >>= λ (rv', s₂). access (zone_at s₂ i) >>= λ z.
          (if z.z_type == Kind.conventional
            then scan_conventional (eidx - i) s₂ i (i + 1) policy
            else next s₂)
          >>= λ s₃.
              (if z.z_type == Kind.conventional || policy == 1
                then (fill_zones (eidx - i) s₃ i >>= λ s₄. close_last s₄ b i eidx >>= λ s₅.
                    if policy == 1 then ret err_out_of_policy s₅ else ret success s₅)
                else next (rv', s₃)))
  leave-Good s₁ policy rv f =
      Good-bind snd_state snd_state s _ _
        (Good-trans snd_state s s₁ _ f (reject_border-Good policy rv (Frame-CanAccess f c)))
        λ r g₂.
          let (z, e) = zone_at-CanAccess (Frame-CanAccess g₂ c) in
          rw e (
            Good-bind itself snd_state s _ _ (scanned r.1 policy z g₂)
              λ s₃ g₃. ground (arith, spill-Good s₃ policy g₃))
    where
      scanned :
          (s₂ : Sim) (policy : ℕ) (z : ZoneStatus)
          → Frame s s₂
          → Good itself s (
              if z.z_type == Kind.conventional
              then scan_conventional (eidx - i) s₂ i (i + 1) policy
              else next s₂)
      scanned s₂ policy z g = ground (
        arith,
        Good-trans itself s s₂ _ g
            (scan_conventional-Good (eidx - i) (i + 1) policy (Frame-CanAccess g c) (all_next g)),
      )

  border-Good : (policy rv : ℕ) → Good snd_state s (check_border s b i policy rv)
  unfolding check_border
  border-Good policy rv = ground (
    arith,
    Frame-refl s,
    Good-bind itself snd_state s _ _ (split_border-Good b c n.next_zone)
        (λ s₁ g₁. leave-Good s₁ policy rv g₁),
  )

-- A write that leaves its zone needs the zones that it goes to.
abbrev pub Reaches : Sim → Bio → ℕ → Type 0
Reaches s b i = u64 (zone_idx_lba s i + num_sectors_zone s) < end_lba b → EndsInTable s b i

Frame-Reaches : {s s' : Sim} {b : Bio} {i : ℕ} → Frame s s' → Reaches s b i → Reaches s' b i
Frame-Reaches {s} {s'} {b} {i} f r h =
    let n = r (rw (← Frame-zone_idx_lba i f, ← Frame-num_sectors_zone f) h) in
    record {
      next_zone = Frame-CanAccess f n.next_zone;
      last_zone = rw (Frame-zone_idx_of (end_lba b) f) (Frame-CanAccess f n.last_zone);
      ahead = rw (Frame-zone_idx_of (end_lba b) f) n.ahead;
    }

check_border-Good :
    {s : Sim} {b : Bio} {i : ℕ} (policy rv : ℕ)
    → CanAccess s i
    → Reaches s b i
    → Good snd_state s (check_border s b i policy rv)
check_border-Good {s} {b} {i} policy rv c r =
    elim (dec_lt (u64 (zone_idx_lba s i + num_sectors_zone s)) (end_lba b)) [
      | yes h ↦ border-Good c (r h) policy rv
      | no h ↦ unfold check_border in ground (arith, Frame-refl s)
    ]

call-Good :
    (s : Sim) (m : Exit (Code × Sim))
    → Good (λ p. p.1) s m
    → (c : Code) × (s' : Sim) × (call m ≡ some (c, s')) × Frame s s'
call-Good s fault g = absurd g
call-Good s (ret c s') g = (c, s', refl, g)
call-Good s (next (c, s')) g = (c, s', refl, g)

-- Where the zones that a write starts in and goes to are in the table, the check returns a code
-- under every policy and with every research option, and what it leaves is in the frame.
pub write_rule_check_total :
    {s : Sim} {b : Bio} {i : ℕ} (policy : ℕ)
    → CanAccess s i
    → Reaches s b i
    → (c : Code) × (s' : Sim) × (write_rule_check s b i policy ≡ some (c, s')) × Frame s s'
unfolding write_rule_check
write_rule_check_total {s} {b} {i} policy c r = call-Good s _ (
    Good-bind snd_state code_state s _ _ (check_align-Good b policy c) λ r₁ g₁.
      Good-bind snd_state code_state s _ _
        (Good-trans snd_state s r₁.1 _ g₁ (check_pointer-Good b policy r₁.0 (Frame-CanAccess g₁ c)))
        λ r₂ g₂.
          Good-bind itself code_state s _ _
            (Good-trans itself s r₂.1 _ g₂ (trace_conventional-Good b (Frame-CanAccess g₂ c)))
            λ s₃ g₃.
              Good-bind snd_state code_state s _ _
                (Good-trans snd_state s s₃ _ g₃
                  (check_border-Good policy r₂.0 (Frame-CanAccess g₃ c) (Frame-Reaches g₃ r)))
                λ r₄ g₄.
                  Good-bind itself code_state s _ _
                    (Good-trans itself s r₄.1 _ g₄ (advance-Good b policy (Frame-CanAccess g₄ c)))
                    λ s₅ g₅. ground arith)
  where
    code_state : Code × Sim → Sim
    code_state p = p.1

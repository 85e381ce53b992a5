-- ===== src/Config/Research.antt =====
-- dm-smrsim.c, smrsim_forward_wp_adjust, smrsim_backward_wp_reset and smrsim_border_across.
use smr_simulator.Base.{ℕ, zero, suc, ◌+◌, ◌%◌, if◌then◌else◌, ltb, ◌==◌, u32, shr, Option, some}
use smr_simulator.Types.Kind
use smr_simulator.Types.Cross
use smr_simulator.Types.{ZoneStatus, Code, success, einval}
use smr_simulator.State.{Sim, modify_zone}
use smr_simulator.Faults.{◌>>=◌}

unfoldable pub forward_wp_adjust : Sim → ℕ → Code × Sim
forward_wp_adjust s flag =
    if ltb 1 flag then (einval, s) else (success, record s { wp_adjust_flag = flag })

unfoldable pub backward_wp_reset : Sim → ℕ → Code × Sim
backward_wp_reset s flag =
    if ltb 1 flag then (einval, s) else (success, record s { wp_reset_flag = flag })

-- `for (loop = 0; loop < SMR_NUMZONES; loop++)`, by the rounds left.
unfoldable pub update_zones : (ZoneStatus → ZoneStatus) → ℕ → Sim → ℕ → Option Sim
update_zones f zero s index = some s
update_zones f (suc n) s index = do s₁ ← modify_zone s index f; update_zones f n s₁ (index + 1)

abbrev pub set_flag : ℕ → ZoneStatus → ZoneStatus
set_flag code z = record z { z_flag = code }

abbrev pub set_flag_seq : ℕ → ZoneStatus → ZoneStatus
set_flag_seq code z = if z.z_type == Kind.sequential then set_flag code z else z

-- `param` holds the zone's index above its low byte, the code. The index is not checked.
unfoldable pub border_across : Sim → ℕ → Option (Code × Sim)
border_across s param =
    if code == Cross.cur
    then (do s₁ ← modify_zone s (u32 (shr param 8)) (set_flag code); some (success, s₁))
    else if code == Cross.off
    then (do s₁ ← update_zones (set_flag code) s.smr_numzones s 0; some (success, s₁))
    else if code == Cross.seq
    then (do s₁ ← update_zones (set_flag_seq code) s.smr_numzones s 0; some (success, s₁))
    else some (success, s)
  where
    code : ℕ
    code = param % 256

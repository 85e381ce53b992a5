-- ===== src/Config/Zones.antt =====
-- dm-smrsim.c, smrsim_set_size_zone_default and smrsim_reset_default_zone_config to
-- smrsim_add_zone_config. The result of `vzalloc` is an argument, and so is the kernel's
-- `is_power_of_2`.
pub mod Resize
pub mod Table
use smr_simulator.Base.{
  ℕ, zero, suc, ◌+◌, ◌%◌, Bool, true, false, not, ◌&&◌, ◌||◌, if◌then◌else◌, ltb, leb, ◌==◌, u32,
  shl, shr, List, [], ◌∷◌, ◌++◌, length, replicate, drop, set, Option, some, none,
}
use smr_simulator.Types.Cond
use smr_simulator.Types.Kind
use smr_simulator.Types.{ZoneStatus, Code, success, einval}
use smr_simulator.State.{Sim, live, deref, zone_at, modify_zone, num_sectors_zone}
use smr_simulator.Faults.{◌>>=◌}
use smr_simulator.Init.{
  zone_size_shift_default, state_size, index_power_of_2, init_zone_state_default, zero_stats,
  is_freed, vfreed,
}
use smr_simulator.Config.Device.{reset_default_device_config}

-- The old object is freed after the new one was allocated, which is a fault if it was freed before; without memory the new size and number
-- of zones stay beside the old object.
unfoldable pub set_size_zone_default : (ℕ → Bool) → Sim → ℕ → Bool → Option (Code × Sim)
set_size_zone_default is_power_of_2 s size_zone allocated =
    if not (size_zone % u32 (shl 1 s.smr_block_size_shift) == 0) || not (is_power_of_2 size_zone)
    then some (einval, s)
    else (let shift = u32 (index_power_of_2 (shr size_zone s.smr_block_size_shift)) in
        let s₁ = record s {
          smr_zone_size_shift = shift;
          smr_numzones = u32 (shr (shr s.smr_capacity s.smr_block_size_shift) shift);
        } in
        if not allocated
        then some (einval, s₁)
        else if is_freed s.memory
        then none
        else (do s₂ ← init_zone_state_default s₁ (state_size s₁); some (success, s₂)))

-- Here the old object is freed also where there is no new one.
unfoldable pub reset_default_zone_config : Sim → Bool → Option (Code × Sim)
reset_default_zone_config s allocated =
    let s₁ = record s {
      smr_numzones = s.smr_numzones_default;
      smr_zone_size_shift = zone_size_shift_default;
    } in
    if is_freed s.memory
    then none
    else if allocated
    then (do s₂ ← init_zone_state_default s₁ (state_size s₁); some (success, s₂))
    else some (einval, record s₁ { memory = vfreed s.memory })

-- The codes of the two calls are not looked at.
unfoldable pub reset_default_config : Sim → Bool → Option (Code × Sim)
reset_default_config s allocated = do
  (code₁, s₁) ← reset_default_zone_config s allocated
  (code₂, s₂) ← reset_default_device_config s₁
  some (success, s₂)

abbrev pub zero_status : ZoneStatus
zero_status = record {
  z_start = 0;
  z_length = 0;
  z_write_ptr_offset = 0;
  z_checkpoint_offset = 0;
  z_conds = 0;
  z_type = 0;
  z_flag = 0;
}

-- `memset` of the first `n` entries; past the end of the array it is a fault.
abbrev pub clear_first : {A : Type 0} → ℕ → A → List A → Option (List A)
clear_first n a xs = if leb n (length xs) then some (replicate n a ++ drop n xs) else none

unfoldable pub clear_zone_config : Sim → Option (Code × Sim)
clear_zone_config s = do
  stats ← deref s (clear_first s.num_zones zero_stats s.zone_stats)
  status ← clear_first s.smr_numzones zero_status s.zone_status
  some (
    success,
    record s { zone_stats = stats; zone_status = status; num_zones = 0; smr_numzones = 0 },
  )

-- The loop of `smrsim_zone_seq_count`, by the rounds left.
unfoldable pub seq_count_from : Sim → ℕ → ℕ → ℕ → Option ℕ
seq_count_from s zero index count = some count
seq_count_from s (suc n) index count = do
  z ← zone_at s index
  seq_count_from s n (index + 1) (if z.z_type == Kind.sequential then u32 (count + 1) else count)

unfoldable pub zone_seq_count : Sim → Option ℕ
zone_seq_count s = seq_count_from s s.smr_numzones 0 0

unfoldable pub zone_cond_check : ℕ → Bool
zone_cond_check cond =
    cond == Cond.no_wp
    || cond == Cond.empty
    || cond == Cond.closed
    || cond == Cond.read_only
    || cond == Cond.full
    || cond == Cond.offline

-- The checks of `smrsim_modify_zone_config` once the zone is known to exist, in their order; `old`
-- is `zone_status[z_start]` and `count` the number of sequential zones.
unfoldable pub modify_rejects : ℕ → ℕ → ZoneStatus → ZoneStatus → Bool
modify_rejects size count old z =
    (leb count 1 && z.z_type == Kind.conventional && old.z_type == Kind.sequential)
    || not (z.z_length == size)
    || ltb size z.z_write_ptr_offset
    || (z.z_write_ptr_offset == size && not (old.z_conds == Cond.full))
    || leb size z.z_checkpoint_offset
    || not (zone_cond_check z.z_conds)
    || (z.z_conds == Cond.no_wp && not (z.z_type == Kind.conventional))
    || (z.z_conds == Cond.empty && z.z_type == Kind.sequential && not (z.z_write_ptr_offset == 0))

-- The fields that are assigned; `z_start` and `z_length` stay.
abbrev pub modified : ZoneStatus → ZoneStatus → ZoneStatus
modified z old = record old {
  z_write_ptr_offset = z.z_write_ptr_offset;
  z_checkpoint_offset = z.z_checkpoint_offset;
  z_conds = z.z_conds;
  z_type = z.z_type;
  z_flag = 0;
}

unfoldable pub modify_checked : Sim → ℕ → Option ZoneStatus → Option (Code × Sim)
modify_checked s count none = some (einval, s)
modify_checked s count (some z) = if leb s.smr_numzones z.z_start then some (einval, s) else (do
  old ← zone_at s z.z_start
  if modify_rejects (num_sectors_zone s) count old z
      then some (einval, s)
      else (do s₁ ← modify_zone s z.z_start (modified z); some (success, s₁)))

-- The sequential zones are counted before the argument is looked at.
unfoldable pub modify_zone_config : Sim → Option ZoneStatus → Option (Code × Sim)
modify_zone_config s z_status = do count ← zone_seq_count s; modify_checked s count z_status

-- The checks of `smrsim_add_zone_config` in their order.
unfoldable pub add_rejects : Sim → ZoneStatus → Bool
add_rejects s z =
    leb s.smr_numzones_default z.z_start
    || not (z.z_start == s.smr_numzones)
    || (not (z.z_type == Kind.conventional) && not (z.z_type == Kind.sequential))
    || (z.z_type == Kind.conventional && not (z.z_conds == Cond.no_wp))
    || (z.z_type == Kind.sequential && not (z.z_conds == Cond.empty))
    || not (z.z_length == num_sectors_zone s)
    || not (z.z_write_ptr_offset == 0)

-- `zone_status[SMR_NUMZONES] = *zone_sts`, its flag cleared before.
unfoldable pub add_zone_config : Sim → Option ZoneStatus → Option (Code × Sim)
add_zone_config s none = some (einval, s)
add_zone_config s (some z) = if add_rejects s z then some (einval, s) else (do
  s₁ ← modify_zone s s.smr_numzones (λ _. record z { z_flag = 0 })
  some (
    success,
    record s₁ { num_zones = u32 (s₁.num_zones + 1); smr_numzones = u32 (s₁.smr_numzones + 1) },
  ))

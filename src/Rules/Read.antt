-- ===== src/Rules/Read.antt =====
-- dm-smrsim.c, smrsim_read_rule_check.
use smr_simulator.Base.{ℕ, ◌+◌, not, ◌&&◌, if◌then◌else◌, ltb, ◌==◌, u32, u64, Option}
use smr_simulator.Types.Kind
use smr_simulator.Types.{
  ZoneStats, Code, success, err_read_border, err_read_pointer, err_out_of_policy, Bio,
}
use smr_simulator.State.{Sim, zone_at, modify_stats, num_sectors_zone, zone_idx_lba}
use smr_simulator.Exit.{Exit, ret, next, ◌>>=◌, access, call}
use smr_simulator.Rules.Log.{log_error}
use smr_simulator.Rules.Write.{end_lba}

abbrev pub count_read_span : ZoneStats → ZoneStats
count_read_span t = record t { read_span_zones_count = u32 (t.read_span_zones_count + 1) }

abbrev pub count_beyond_swp : ZoneStats → ZoneStats
count_beyond_swp t = record t { beyond_swp_count = u32 (t.beyond_swp_count + 1) }

-- The read has to end in its zone.
unfoldable pub read_border : Sim → Bio → ℕ → ℕ → Exit (ℕ × Sim)
unfolding end_lba
read_border s b i policy =
    if ltb (u64 (zone_idx_lba s i + num_sectors_zone s)) (end_lba b)
    then (do
      s₁ ← access (modify_stats s i count_read_span)
      let s₂ = log_error s₁ err_read_border
      if policy == 0 then ret err_read_border s₂ else next (1, s₂))
    else next (0, s)

-- In a zone that is not conventional it has to end at the write pointer or below.
unfoldable pub read_pointer : Sim → Bio → ℕ → ℕ → ℕ → Exit (ℕ × Sim)
unfolding end_lba
read_pointer s b i policy rv = do
  z ← access (zone_at s i)
  if not (z.z_type == Kind.conventional)
        && ltb (u64 (zone_idx_lba s i + z.z_write_ptr_offset)) (end_lba b)
      then (do
        s₁ ← access (modify_stats s i count_beyond_swp)
        let s₂ = log_error s₁ err_read_pointer
        if policy == 0 then ret err_read_pointer s₂ else next (rv + 1, s₂))
      else next (rv, s)

unfoldable pub read_rule_check : Sim → Bio → ℕ → ℕ → Option (Code × Sim)
read_rule_check s b i policy = call (do
  (rv₁, s₁) ← read_border s b i policy
  (rv₂, s₂) ← read_pointer s₁ b i policy rv₁
  if rv₂ == 0 then next (success, s₂) else next (err_out_of_policy, s₂))

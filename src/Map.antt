-- ===== src/Map.antt =====
-- dm-smrsim.c, smrsim_map and smrsim_map_sector: what happens to a request.
pub mod Entry
pub mod Host
pub mod Again
pub mod Total
pub mod Reading
pub mod Sound
pub mod Managed
pub mod Fill
pub mod Pointer
use smr_simulator.Base.{
  ℕ, ◌+◌, ◌*◌, not, ◌&&◌, if◌then◌else◌, ltb, leb, ◌==◌, u32, u64, Option, some, none,
}
use smr_simulator.Types.Cond
use smr_simulator.Types.{
  ZoneStatus, Code-discrete, success, err_write_ro, err_write_full, err_out_range,
  err_out_of_policy, err_zone_offline, Bio, Dir, read, write,
}
use smr_simulator.State.{Sim, zone_at, num_sectors_zone, zone_idx_lba, zone_idx_of}
use smr_simulator.Faults.{◌>>=◌}
use smr_simulator.Idle.{dev_idle_update}
use smr_simulator.Rules.Log.{log_error}
use smr_simulator.Rules.Write.{write_rule_check, end_lba}
use smr_simulator.Rules.Read.{read_rule_check}
use smr_simulator.Pstore.Queue.{note_write, note_refusal}

-- The mapped device of `struct smrsim_c` and `struct dm_target`: where it starts below, and the
-- kernel's `dm_target_offset`.
pub record Target : Type 0 where
  pub start : ℕ
  pub dm_target_offset : ℕ → ℕ

-- `DM_MAPIO_REMAPPED` with the sector to which the request is sent and the milliseconds slept
-- before, or `SMR_DM_IO_ERR`.
pub data Verdict : Type 0 where
  remapped : ℕ → ℕ → Verdict
  refused : Verdict

unfoldable pub map_sector : Target → ℕ → ℕ
map_sector t sector = u64 (t.start + t.dm_target_offset sector)

-- The label `mapped`.
unfoldable pub mapped : Sim → Target → Bio → ℕ → Verdict × Sim
unfolding map_sector
mapped s t b penalty =
    (remapped (if b.bio_sectors == 0 then b.bi_sector else map_sector t b.bi_sector) penalty, s)

-- The label `nomap`.
unfoldable pub nomap : Sim → ℕ → Verdict × Sim
nomap s idx = (refused, record s { ptask = note_refusal s.ptask idx })

-- The branch of a write, after the checks that both directions share.
unfoldable pub map_write : Sim → Target → Bio → ℕ → ZoneStatus → Option (Verdict × Sim)
unfolding mapped nomap
map_write s t b i z =
    if z.z_conds == Cond.read_only && wflag == 0
    then some (nomap (log_error s err_write_ro) i)
    else if z.z_conds == Cond.full && not (b.bi_sector == zone_idx_lba s i) && wflag == 0
    then some (nomap (log_error s err_write_full) i)
    else (do
      (code, s₁) ← write_rule_check s b i wflag
      some (elim (Code-discrete code success) [
        | yes _ ↦ mapped (noted s₁) t b 0
        | no _ ↦
            if wflag == 1 && rflag == 1
            then mapped s₁ t b 0
            else if wflag == 1
            then mapped (noted s₁) t b s₁.dev_config.w_time_to_rmw_zone
            else nomap s₁ i
      ]))
  where
    rflag : ℕ
    rflag = s.dev_config.out_of_policy_read_flag

    wflag : ℕ
    wflag = s.dev_config.out_of_policy_write_flag

    noted : Sim → Sim
    noted s₁ = record s₁ { ptask = note_write s₁.ptask i }

-- The branch of a read.
unfoldable pub map_read : Sim → Target → Bio → ℕ → Option (Verdict × Sim)
unfolding mapped nomap
map_read s t b i = do
  (code, s₁) ← read_rule_check s b i rflag
  some (elim (Code-discrete code success) [
    | yes _ ↦ mapped s₁ t b 0
    | no _ ↦
        if wflag == 1 && rflag == 1
        then mapped s₁ t b 0
        else if rflag == 1
        then mapped s₁ t b s₁.dev_config.r_time_to_rmw_zone
        else nomap s₁ i
  ])
  where
    rflag : ℕ
    rflag = s.dev_config.out_of_policy_read_flag

    wflag : ℕ
    wflag = s.dev_config.out_of_policy_write_flag

-- `cdir` is WRITE or READ.
unfoldable pub by_direction : Dir → Sim → Target → Bio → ℕ → ZoneStatus → Option (Verdict × Sim)
by_direction write s t b i z = map_write s t b i z
by_direction read s t b i z = map_read s t b i

-- From the range check on, with the zone's index.
unfoldable pub map_at : Sim → Target → Bio → ℕ → Option (Verdict × Sim)
map_at s t b i =
    if leb s.smr_numzones i
    then some (nomap (log_error s err_out_range) i)
    else if ltb (u64 (zone_idx_lba s i + u32 (2 * num_sectors_zone s))) (end_lba b)
    then some (nomap (log_error s err_out_of_policy) i)
    else (do
      z ← zone_at s i
      if z.z_conds == Cond.offline
          then some (nomap (log_error s err_zone_offline) i)
          else by_direction b.bio_dir s t b i z)

unfoldable pub map : Sim → Target → Bio → ℕ → ℕ → Option (Verdict × Sim)
map s t b jiffies hz = do
  s₁ ← dev_idle_update s jiffies hz
  map_at s₁ t b (zone_idx_of s₁ b.bi_sector)

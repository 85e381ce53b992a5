-- ===== src/State.antt =====
-- source/smrsim_kmod/dm-smrsim.c: the module's globals and the heap object `zone_state`, with the
-- accesses that the functions make and the geometry of the zones.
-- The three arrays of the object are lists of the length that was allocated. An access through a
-- null or freed pointer, or past the end of an array, is a fault: `none`.
pub mod Geometry
pub mod Access
use smr_simulator.Base.{
  ℕ, List, Bool, true, false, Option, none, some, if◌then◌else◌, get_elem?, set, u32, u64, shl, shr,
}
use smr_simulator.Types.{ZoneStatus, ZoneStats, IdleStats, StateHeader, DevConfig}

-- What `zone_state` points to: nothing yet, the object, or memory that was freed.
pub data Memory : Type 0 where
  null live freed : Memory

-- The bits of `enum smrsim_conf_change` in the task's `flag`.
pub record Flags : Type 0 where
  pub config_change : Bool
  pub stats_change : Bool
  pub status_change : Bool

-- `struct smrsim_pstore_task`, without its thread and completions.
pub record PstoreTask : Type 0 where
  pub sts_zone_idx : ℕ
  pub stu_zone_idx : List ℕ
  pub stu_zone_idx_cnt : ℕ
  pub stu_zone_idx_gap : ℕ
  pub pstore_lba : ℕ
  pub flag : Flags

pub record Sim : Type 0 where
  pub smr_capacity : ℕ
  pub smr_numzones : ℕ
  pub smr_numzones_default : ℕ
  pub smr_zone_size_shift : ℕ
  pub smr_block_size_shift : ℕ
  pub memory : Memory
  pub header : StateHeader
  pub dev_config : DevConfig
  pub idle_stats : IdleStats
  pub num_zones : ℕ
  pub zone_stats : List ZoneStats
  pub zone_status : List ZoneStatus
  pub dbg_rerr : ℕ
  pub dbg_werr : ℕ
  pub dbg_log_enabled : ℕ
  pub dev_idle_checkpoint : ℕ
  pub wp_reset_flag : ℕ
  pub wp_adjust_flag : ℕ
  pub wp_reset_cnt : ℕ
  pub wp_adjust_cnt : ℕ
  pub ptask : PstoreTask

abbrev pub is_live : Memory → Bool
is_live live = true
is_live null = false
is_live freed = false

-- An access to the object through `zone_state`.
abbrev pub deref {ℓ} : {A : Type ℓ} → Sim → Option A → Option A
deref s r = if is_live s.memory then r else none

-- `zone_status[i]`
unfoldable pub zone_at : Sim → ℕ → Option ZoneStatus
zone_at s i = if is_live s.memory then get_elem? s.zone_status i else none

-- An assignment to fields of `zone_status[i]`.
unfoldable pub modify_zone : Sim → ℕ → (ZoneStatus → ZoneStatus) → Option Sim
unfolding zone_at
modify_zone s i f = elim (zone_at s i) [
  | none ↦ none
  | some z ↦ some (record s { zone_status = set s.zone_status i (f z) })
]

-- `zone_state->stats.zone_stats[i]`
unfoldable pub stats_at : Sim → ℕ → Option ZoneStats
stats_at s i = if is_live s.memory then get_elem? s.zone_stats i else none

-- An assignment to counters of `zone_state->stats.zone_stats[i]`.
unfoldable pub modify_stats : Sim → ℕ → (ZoneStats → ZoneStats) → Option Sim
unfolding stats_at
modify_stats s i f = elim (stats_at s i) [
  | none ↦ none
  | some z ↦ some (record s { zone_stats = set s.zone_stats i (f z) })
]

-- `num_sectors_zone`: 1 << SMR_BLOCK_SIZE_SHIFT << SMR_ZONE_SIZE_SHIFT as a __u32.
unfoldable pub num_sectors_zone : Sim → ℕ
num_sectors_zone s = u32 (shl (shl 1 s.smr_block_size_shift) s.smr_zone_size_shift)

-- `zone_idx_lba`
unfoldable pub zone_idx_lba : Sim → ℕ → ℕ
zone_idx_lba s idx = u64 (shl (shl idx s.smr_block_size_shift) s.smr_zone_size_shift)

-- `sector >> SMR_BLOCK_SIZE_SHIFT >> SMR_ZONE_SIZE_SHIFT`, stored in a __u32.
unfoldable pub zone_idx_of : Sim → ℕ → ℕ
zone_idx_of s sector = u32 (shr (shr sector s.smr_block_size_shift) s.smr_zone_size_shift)

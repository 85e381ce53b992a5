-- ===== src/Types.antt =====
-- source/smrsim_kmod/smrsim_types.h and smrsim_zerror.h: the structures, and the codes that the
-- functions return.
pub mod Cond
pub mod Kind
pub mod Cross
use Prim.Native.Nat.{ℕ, ◌-◌, ◌^◌}

pub record ZoneStatus : Type 0 where
  pub z_start : ℕ
  pub z_length : ℕ
  pub z_write_ptr_offset : ℕ
  pub z_checkpoint_offset : ℕ
  pub z_conds : ℕ
  pub z_type : ℕ
  pub z_flag : ℕ

-- `struct smrsim_zone_stats`: two counters of reads, three of writes.
pub record ZoneStats : Type 0 where
  pub beyond_swp_count : ℕ
  pub read_span_zones_count : ℕ
  pub not_on_swp_count : ℕ
  pub write_span_zones_count : ℕ
  pub unaligned_count : ℕ

pub record IdleStats : Type 0 where
  pub dev_idle_time_max : ℕ
  pub dev_idle_time_min : ℕ

pub record StateHeader : Type 0 where
  pub magic : ℕ
  pub length : ℕ
  pub version : ℕ
  pub crc32 : ℕ

pub record DevConfig : Type 0 where
  pub out_of_policy_read_flag : ℕ
  pub out_of_policy_write_flag : ℕ
  pub r_time_to_rmw_zone : ℕ
  pub w_time_to_rmw_zone : ℕ

-- The codes of smrsim_zerror.h and the kernel's error numbers; `success` is 0.
pub data Code : Type 0 where
  success : Code
  err_read_border err_read_pointer : Code
  err_write_ro err_write_full err_write_border err_write_pointer err_write_align : Code
  err_out_range err_out_of_policy err_zone_offline dm_io_err : Code
  einval enomem efault eagain : Code

pub Code-discrete : Discrete Code
Code-discrete = hlevel

-- The debug error as the __u32 that `smrsim_log_error` stores.
unfoldable pub code_u32 : Code → ℕ
code_u32 success = 0
code_u32 err_read_border = 2 ^ 32 - 200
code_u32 err_read_pointer = 2 ^ 32 - 202
code_u32 err_write_ro = 2 ^ 32 - 220
code_u32 err_write_full = 2 ^ 32 - 224
code_u32 err_write_border = 2 ^ 32 - 226
code_u32 err_write_pointer = 2 ^ 32 - 228
code_u32 err_write_align = 2 ^ 32 - 230
code_u32 err_out_range = 2 ^ 32 - 240
code_u32 err_out_of_policy = 2 ^ 32 - 242
code_u32 err_zone_offline = 2 ^ 32 - 244
code_u32 dm_io_err = 2 ^ 32 - 246
code_u32 einval = 2 ^ 32 - 22
code_u32 enomem = 2 ^ 32 - 12
code_u32 efault = 2 ^ 32 - 14
code_u32 eagain = 2 ^ 32 - 11

pub data Dir : Type 0 where
  read write : Dir

-- What the driver reads of the kernel's `struct bio`: the start sector, the size in bytes
-- (`bi_size`), the sectors that `bio_sectors` counts, and the direction.
pub record Bio : Type 0 where
  pub bi_sector : ℕ
  pub bi_size : ℕ
  pub bio_sectors : ℕ
  pub bio_dir : Dir

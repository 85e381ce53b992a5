-- ===== src/Drive.antt =====
-- What a user sees of the device through the commands of smrsim_ioctl: the zones and their
-- counters as lists, the configuration and the errors, without the object, its memory and its room,
-- the background task, or any width of a number. The calls behind the commands are those that
-- source/smrsim_kmod/smrsim_kapi.h documents.
pub mod Obey
pub mod Lists
pub mod View
pub mod Table
pub mod Modify
pub mod Mark
pub mod Format
pub mod Fresh
pub mod Found
pub mod Ends
pub mod Plain
pub mod Counters
pub mod Refines
use smr_simulator.Base.{ℕ, List}
use smr_simulator.Types.{ZoneStatus, ZoneStats, IdleStats, DevConfig, Code}
use smr_simulator.Ioctl.{Reply}

-- `zone_size` is in sectors; `default_zones` is the number of zones of the default size.
pub record Drive : Type 0 where
  pub capacity : ℕ
  pub default_zones : ℕ
  pub zone_size : ℕ
  pub zones : List ZoneStatus
  pub counters : List ZoneStats
  pub device : DevConfig
  pub idle : IdleStats
  pub read_error : ℕ
  pub write_error : ℕ
  pub log_enabled : ℕ
  pub reset_option : ℕ
  pub adjust_option : ℕ

-- What a command gives to the user, and the drive after it.
pub record Obeyed : Type 0 where
  pub code : Code
  pub reply : Reply
  pub drive : Drive

-- ===== src/Examples/Device.antt =====
-- A device of four zones of 32 sectors: a conventional one, one with a block written, an empty one,
-- and a conventional one.
use smr_simulator.Base.{ℕ, refl, arith, false, List, [], ◌∷◌, replicate, ◌≤◌, ◌<◌}
use smr_simulator.Types.Cond
use smr_simulator.Types.Kind
use smr_simulator.Types.{ZoneStatus, Bio, Dir}
use smr_simulator.State.{Sim, live, PstoreTask, zone_at, stats_at}
use smr_simulator.Pstore.Spread.{IsSpread}
use smr_simulator.State.Geometry.{IsValid}
use smr_simulator.Init.{zero_stats}
use smr_simulator.Rules.Aims.{Aims}
use smr_simulator.Map.{Target}

abbrev pub zone : ℕ → ℕ → ℕ → ℕ → ZoneStatus
zone i kind cond wp = record {
  z_start = i;
  z_length = 32;
  z_write_ptr_offset = wp;
  z_checkpoint_offset = 0;
  z_conds = cond;
  z_type = kind;
  z_flag = 0;
}

abbrev pub half_written : ZoneStatus
half_written = zone 1 Kind.sequential Cond.closed 8

abbrev pub zones : List ZoneStatus
zones =
    zone 0 Kind.conventional Cond.no_wp 0
    ∷ half_written
    ∷ zone 2 Kind.sequential Cond.empty 0
    ∷ zone 3 Kind.conventional Cond.no_wp 0
    ∷ []

abbrev pub task : PstoreTask
task = record {
  sts_zone_idx = 0;
  stu_zone_idx = replicate 128 0;
  stu_zone_idx_cnt = 0;
  stu_zone_idx_gap = 0;
  pstore_lba = 128;
  flag = record { config_change = false; stats_change = false; status_change = false };
}

abbrev pub device : Sim
device = record {
  smr_capacity = 128;
  smr_numzones = 4;
  smr_numzones_default = 0;
  smr_zone_size_shift = 2;
  smr_block_size_shift = 3;
  memory = live;
  header = record { magic = 0xBEEFBEEF; length = 220; version = 0x10000; crc32 = 0 };
  dev_config = record {
    out_of_policy_read_flag = 0;
    out_of_policy_write_flag = 0;
    r_time_to_rmw_zone = 4000;
    w_time_to_rmw_zone = 4000;
  };
  idle_stats = record { dev_idle_time_max = 0; dev_idle_time_min = 0 };
  num_zones = 4;
  zone_stats = replicate 4 zero_stats;
  zone_status = zones;
  dbg_rerr = 0;
  dbg_werr = 0;
  dbg_log_enabled = 1;
  dev_idle_checkpoint = 0;
  wp_reset_flag = 0;
  wp_adjust_flag = 0;
  wp_reset_cnt = 0;
  wp_adjust_cnt = 0;
  ptask = task;
}

pub task-IsSpread : IsSpread task
task-IsSpread = record { queue = record { room = refl; used = omega arith }; spread = tt }

pub device-IsValid : IsValid device
device-IsValid = record {
  is_allocated = refl;
  block_shift = refl;
  zone_shift = omega arith;
  fits = omega arith;
  small = omega arith;
  status_room = omega arith;
  stats_room = refl;
  counted = refl;
  defaults = omega arith;
  queue = task-IsSpread;
  object = omega arith;
  sized = refl;
}

abbrev pub target : Target
target = record { start = 2048; dm_target_offset = λ x. x }

-- A block at a sector.
abbrev pub block_at : Dir → ℕ → Bio
block_at d x = record { bi_sector = x; bi_size = 4096; bio_sectors = 8; bio_dir = d }

pub block-Aims :
    (d : Dir) (x : ℕ) → 32 ≤ x → x < 64 → Aims device (block_at d x) 1 half_written zero_stats
unfolding zone_at stats_at
block-Aims d x h₁ h₂ = record {
  valid = device-IsValid;
  in_table = omega arith;
  starts = omega arith;
  starts_in = omega arith;
  ends = omega arith;
  pointer = omega arith;
  zone = refl;
  stats = refl;
}

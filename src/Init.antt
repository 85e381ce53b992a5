-- ===== src/Init.antt =====
-- dm-smrsim.c, smrsim_stats_size to smrsim_init_zone_state: the sizes of the object, and its first
-- contents. The result of `vzalloc` is an argument: whether it returned memory.
pub mod Power
pub mod Layout
use smr_simulator.Base.{
  ℕ, zero, suc, ◌+◌, ◌-◌, ◌*◌, ◌/◌, Bool, true, false, ◌&&◌, ◌||◌, if◌then◌else◌, ltb, leb, ◌==◌,
  u32, shr, List, [], ◌∷◌, replicate, Option, some, none,
}
use smr_simulator.Types.Cond
use smr_simulator.Types.Kind
use smr_simulator.Types.{ZoneStatus, ZoneStats, Code, success, einval, enomem}
use smr_simulator.State.{Sim, Memory, live, null, freed, num_sectors_zone, deref}
use smr_simulator.Faults.{◌>>=◌}
use smr_simulator.Idle.{dev_idle_init}

abbrev pub zone_size_shift_default : ℕ
zone_size_shift_default = 16

abbrev pub block_size_shift_default : ℕ
block_size_shift_default = 3

abbrev pub out_of_policy_penalty : ℕ
out_of_policy_penalty = 4000

-- The sizes of the structures in bytes.
abbrev pub sizeof_header : ℕ
sizeof_header = 16

abbrev pub sizeof_config : ℕ
sizeof_config = 12

abbrev pub sizeof_dev_stats : ℕ
sizeof_dev_stats = 8

abbrev pub sizeof_zone_stats : ℕ
sizeof_zone_stats = 20

abbrev pub sizeof_zone_status : ℕ
sizeof_zone_status = 24

unfoldable pub stats_size : Sim → ℕ
stats_size s = u32 (sizeof_dev_stats + 4 + sizeof_zone_stats * s.smr_numzones)

unfoldable pub state_size : Sim → ℕ
state_size s = u32 (
    sizeof_header
    + sizeof_config
    + sizeof_dev_stats
    + 4
    + s.smr_numzones * sizeof_zone_stats
    + s.smr_numzones * sizeof_zone_status
    + 4)

-- The loop of `index_power_of_2`, `while (num >>= 1) index++`. A __u64 is 0 after 64 rounds.
unfoldable pub index_loop : ℕ → ℕ → ℕ → ℕ
index_loop zero num index = index
index_loop (suc fuel) num index =
    let rest = index_loop fuel (num / 2) (index + 1) in if num / 2 == 0 then index else rest

unfoldable pub index_power_of_2 : ℕ → ℕ
index_power_of_2 num = index_loop 64 num 0

unfoldable pub init_zone_default : Sim → ℕ → Sim
init_zone_default s sizedev = record s {
  smr_capacity = sizedev;
  smr_zone_size_shift = zone_size_shift_default;
  smr_block_size_shift = block_size_shift_default;
  smr_numzones = u32 (shr (shr sizedev block_size_shift_default) zone_size_shift_default);
  smr_numzones_default = u32 (shr (shr sizedev block_size_shift_default) zone_size_shift_default);
}

-- `(SMR_NUMZONES > 1) && (!i || (SMR_NUMZONES-1) == i)`
abbrev pub at_edge : ℕ → ℕ → Bool
at_edge n i = ltb 1 n && (i == 0 || n - 1 == i)

unfoldable pub initial_zone : Sim → ℕ → ZoneStatus
initial_zone s i = record {
  z_start = i;
  z_length = num_sectors_zone s;
  z_write_ptr_offset = 0;
  z_checkpoint_offset = 0;
  z_conds = if at_edge s.smr_numzones i then Cond.no_wp else Cond.empty;
  z_type = if at_edge s.smr_numzones i then Kind.conventional else Kind.sequential;
  z_flag = 0;
}

-- The loop of `smrsim_init_zone_status`, by the rounds left.
unfoldable pub init_zones : Sim → ℕ → ℕ → List ZoneStatus
init_zones s zero i = []
init_zones s (suc n) i = initial_zone s i ∷ init_zones s n (i + 1)

abbrev pub zero_stats : ZoneStats
zero_stats = record {
  beyond_swp_count = 0;
  read_span_zones_count = 0;
  not_on_swp_count = 0;
  write_span_zones_count = 0;
  unaligned_count = 0;
}

abbrev pub magic_word : ℕ
magic_word = 0xBEEFBEEF

-- What `smrsim_init_zone_state_default` writes to a new object of `bytes` bytes.
unfoldable pub default_state : Sim → ℕ → Sim
default_state s bytes = record s {
  memory = live;
  header = record { magic = magic_word; length = bytes; version = 0x10000; crc32 = 0 };
  dev_config = record {
    out_of_policy_read_flag = 0;
    out_of_policy_write_flag = 0;
    r_time_to_rmw_zone = out_of_policy_penalty;
    w_time_to_rmw_zone = out_of_policy_penalty;
  };
  num_zones = s.smr_numzones;
  idle_stats = record { dev_idle_time_max = 0; dev_idle_time_min = 0 };
  zone_stats = replicate s.smr_numzones zero_stats;
  zone_status = init_zones s s.smr_numzones 0;
}

-- The words and arrays end with the second magic word, `44 * SMR_NUMZONES + 44` bytes from the
-- start; past the end of the object a write is a fault.
unfoldable pub init_zone_state_default : Sim → ℕ → Option Sim
init_zone_state_default s bytes =
    if leb (44 * s.smr_numzones + 44) bytes then some (default_state s bytes) else none

-- `if (zone_state) vfree(zone_state)` of an object that was freed is a fault.
abbrev pub is_freed : Memory → Bool
is_freed null = false
is_freed live = false
is_freed freed = true

-- What `vfree` leaves of the object; a null pointer stays one.
abbrev pub vfreed : Memory → Memory
vfreed null = null
vfreed live = freed
vfreed freed = freed

unfoldable pub init_zone_state : Sim → ℕ → Bool → ℕ → ℕ → Option (Code × Sim)
init_zone_state s sizedev allocated jiffies hz =
    if sizedev == 0
    then some (einval, s)
    else if is_freed s.memory
    then none
    else (let s₁ = init_zone_default s sizedev in
        if allocated
        then (do
          s₂ ← init_zone_state_default s₁ (state_size s₁)
          s₃ ← dev_idle_init s₂ jiffies hz
          some (success, s₃))
        else some (enomem, record s₁ { memory = null }))

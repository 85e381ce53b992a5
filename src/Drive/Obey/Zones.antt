-- ===== src/Drive/Obey/Zones.antt =====
-- What the commands on zones require and do.
use smr_simulator.Base.{
  ℕ, zero, suc, ◌+◌, ◌-◌, Bool, true, false, not, ◌&&◌, ◌||◌, if◌then◌else◌, ltb, leb, ◌==◌, sub32,
  List, [], ◌∷◌, length, replicate,
}
use smr_simulator.Types.Cond
use smr_simulator.Types.Kind
use smr_simulator.Types.{ZoneStatus, ZoneStats, DevConfig}
use smr_simulator.Query.{
  Criteria, free_sectors, match_all, match_full, match_nfull, match_free, match_rnly, match_offl,
  unknown,
}
use smr_simulator.Drive.{Drive}

abbrev pub untouched : ZoneStats
untouched = record {
  beyond_swp_count = 0;
  read_span_zones_count = 0;
  not_on_swp_count = 0;
  write_span_zones_count = 0;
  unaligned_count = 0;
}

abbrev pub default_device : DevConfig
default_device = record {
  out_of_policy_read_flag = 0;
  out_of_policy_write_flag = 0;
  r_time_to_rmw_zone = 4000;
  w_time_to_rmw_zone = 4000;
}

-- Zone `i` of a new table of `n` zones: the first and the last are conventional, if there are two.
abbrev pub new_zone : ℕ → ℕ → ℕ → ZoneStatus
new_zone size n i =
    let edge = ltb 1 n && (i == 0 || i + 1 == n) in
    record {
      z_start = i;
      z_length = size;
      z_write_ptr_offset = 0;
      z_checkpoint_offset = 0;
      z_conds = if edge then Cond.no_wp else Cond.empty;
      z_type = if edge then Kind.conventional else Kind.sequential;
      z_flag = 0;
    }

-- The last `left` zones of such a table.
unfoldable pub new_zones : ℕ → ℕ → ℕ → List ZoneStatus
new_zones size n zero = []
new_zones size n (suc left) = new_zone size n (n - suc left) ∷ new_zones size n left

-- A new table of `n` zones: the counters, the idle time and the device's configuration go back to
-- their defaults as well.
unfoldable pub formatted : Drive → ℕ → ℕ → Drive
unfolding new_zones
formatted d size n = record d {
  zone_size = size;
  zones = new_zones size n n;
  counters = replicate n untouched;
  device = default_device;
  idle = record { dev_idle_time_max = 0; dev_idle_time_min = 0 };
}

-- A zone can be added if it continues the table, the number of zones is below that of the default
-- size, its condition is the first one of its type, and it has the size of the zones.
unfoldable pub can_add : Drive → ZoneStatus → Bool
can_add d z =
    z.z_start == length d.zones
    && ltb (length d.zones) d.default_zones
    && (z.z_type == Kind.conventional && z.z_conds == Cond.no_wp
        || z.z_type == Kind.sequential && z.z_conds == Cond.empty)
    && z.z_length == d.zone_size
    && z.z_write_ptr_offset == 0

abbrev pub is_sequential : ZoneStatus → Bool
is_sequential z = z.z_type == Kind.sequential

unfoldable pub count_sequential : List ZoneStatus → ℕ
count_sequential [] = 0
count_sequential (z ∷ zs) =
    let rest = count_sequential zs in if is_sequential z then suc rest else rest

abbrev pub is_condition : ℕ → Bool
is_condition c =
    c == Cond.no_wp
    || c == Cond.empty
    || c == Cond.closed
    || c == Cond.read_only
    || c == Cond.full
    || c == Cond.offline

-- A zone `old` can become `z` if that leaves a sequential zone, keeps the size, sets a pointer in
-- the zone, at its end only for a full zone, a checkpoint before it, and a condition that goes with
-- the type and the pointer.
unfoldable pub can_modify : Drive → ZoneStatus → ZoneStatus → Bool
unfolding count_sequential
can_modify d old z =
    (ltb 1 (count_sequential d.zones)
      || not (is_sequential old)
      || not (z.z_type == Kind.conventional))
    && z.z_length == d.zone_size
    && (ltb z.z_write_ptr_offset d.zone_size
        || z.z_write_ptr_offset == d.zone_size && old.z_conds == Cond.full)
    && ltb z.z_checkpoint_offset d.zone_size
    && is_condition z.z_conds
    && (not (z.z_conds == Cond.no_wp) || z.z_type == Kind.conventional)
    && (not (z.z_conds == Cond.empty) || not (is_sequential z) || z.z_write_ptr_offset == 0)

-- A query's test of a zone.
abbrev pub wanted : ℕ → Criteria → ZoneStatus → Bool
wanted size (free_sectors n) z = leb n (sub32 size z.z_write_ptr_offset)
wanted size match_all z = true
wanted size match_full z = z.z_conds == Cond.full
wanted size match_nfull z = z.z_conds == Cond.closed && not (z.z_write_ptr_offset == 0)
wanted size match_free z = z.z_conds == Cond.empty
wanted size match_rnly z = z.z_conds == Cond.read_only
wanted size match_offl z = z.z_conds == Cond.offline
wanted size unknown z = false

-- ===== src/Rules/HostRead.antt =====
-- Reads, under every policy, against the rules of a host-managed drive.
use smr_simulator.Base.{
  ℕ, ◌+◌, ◌*◌, ◌≡◌, sym, ◌∙◌, arith, some, Bool, if◌then◌else◌, ◌==◌, ltb, set, set-set, set_self,
  u32, not, ◌&&◌, ◌||◌, get_elem?-set_self, get_elem?-lt, length-set,
}
use smr_simulator.Types.Kind
use smr_simulator.Types.{
  ZoneStatus, ZoneStats, Code, success, err_read_border, err_read_pointer, err_out_of_policy, Bio,
  code_u32,
}
use smr_simulator.State.{Sim, zone_at, stats_at}
use smr_simulator.State.Geometry.{size_of}
use smr_simulator.State.Access.{modify_stats-some, stats_at-live}
use smr_simulator.Exit.{ret, next}
use smr_simulator.Rules.Log.{log_error, log_code}
use smr_simulator.Rules.Aims.{Aims, Aims-Sizes}
use smr_simulator.Rules.Read.{
  read_border, read_pointer, read_rule_check, count_read_span, count_beyond_swp,
}

-- The read leaves its zone.
abbrev pub leaves_zone : Sim → Bio → ℕ → Bool
leaves_zone s b i = ltb (i * size_of s + size_of s) (b.bi_sector + b.bio_sectors)

-- It goes past the write pointer of a zone that has one.
abbrev pub passes_pointer : Sim → Bio → ℕ → ZoneStatus → Bool
passes_pointer s b i z =
    not (z.z_type == Kind.conventional)
    && ltb (i * size_of s + z.z_write_ptr_offset) (b.bi_sector + b.bio_sectors)

unfoldable pub host_read_code : Sim → Bio → ℕ → ZoneStatus → ℕ → Code
host_read_code s b i z policy =
    if policy == 0
    then (if leaves_zone s b i
        then err_read_border
        else if passes_pointer s b i z
        then err_read_pointer
        else success)
    else if leaves_zone s b i || passes_pointer s b i z
    then err_out_of_policy
    else success

-- The default policy stops at the first violation, so the second is not counted.
abbrev pub counts_pointer : Sim → Bio → ℕ → ZoneStatus → ℕ → Bool
counts_pointer s b i z policy = passes_pointer s b i z && not (leaves_zone s b i && policy == 0)

abbrev pub host_read_stats : Sim → Bio → ℕ → ZoneStatus → ZoneStats → ℕ → ZoneStats
host_read_stats s b i z t policy = record t {
  read_span_zones_count =
      if leaves_zone s b i then u32 (t.read_span_zones_count + 1) else t.read_span_zones_count;
  beyond_swp_count =
      if counts_pointer s b i z policy then u32 (t.beyond_swp_count + 1) else t.beyond_swp_count;
}

abbrev pub host_read_error : Sim → Bio → ℕ → ZoneStatus → ℕ → ℕ
host_read_error s b i z policy =
    if s.dbg_log_enabled == 0
    then s.dbg_rerr
    else if counts_pointer s b i z policy
    then code_u32 err_read_pointer
    else if leaves_zone s b i
    then code_u32 err_read_border
    else s.dbg_rerr

abbrev border_error : Sim → ℕ
border_error s = if s.dbg_log_enabled == 0 then s.dbg_rerr else code_u32 err_read_border

abbrev pointer_error : Sim → ℕ
pointer_error s = if s.dbg_log_enabled == 0 then s.dbg_rerr else code_u32 err_read_pointer

abbrev with_stats : Sim → ℕ → ZoneStats → ℕ → Sim
with_stats s i u r = record s { zone_stats = set s.zone_stats i u; dbg_rerr = r }

module _ {s : Sim} {b : Bio} {i : ℕ} {z : ZoneStatus} {t : ZoneStats} (a : Aims s b i z t) where
  with_stats-Aims : (u : ZoneStats) (r : ℕ) → Aims (with_stats s i u r) b i z u
  unfolding zone_at stats_at
  with_stats-Aims u r = record {
    valid = record {
      is_allocated = a.valid.is_allocated;
      block_shift = a.valid.block_shift;
      zone_shift = a.valid.zone_shift;
      fits = a.valid.fits;
      small = a.valid.small;
      status_room = a.valid.status_room;
      stats_room = omega (arith, a.valid, length-set s.zone_stats i u);
      counted = a.valid.counted;
      defaults = a.valid.defaults;
      queue = a.valid.queue;
      object = a.valid.object;
      sized = a.valid.sized;
    };
    in_table = a.in_table;
    starts = a.starts;
    starts_in = a.starts_in;
    ends = a.ends;
    pointer = a.pointer;
    zone = a.zone;
    stats = ground (
      arith,
      a.valid.is_allocated,
      get_elem?-set_self s.zone_stats i u
          (get_elem?-lt s.zone_stats i (sym (stats_at-live s i a.valid.is_allocated) ∙ a.stats)),
    );
  }

  border_cases :
      (policy : ℕ)
      → read_border s b i policy ≡ (
          if leaves_zone s b i
          then (if policy == 0
              then ret err_read_border (with_stats s i (count_read_span t) (border_error s))
              else next (1, with_stats s i (count_read_span t) (border_error s)))
          else next (0, s))
  unfolding read_border log_error log_code
  border_cases policy = ground (arith, Aims-Sizes a, modify_stats-some s i count_read_span a.stats)

  pointer_cases :
      (policy rv : ℕ)
      → read_pointer s b i policy rv ≡ (
          if passes_pointer s b i z
          then (if policy == 0
              then ret err_read_pointer (with_stats s i (count_beyond_swp t) (pointer_error s))
              else next (rv + 1, with_stats s i (count_beyond_swp t) (pointer_error s)))
          else next (rv, s))
  unfolding read_pointer log_error log_code
  pointer_cases policy rv =
      ground (arith, Aims-Sizes a, modify_stats-some s i count_beyond_swp a.stats)

-- For a request to a zone of the table (`Aims`): under any policy a read gets the code
-- of the first rule that it breaks (policy 0), or the code of a request out of policy if it breaks
-- one (any other policy), or success. No zone changes: of the state only the two read counters of
-- its zone and, with the log on, the debug read error do.
pub read_rule_check-host :
    {s : Sim} {b : Bio} {i : ℕ} {z : ZoneStatus} {t : ZoneStats}
    → Aims s b i z t
    → (policy : ℕ)
    → read_rule_check s b i policy
      ≡ some (
        host_read_code s b i z policy,
        with_stats s i (host_read_stats s b i z t policy) (host_read_error s b i z policy),
      )
unfolding read_rule_check host_read_code
read_rule_check-host {s} {b} {i} {z} {t} a policy = ground (
  arith,
  border_cases a policy,
  pointer_cases a policy 0,
  pointer_cases (with_stats-Aims a (count_read_span t) (border_error s)) policy 1,
  set_self s.zone_stats i t (sym (stats_at-live s i a.valid.is_allocated) ∙ a.stats),
  set-set s.zone_stats i (count_read_span t) (record t {
    read_span_zones_count = u32 (t.read_span_zones_count + 1);
    beyond_swp_count = u32 (t.beyond_swp_count + 1);
  }),
)

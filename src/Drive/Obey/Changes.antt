-- ===== src/Drive/Obey/Changes.antt =====
-- Commands that look at a zone first, and queries.
use smr_simulator.Base.{
  ℕ, ◌-◌, ◌/◌, ◌%◌, Bool, true, false, not, ◌||◌, if◌then◌else◌, ◌==◌, List, [], ◌∷◌, length, take,
  drop, set, get_elem?, Option, none, some,
}
use smr_simulator.Types.Cond
use smr_simulator.Types.Kind
use smr_simulator.Types.Cross
use smr_simulator.Types.{ZoneStatus, success}
use smr_simulator.Query.{Criteria, unknown, Answer}
use smr_simulator.Query.Spec.{keep, window}
use smr_simulator.Ioctl.{ZbcQuery}
use smr_simulator.Drive.{Drive, Obeyed}
use smr_simulator.Drive.Obey.Answers.{ok, fails}
use smr_simulator.Drive.Obey.Zones.{is_sequential, can_modify, wanted}

abbrev pub is_unknown : Criteria → Bool
is_unknown unknown = true
is_unknown _ = false

-- The answer to a query that starts at zone `i`. An unknown criterion is answered as if it were
-- met, by no zone.
unfoldable pub found : Drive → ZbcQuery → ℕ → Answer
found d q i =
    if is_unknown q.criteria
    then record { code = success; copied = []; count = q.num_zones }
    else (let met = take q.num_zones (
          keep (wanted d.zone_size q.criteria)
            (take (window q.criteria q.num_zones (length d.zones - i)) (drop i d.zones))) in
        record { code = success; copied = met; count = length met })

-- A change of the zone at the start of which the sector lies.
unfoldable pub rewind_at : Drive → ℕ → Option ZoneStatus → Obeyed
rewind_at d x none = fails d
rewind_at d x (some z) =
    if z.z_type == Kind.conventional || not (x % d.zone_size == 0)
    then fails d
    else ok (record d {
      zones = set d.zones (x / d.zone_size) (record z {
        z_write_ptr_offset = 0;
        z_conds = if is_sequential z then Cond.empty else z.z_conds;
      });
    })

unfoldable pub modify_at : Drive → ZoneStatus → Option ZoneStatus → Obeyed
unfolding can_modify
modify_at d z none = fails d
modify_at d z (some old) =
    if can_modify d old z
    then ok (record d {
      zones =
          set d.zones z.z_start
            (record z { z_start = old.z_start; z_length = old.z_length; z_flag = 0 });
    })
    else fails d

-- Whether requests may cross the borders of zones: a mark in the zones.
abbrev pub mark : ℕ → ZoneStatus → ZoneStatus
mark code z = record z { z_flag = code }

abbrev pub mark_sequential : ℕ → ZoneStatus → ZoneStatus
mark_sequential code z = if is_sequential z then mark code z else z

abbrev pub each : (ZoneStatus → ZoneStatus) → List ZoneStatus → List ZoneStatus
each f [] = []
each f (z ∷ zs) = f z ∷ each f zs

unfoldable pub mark_at : Drive → ℕ → ℕ → Option ZoneStatus → Obeyed
mark_at d code i none = ok d
mark_at d code i (some z) = ok (record d { zones = set d.zones i (mark code z) })

unfoldable pub marked : Drive → ℕ → ℕ → Obeyed
unfolding mark_at
marked d code i =
    if code == Cross.cur
    then mark_at d code i (get_elem? d.zones i)
    else if code == Cross.off
    then ok (record d { zones = each (mark code) d.zones })
    else if code == Cross.seq
    then ok (record d { zones = each (mark_sequential code) d.zones })
    else ok d

abbrev pub penalty_limit : ℕ
penalty_limit = 10000

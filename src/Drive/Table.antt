-- ===== src/Drive/Table.antt =====
-- The commands that change the table of zones: the reset of a zone, and clearing, adding and
-- modifying zones.
use smr_simulator.Base.{
  ℕ, suc, ◌+◌, ◌/◌, ◌≡◌, ◌<◌, ◌≤◌, sym, ap, arith, not, [], ◌∷◌, ◌++◌, none, some, take, set,
  length, if◌then◌else◌, ◌∙◌, get_elem?, inl, inr, Bool-cases, true, false, ◌⊎◌,
}
use native.Mathlib.Decide.{dec_lt}
use smr_simulator.Types.{ZoneStatus, success, einval}
use smr_simulator.State.{Sim, zone_at}
use smr_simulator.State.Geometry.{IsValid, zone_idx_of-div, size_of, num_sectors_zone-size}
use smr_simulator.State.Access.{zone_at-valid, zone_at-live, modify_zone-some, set_zone-IsValid}
use smr_simulator.Config.Stats.{blkdev_reset_zone_ptr, rewind}
use smr_simulator.Config.Zones.{clear_zone_config, add_zone_config, add_rejects}
use smr_simulator.Config.Zones.Table.{
  cleared, cleared-IsValid, clear_zone_config-cleared, added, added-IsValid, add_zone_config_lem,
}
use smr_simulator.Drive.Obey.{ok, fails, untouched, rewind_at, can_add}
use smr_simulator.Drive.Lists.{
  RestIs-cleared, RestIs-suc, take-set, take_next, take-set_next, length-take, get_elem?-take,
  get_elem?-take_past,
}
use smr_simulator.Drive.View.{view, IsTidy}
use smr_simulator.Drive.Ends.{Calls}

-- A zone of the view is the one in the table.
pub view-zone :
    {s : Sim} {z : ZoneStatus} (i : ℕ)
    → IsValid s
    → i < s.smr_numzones
    → zone_at s i ≡ some z
    → get_elem? (view s).zones i ≡ some z
unfolding view
view-zone {s} i v h e =
    get_elem?-take s.smr_numzones s.zone_status i h ∙ sym (zone_at-live s i v.is_allocated) ∙ e

pub view-no_zone : (s : Sim) (i : ℕ) → s.smr_numzones ≤ i → get_elem? (view s).zones i ≡ none
unfolding view
view-no_zone s i h = get_elem?-take_past s.smr_numzones s.zone_status i h

module _ {s : Sim} (v : IsValid s) where
  can_add-rejects : (z : ZoneStatus) → can_add (view s) z ≡ not (add_rejects s z)
  unfolding can_add add_rejects view
  can_add-rejects z =
      ground
        (arith, length-take s.smr_numzones s.zone_status v.status_room, num_sectors_zone-size v)

  -- In a valid state a zone that cannot be added (`can_add`: it continues the table, the table has
  -- less zones than the default size gives, its condition is the first one of its type, it has the
  -- size of the zones and its pointer is 0) is refused and nothing changes. One that can is the last
  -- zone afterwards, with no flag, nothing else changes and the state stays valid, if there is room in
  -- the table; without room its entry is written past the end of the object.
  pub add_zone_config-can_add :
      (z : ZoneStatus)
      → ((can_add (view s) z ≡ false) × (add_zone_config s (some z) ≡ some (einval, s)))
        ⊎ ((can_add (view s) z ≡ true)
            × (s.smr_numzones < length s.zone_status)
            × (add_zone_config s (some z)
                ≡ some (
                  success,
                  record s {
                    zone_status = set s.zone_status s.smr_numzones (record z { z_flag = 0 });
                    num_zones = s.smr_numzones + 1;
                    smr_numzones = s.smr_numzones + 1;
                  },
                ))
            × IsValid (added s z))
        ⊎ ((can_add (view s) z ≡ true)
            × (length s.zone_status ≤ s.smr_numzones)
            × (add_zone_config s (some z) ≡ none))
  add_zone_config-can_add z =
      let (refused, accepted, overrun) = add_zone_config_lem v z in
      let same = can_add-rejects z in
      elim (Bool-cases (add_rejects s z)) [
        | inl bad ↦ inl (ground (arith, same), refused bad)
        | inr good ↦ elim (dec_lt s.smr_numzones (length s.zone_status)) [
          | yes h ↦ inr (inl (ground (arith, same), h, (accepted good h).0, (accepted good h).1))
          | no h ↦ inr (inr (ground (arith, same), omega arith, overrun good (omega arith)))
        ]
      ]

module _ {s : Sim} (t : IsTidy s) where
  pub zone-IsTidy :
      (i : ℕ) (z : ZoneStatus) → IsTidy (record s { zone_status = set s.zone_status i z })
  zone-IsTidy i z = record { valid = set_zone-IsValid i z t.valid; rest = t.rest }

  pub view-set :
      (i : ℕ) (z : ZoneStatus)
      → view (record s { zone_status = set s.zone_status i z })
        ≡ record (view s) { zones = set (view s).zones i z }
  unfolding view
  view-set i z =
      ap (λ zs. record (view s) { zones = zs }) (take-set s.smr_numzones s.zone_status i z)

  pub reset_zone_ptr-Calls :
      (x : ℕ)
      → x ≤ s.smr_capacity
      → Calls
          (rewind_at (view s) x (get_elem? (view s).zones (x / (view s).zone_size)))
          (blkdev_reset_zone_ptr s x)
  unfolding blkdev_reset_zone_ptr rewind_at view
  reset_zone_ptr-Calls x inside =
      let index = zone_idx_of-div x t.valid inside in
      elim (dec_lt (x / size_of s) s.smr_numzones) [
        | no out ↦ ground (arith, t, index, view-no_zone s (x / size_of s) (omega arith))
        | yes h ↦
            let (z, e) = zone_at-valid (x / size_of s) t.valid h in
            ground (
              arith,
              t,
              index,
              num_sectors_zone-size t.valid,
              e,
              view-zone (x / size_of s) t.valid h e,
              modify_zone-some s (x / size_of s) rewind e,
              view-set (x / size_of s) (rewind z),
              zone-IsTidy (x / size_of s) (rewind z),
            )
      ]

  cleared-IsTidy : IsTidy (cleared s)
  cleared-IsTidy =
      let room : s.num_zones ≤ length s.zone_stats = omega (arith, t.valid) in
      record {
        valid = cleared-IsValid t.valid;
        rest = RestIs-cleared untouched s.num_zones s.zone_stats room (rw t.valid.counted t.rest);
      }

  pub clear-Calls : Calls (ok (record (view s) { zones = []; counters = [] })) (clear_zone_config s)
  unfolding view
  clear-Calls = ground (arith, clear_zone_config-cleared t.valid, cleared-IsTidy)

  added-IsTidy : (z : ZoneStatus) → s.smr_numzones < length s.zone_status → IsTidy (added s z)
  added-IsTidy z h = record {
    valid = added-IsValid z t.valid h;
    rest = RestIs-suc untouched s.smr_numzones s.zone_stats t.rest;
  }

  added-zones :
      (z : ZoneStatus)
      → s.smr_numzones < length s.zone_status
      → view (added s z) ≡ record (view s) {
        zones = (view s).zones ++ (record z { z_flag = 0 } ∷ []);
        counters = (view s).counters ++ (untouched ∷ []);
      }
  unfolding view
  added-zones z h =
      let next : s.smr_numzones + 1 ≡ suc s.smr_numzones = omega arith in
      let counters : take (s.smr_numzones + 1) s.zone_stats
          ≡ take s.smr_numzones s.zone_stats ++ (untouched ∷ []) =
        rw next (
          take_next s.smr_numzones s.zone_stats untouched
            (t.rest s.smr_numzones (omega arith) (omega (arith, t.valid)))) in
      ground
        (arith, counters, take-set_next s.smr_numzones s.zone_status (record z { z_flag = 0 }) h)

  pub add-Calls :
      (z : ZoneStatus)
      → s.smr_numzones < length s.zone_status
      → Calls
          (if can_add (view s) z
            then ok (record (view s) {
              zones = (view s).zones ++ (record z { z_flag = 0 } ∷ []);
              counters = (view s).counters ++ (untouched ∷ []);
            })
            else fails (view s))
          (add_zone_config s (some z))
  add-Calls z h = elim (Bool-cases (add_rejects s z)) [
    | inl bad ↦ ground (arith, t, can_add-rejects t.valid z, (add_zone_config_lem t.valid z).0 bad)
    | inr good ↦ ground (
      arith,
      can_add-rejects t.valid z,
      ((add_zone_config_lem t.valid z).1 good h).0,
      added-zones z h,
      added-IsTidy z h,
    )
  ]

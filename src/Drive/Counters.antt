-- ===== src/Drive/Counters.antt =====
-- The commands that reset the counters.
use smr_simulator.Base.{
  ℕ, ◌/◌, ◌≡◌, ◌≤◌, arith, ltb, List, drop, replicate, set, length, if◌then◌else◌, length-set,
  length-clear, ◌++◌,
}
use native.Mathlib.Decide.{dec_lt}
use smr_simulator.Types.{ZoneStats}
use smr_simulator.State.{Sim}
use smr_simulator.State.Geometry.{IsValid, zone_idx_of-div, size_of}
use smr_simulator.State.Access.{stats_at-valid, modify_stats-some}
use smr_simulator.Init.{zero_stats}
use smr_simulator.Config.Stats.{reset_stats, reset_zone_stats}
use smr_simulator.Drive.Obey.{ok, fails, untouched}
use smr_simulator.Drive.Lists.{RestIs-set, RestIs-cleared, take-set, take-replicate, length-take}
use smr_simulator.Drive.View.{view, IsTidy}
use smr_simulator.Drive.Ends.{Calls}

-- The zones of the view are counted by SMR_NUMZONES.
pub length-zones : {s : Sim} → IsValid s → length (view s).zones ≡ s.smr_numzones
unfolding view
length-zones {s} v = length-take s.smr_numzones s.zone_status v.status_room

stats-IsValid :
    {s : Sim} (xs : List ZoneStats)
    → IsValid s
    → length xs ≡ length s.zone_stats
    → IsValid (record s { zone_stats = xs })
stats-IsValid xs v e = ground (arith, v)

module _ {s : Sim} (t : IsTidy s) where
  pub reset_zone_stats-Calls :
      (x : ℕ)
      → x ≤ s.smr_capacity
      → Calls
          (if ltb (x / (view s).zone_size) (length (view s).zones)
            then ok (record (view s) {
              counters = set (view s).counters (x / (view s).zone_size) untouched;
            })
            else fails (view s))
          (reset_zone_stats s x)
  unfolding reset_zone_stats view
  reset_zone_stats-Calls x inside =
      let index = zone_idx_of-div x t.valid inside in
      let count = length-take s.smr_numzones s.zone_status t.valid.status_room in
      elim (dec_lt (x / size_of s) s.smr_numzones) [
        | no out ↦ ground (arith, t, index, count)
        | yes h ↦
            let (u, e) = stats_at-valid (x / size_of s) t.valid h in
            let cleared : IsTidy
                (record s { zone_stats = set s.zone_stats (x / size_of s) untouched }) =
              record {
                valid =
                    stats-IsValid (set s.zone_stats (x / size_of s) untouched) t.valid
                      (length-set s.zone_stats (x / size_of s) untouched);
                rest =
                    RestIs-set untouched untouched s.smr_numzones (x / size_of s) s.zone_stats h
                      t.rest;
              } in
            ground (
              arith,
              index,
              count,
              modify_stats-some s (x / size_of s) (λ _. zero_stats) e,
              take-set s.smr_numzones s.zone_stats (x / size_of s) untouched,
              cleared,
            )
      ]

  -- The array of the counters after the first ones were zeroed.
  abbrev zeroed : List ZoneStats
  zeroed = replicate s.smr_numzones untouched ++ drop s.smr_numzones s.zone_stats

  zeroed_stats-IsTidy : IsTidy (record s {
    idle_stats = record { dev_idle_time_max = 0; dev_idle_time_min = 0 };
    zone_stats = zeroed;
  })
  zeroed_stats-IsTidy =
      let room : s.smr_numzones ≤ length s.zone_stats = omega (arith, t.valid) in
      record {
        valid = ground (
          arith,
          stats-IsValid zeroed t.valid (length-clear s.smr_numzones untouched s.zone_stats room),
        );
        rest = λ j l le.
            RestIs-cleared untouched s.smr_numzones s.zone_stats room t.rest j (omega arith) le;
      }

  pub reset_stats-Calls :
      Calls
        (ok (record (view s) {
          idle = record { dev_idle_time_max = 0; dev_idle_time_min = 0 };
          counters = replicate (length (view s).zones) untouched;
        }))
        (reset_stats s)
  unfolding reset_stats view
  reset_stats-Calls =
      let room : s.smr_numzones ≤ length s.zone_stats = omega (arith, t.valid) in
      ground (
        arith,
        t.valid,
        room,
        length-take s.smr_numzones s.zone_status t.valid.status_room,
        take-replicate s.smr_numzones untouched (drop s.smr_numzones s.zone_stats),
        zeroed_stats-IsTidy,
      )

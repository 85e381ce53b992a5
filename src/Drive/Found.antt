-- ===== src/Drive/Found.antt =====
-- IOCTL_SMRSIM_ZBC_QUERY: the zones that a query finds.
use smr_simulator.Base.{
  ℕ, ◌+◌, ◌-◌, ◌/◌, ◌≡◌, ◌≢◌, ◌≤◌, refl, arith, true, false, ltb, ◌==◌, ◌||◌, List, [], ◌∷◌, some,
  length, if◌then◌else◌, inl, inr, take, ◌∙◌,
}
use native.Mathlib.Decide.{dec_lt}
use smr_simulator.Types.{ZoneStatus, Code-discrete, success}
use smr_simulator.State.{Sim, zone_idx_of}
use smr_simulator.State.Geometry.{
  IsValid, size_of, num_sectors_zone-size, zone_idx_of-div, numzones-lt,
}
use smr_simulator.Query.{
  Criteria, matches, query_zones, query_checked, refuse_query, answer, unknown, free_sectors,
  match_all, match_full, match_nfull, match_free, match_rnly, match_offl,
}
use smr_simulator.Query.Spec.{
  keep, window, slice, query_zones_lem, query_zones_refuses, Criteria-cases,
}
use smr_simulator.Faults.{◌>>=◌}
use smr_simulator.Ioctl.{Out, ZbcQuery, zones, ioerr, copy_out}
use smr_simulator.Drive.{Drive}
use smr_simulator.Drive.Lists.{length-take, take-drop}
use smr_simulator.Drive.Obey.{wanted, found, is_unknown, tells, fails}
use smr_simulator.Drive.View.{view, shown, IsTidy}
use smr_simulator.Drive.Ends.{Agrees, copy_out-Agrees}

matches-wanted :
    {s : Sim} → IsValid s → (c : Criteria) (z : ZoneStatus) → matches s c z ≡ wanted (size_of s) c z
unfolding matches
matches-wanted v (free_sectors n) z = rw (num_sectors_zone-size v) refl
matches-wanted v match_all z = refl
matches-wanted v match_full z = refl
matches-wanted v match_nfull z = refl
matches-wanted v match_free z = refl
matches-wanted v match_rnly z = refl
matches-wanted v match_offl z = refl
matches-wanted v unknown z = refl

keep-wanted :
    {s : Sim}
    → IsValid s
    → (c : Criteria) (xs : List ZoneStatus) → keep (matches s c) xs ≡ keep (wanted (size_of s) c) xs
keep-wanted v c [] = refl
keep-wanted v c (x ∷ xs) = rw (matches-wanted v c x, keep-wanted v c xs) refl

window_le : (c : Criteria) (num i n : ℕ) → num + i ≤ n → i + window c num (n - i) ≤ n
window_le (free_sectors k) num i n h = omega arith
window_le match_all num i n h = omega arith
window_le match_full num i n h = omega arith
window_le match_nfull num i n h = omega arith
window_le match_free num i n h = omega arith
window_le match_rnly num i n h = omega arith
window_le match_offl num i n h = omega arith
window_le unknown num i n h = omega arith

known : (c : Criteria) → c ≢ unknown → is_unknown c ≡ false
known (free_sectors k) n = refl
known match_all n = refl
known match_full n = refl
known match_nfull n = refl
known match_free n = refl
known match_rnly n = refl
known match_offl n = refl
known unknown n = absurd (n refl)

found-code : (d : Drive) (q : ZbcQuery) (i : ℕ) → (found d q i).code ≡ success
unfolding found
found-code d q i = ground arith

-- In a valid state a query with a known criterion, from a sector of the device on and for `num`
-- zones, at least one and no more than there are from the zone of the sector on, returns the zones
-- that the criterion wants (`wanted`: full, closed with a written sector, empty, read-only, offline,
-- or with so many sectors left), in their order and `num` at most. A query for a condition looks at
-- all zones up to the last; one for free sectors or for all zones looks at the first `num` only
-- (`window`). Its count is the number of zones returned.
pub query_zones-wanted :
    (s : Sim) (lba num : ℕ) (c : Criteria)
    → IsValid s
    → c ≢ unknown
    → lba ≤ s.smr_capacity
    → num ≢ 0
    → num + lba / size_of s ≤ s.smr_numzones
    → let i = lba / size_of s in
      let met =
        take num (keep (wanted (size_of s) c) (slice s i (window c num (s.smr_numzones - i)))) in
      query_zones s true lba c num
      ≡ some (record { code = success; copied = met; count = length met })
unfolding answer
query_zones-wanted s lba num c v k inside ne h =
    let i = lba / size_of s in
    let index : zone_idx_of s lba ≡ i = zone_idx_of-div lba v inside in
    query_zones_lem s lba num c v k ne (rw index h)
    ∙ rw (index, keep-wanted v c (slice s i (window c num (s.smr_numzones - i)))) refl

module _ {s : Sim} (t : IsTidy s) (q : ZbcQuery) (inside : q.lba ≤ s.smr_capacity) where
  index : zone_idx_of s q.lba ≡ q.lba / size_of s
  index = zone_idx_of-div q.lba t.valid inside

  query-unknown :
      q.criteria ≡ unknown
      → q.num_zones ≢ 0
      → q.num_zones + q.lba / size_of s ≤ s.smr_numzones
      → query_zones s true q.lba q.criteria q.num_zones
        ≡ some (found (view s) q (q.lba / size_of s))
  unfolding found query_zones query_checked
  query-unknown e ne h = ground (arith, index, numzones-lt t.valid)

  query-found :
      q.num_zones ≢ 0
      → q.num_zones + q.lba / size_of s ≤ s.smr_numzones
      → query_zones s true q.lba q.criteria q.num_zones
        ≡ some (found (view s) q (q.lba / size_of s))
  unfolding found view answer
  query-found ne h = elim (Criteria-cases q.criteria) [
    | inl e ↦ query-unknown e ne h
    | inr n ↦
        let i = q.lba / size_of s in
        let w = window q.criteria q.num_zones (s.smr_numzones - i) in
        rw
          (
            known q.criteria n,
            query_zones_lem s q.lba q.num_zones q.criteria t.valid n ne (rw index h),
            index,
            length-take s.smr_numzones s.zone_status t.valid.status_room,
            take-drop w i s.smr_numzones s.zone_status (window_le q.criteria q.num_zones i _ h),
            keep-wanted t.valid q.criteria (slice s i w),
          )
          refl
  ]

  -- The part of the command after its argument was copied.
  pub asked-Agrees :
      (out : Out)
      → Agrees
          (if q.num_zones == 0
              || ltb (length (view s).zones) (q.num_zones + q.lba / (view s).zone_size)
            then fails (view s)
            else tells out (zones (found (view s) q (q.lba / (view s).zone_size))) (view s))
          (if q.num_zones == 0 || ltb s.smr_numzones q.num_zones then ioerr s else (do
            a ← query_zones s true q.lba q.criteria q.num_zones
            elim (Code-discrete a.code success) [
              | yes _ ↦ copy_out out (zones a) s
              | no _ ↦ ioerr s
            ]))
  unfolding shown found view refuse_query
  asked-Agrees out =
      let count = length-take s.smr_numzones s.zone_status t.valid.status_room in
      elim (dec_lt s.smr_numzones (q.num_zones + q.lba / size_of s)) [
        | yes far ↦ elim (dec_lt s.smr_numzones q.num_zones) [
          | yes many ↦ ground (arith, t, count)
          | no few ↦
              let r =
                query_zones_refuses s q.lba q.num_zones q.criteria t.valid (omega arith) inside
                  (inr (rw index far)) in
              ground (arith, t, count, r)
        ]
        | no near ↦ elim (dec_lt 0 q.num_zones) [
          | no nothing ↦ ground (arith, t, count)
          | yes asks ↦
              let a = found (view s) q (q.lba / size_of s) in
              ground (
                arith,
                count,
                query-found (omega arith) (omega arith),
                found-code (view s) q (q.lba / size_of s),
                copy_out-Agrees out (zones a) (view s) t refl,
              )
        ]
      ]

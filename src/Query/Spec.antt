-- ===== src/Query/Spec.antt =====
-- What a query returns, against the list of the zones.
use native.Mathlib.Decide.{dec_lt}
use smr_simulator.Base.{
  inl, inr, ◌||◌, ltb, ◌==◌, Bool-cases, u32, ℕ, zero, suc, ◌+◌, ◌-◌, ◌≡◌, ◌≢◌, ◌<◌, ◌≤◌, refl, ap,
  sym, ◌∙◌, arith, Bool, true, get_elem?, List, [], ◌∷◌, take, take-nil, take-cons, drop, some,
  if◌then◌else◌, ◌⊎◌,
}
use smr_simulator.Types.{ZoneStatus}
use smr_simulator.State.{Sim, zone_idx_of}
use smr_simulator.State.Geometry.{IsValid, numzones-lt, zone_idx_of-le}
use smr_simulator.State.Access.{zone_at-live, zone_at-valid}
use smr_simulator.Types.{success}
use smr_simulator.Query.{
  Answer, match_full, match_nfull, match_free, match_rnly, match_offl, Criteria, unknown,
  free_sectors, match_all, answer, matches, scan_zones, query_checked, query_zones, refuse_query,
}

-- The zones of a list that a test keeps, in order.
abbrev pub keep : (ZoneStatus → Bool) → List ZoneStatus → List ZoneStatus
keep p [] = []
keep p (z ∷ zs) = if p z then z ∷ keep p zs else keep p zs

-- The zones `index`, ..., `index + n - 1` of the table.
abbrev pub slice : Sim → ℕ → ℕ → List ZoneStatus
slice s index n = take n (drop index s.zone_status)

pub drop-cons :
    (xs : List ZoneStatus) (i : ℕ) (z : ZoneStatus)
    → get_elem? xs i ≡ some z
    → drop i xs ≡ z ∷ drop (suc i) xs
drop-cons [] i z e = cc
drop-cons (x ∷ xs) zero z e = cc
drop-cons (x ∷ xs) (suc i) z e = drop-cons xs i z e

pub slice-suc :
    (s : Sim) (index n : ℕ) (z : ZoneStatus)
    → get_elem? s.zone_status index ≡ some z
    → slice s index (suc n) ≡ z ∷ slice s (index + 1) n
slice-suc s index n z e =
    let next : index + 1 ≡ suc index = omega arith in rw (drop-cons s.zone_status index z e, next)

-- A scan over zones of the table returns the first `room` matches.
pub scan_zones_lem :
    (s : Sim) (c : Criteria) (n index room : ℕ)
    → IsValid s
    → index + n ≤ s.smr_numzones
    → room ≢ 0
    → scan_zones s c n index room ≡ some (take room (keep (matches s c) (slice s index n)))
unfolding scan_zones
scan_zones_lem s c zero index room v h r = ap some (sym (take-nil room))
scan_zones_lem s c (suc n) index room v h r =
    let (z, e) = zone_at-valid index v (omega arith) in
    let entry : get_elem? s.zone_status index ≡ some z =
      sym (zone_at-live s index v.is_allocated) ∙ e in
    ground (
      arith,
      slice-suc s index n z entry,
      take-cons room z (keep (matches s c) (slice s (index + 1) n)),
      scan_zones_lem s c n (index + 1) room v (omega arith) r,
      scan_zones_lem s c n (index + 1) (room - 1) v (omega arith),
    )

-- How many zones a query looks at: as many as asked for, or all up to the end of the table.
abbrev pub window : Criteria → ℕ → ℕ → ℕ
window (free_sectors n) num left = num
window match_all num left = num
window _ num left = left

query_checked_lem :
    (s : Sim) (c : Criteria) (i num : ℕ)
    → IsValid s
    → c ≢ unknown
    → num ≢ 0
    → num + i ≤ s.smr_numzones
    → query_checked s i c num
      ≡ some
          (answer (take num (keep (matches s c) (slice s i (window c num (s.smr_numzones - i))))))
unfolding query_checked answer
query_checked_lem s unknown i num v k ne h = absurd (k refl)
query_checked_lem s (free_sectors n) i num v k ne h =
    ground (arith, scan_zones_lem s (free_sectors n) num i num v (omega arith) ne)
query_checked_lem s match_all i num v k ne h =
    ground (arith, scan_zones_lem s match_all num i num v (omega arith) ne)
query_checked_lem s c i num v k ne h =
    ground (arith, scan_zones_lem s c (s.smr_numzones - i) i num v (omega arith) ne)

-- In a valid state a query with a known criterion for `num` zones, at least one and no more than
-- there are from the zone of `lba` on, returns the first `num` zones that match: from the `num`
-- zones there if it asks for free sectors or for all, and from all zones up to the last if it asks
-- for a condition. Its count is their number.
pub query_zones_lem :
    (s : Sim) (lba num : ℕ) (c : Criteria)
    → IsValid s
    → c ≢ unknown
    → num ≢ 0
    → num + zone_idx_of s lba ≤ s.smr_numzones
    → query_zones s true lba c num
      ≡ some (
          answer (
            take num (
              keep
                (matches s c)
                (slice s (zone_idx_of s lba) (window c num (s.smr_numzones - zone_idx_of s lba))))))
unfolding query_zones
query_zones_lem s lba num c v k ne h =
    ground (arith, numzones-lt v, query_checked_lem s c (zone_idx_of s lba) num v k ne h)

-- In a valid state a query for no zone, or for more than there are from the zone of `lba` on, is
-- refused and copies nothing, if `lba` is on the device and `num` at most the number of all zones.
pub query_zones_refuses :
    (s : Sim) (lba num : ℕ) (c : Criteria)
    → IsValid s
    → num ≤ s.smr_numzones
    → lba ≤ s.smr_capacity
    → (num ≡ 0) ⊎ (s.smr_numzones < num + zone_idx_of s lba)
    → query_zones s true lba c num ≡ some (refuse_query num)
unfolding query_zones
query_zones_refuses s lba num c v le inside why =
    ground (arith, v.object, v.status_room, zone_idx_of-le lba v inside)

pub Criteria-cases : (c : Criteria) → (c ≡ unknown) ⊎ (c ≢ unknown)
Criteria-cases unknown = inl refl
Criteria-cases (free_sectors n) = inr (λ e. cc)
Criteria-cases match_all = inr (λ e. cc)
Criteria-cases match_full = inr (λ e. cc)
Criteria-cases match_nfull = inr (λ e. cc)
Criteria-cases match_free = inr (λ e. cc)
Criteria-cases match_rnly = inr (λ e. cc)
Criteria-cases match_offl = inr (λ e. cc)

query_unknown :
    (s : Sim) (lba num : ℕ) → (a : Answer) × (query_zones s true lba unknown num ≡ some a)
unfolding query_zones query_checked
query_unknown s lba num =
    elim (Bool-cases (num == 0 || ltb s.smr_numzones (u32 (num + zone_idx_of s lba)))) [
      | inl e ↦ (refuse_query num, ground arith)
      | inr e ↦ (record { code = success; copied = []; count = num }, ground arith)
    ]

-- A query never faults for a sector of the device.
pub query_zones-returns :
    (s : Sim) (lba num : ℕ) (c : Criteria)
    → IsValid s
    → num ≤ s.smr_numzones
    → lba ≤ s.smr_capacity
    → (a : Answer) × (query_zones s true lba c num ≡ some a)
query_zones-returns s lba num c v le inside = elim (Criteria-cases c) [
  | inl e ↦ rw e (query_unknown s lba num)
  | inr ne ↦ elim (dec_lt s.smr_numzones (num + zone_idx_of s lba)) [
    | yes h ↦ (_, query_zones_refuses s lba num c v le inside (inr h))
    | no h ↦ elim (dec_lt 0 num) [
      | yes p ↦ (_, query_zones_lem s lba num c v ne (omega arith) (omega arith))
      | no z ↦ (_, query_zones_refuses s lba num c v le inside (inl (omega arith)))
    ]
  ]
]

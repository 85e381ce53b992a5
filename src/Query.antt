-- ===== src/Query.antt =====
-- dm-smrsim.c, smrsim_query_zones. The entries that it copies to `ptr` are the list that it
-- returns, the new `*num_zones` the number beside it.
pub mod Spec
use smr_simulator.Base.{
  ℕ, zero, suc, ◌+◌, ◌-◌, Bool, true, false, not, ◌&&◌, ◌||◌, if◌then◌else◌, ltb, leb, ◌==◌, u32,
  sub32, List, [], ◌∷◌, length, Option, some, none,
}
use smr_simulator.Types.Cond
use smr_simulator.Types.{ZoneStatus, Code, success, einval}
use smr_simulator.State.{Sim, zone_at, num_sectors_zone, zone_idx_of}
use smr_simulator.Faults.{◌>>=◌}

-- The int `criteria`: a positive number of free sectors, a value of `enum
-- smrsim_zbcquery_criteria`, or a value with no case (ZONE_MATCH_WNEC is one).
pub data Criteria : Type 0 where
  free_sectors : ℕ → Criteria
  match_all match_full match_nfull match_free match_rnly match_offl : Criteria
  unknown : Criteria

pub record Answer : Type 0 where
  pub code : Code
  pub copied : List ZoneStatus
  pub count : ℕ

-- The loops test a zone in this way.
unfoldable pub matches : Sim → Criteria → ZoneStatus → Bool
matches s (free_sectors n) z = leb n (sub32 (num_sectors_zone s) z.z_write_ptr_offset)
matches s match_all z = true
matches s match_full z = z.z_conds == Cond.full
matches s match_nfull z = z.z_conds == Cond.closed && not (z.z_write_ptr_offset == 0)
matches s match_free z = z.z_conds == Cond.empty
matches s match_rnly z = z.z_conds == Cond.read_only
matches s match_offl z = z.z_conds == Cond.offline
matches s unknown z = false

abbrev pub consed : Bool → ZoneStatus → List ZoneStatus → List ZoneStatus
consed hit z zs = if hit then z ∷ zs else zs

-- A loop over `n` zones from `index` on that copies each match; it breaks at the `room`th.
unfoldable pub scan_zones : Sim → Criteria → ℕ → ℕ → ℕ → Option (List ZoneStatus)
scan_zones s c zero index room = some []
scan_zones s c (suc n) index room =
    let after_miss = scan_zones s c n (index + 1) room in
    let after_hit = scan_zones s c n (index + 1) (room - 1) in
    (do
      z ← zone_at s index
      if not (matches s c z)
          then after_miss
          else if room == 1
          then some (z ∷ [])
          else (do zs ← after_hit; some (z ∷ zs)))

unfoldable pub refuse_query : ℕ → Answer
refuse_query num = record { code = einval; copied = []; count = num }

unfoldable pub answer : List ZoneStatus → Answer
answer zs = record { code = success; copied = zs; count = length zs }

-- The first loop and ZONE_MATCH_ALL look at `num` zones, so they cannot find more than `num`.
unfoldable pub query_checked : Sim → ℕ → Criteria → ℕ → Option Answer
unfolding answer
query_checked s i unknown num = some (record { code = success; copied = []; count = num })
query_checked s i (free_sectors n) num = do
  zs ← scan_zones s (free_sectors n) num i num
  some (answer zs)
query_checked s i match_all num = do zs ← scan_zones s match_all num i num; some (answer zs)
query_checked s i c num = do zs ← scan_zones s c (s.smr_numzones - i) i num; some (answer zs)

-- `given` tells that neither pointer is null.
unfoldable pub query_zones : Sim → Bool → ℕ → Criteria → ℕ → Option Answer
unfolding refuse_query
query_zones s given lba c num =
    if not given
    then some (refuse_query num)
    else if num == 0 || ltb s.smr_numzones (u32 (num + zone_idx_of s lba))
    then some (refuse_query num)
    else query_checked s (zone_idx_of s lba) c num

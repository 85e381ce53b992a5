-- ===== src/Drive/Fresh.antt =====
-- smrsim_init_zone_state against a new table: the default zones are 2 ^ 19 sectors.
use smr_simulator.Base.{ℕ, ◌/◌, ◌^◌, ◌≡◌, ◌≢◌, ◌<◌, ◌≤◌, ◌∙◌, ap, arith, true, some}
use smr_simulator.Types.{success}
use smr_simulator.State.{Sim, zone_at, freed, num_sectors_zone}
use smr_simulator.State.Geometry.{IsValid, max_capacity}
use smr_simulator.Pstore.Spread.{IsSpread}
use smr_simulator.Init.{init_zone_default, init_zone_state, initial_zone}
use smr_simulator.Init.Layout.{init_zone_state_lem}
use smr_simulator.Drive.Obey.{new_zone}

default-zones :
    (s : Sim) (sizedev : ℕ)
    → sizedev ≤ max_capacity
    → ((init_zone_default s sizedev).smr_numzones ≡ sizedev / 2 ^ 19)
      × (num_sectors_zone (init_zone_default s sizedev) ≡ 2 ^ 19)
unfolding init_zone_default num_sectors_zone
default-zones s sizedev h = (omega arith, omega arith)

initial_zone-index :
    (s : Sim) (n size k : ℕ)
    → s.smr_numzones ≡ n
    → num_sectors_zone s ≡ size
    → k < n
    → initial_zone s k ≡ new_zone size n k
unfolding initial_zone
initial_zone-index s n size k c e h = ground (arith, c, e)

-- With memory, no object that was freed before and the queue of the background task in order, a
-- device of at least one sector and at most 10 TB gets a valid object of as many zones of 2 ^ 19
-- sectors as fit it. Zone `k` has the index `k`, that size, its pointers at 0 and no flag; the first
-- and the last are conventional without a write pointer, if there are two zones or more, and every
-- other one is sequential and empty (`new_zone`).
pub init_zone_state-new_zone :
    (s : Sim) (sizedev jiffies hz : ℕ)
    → sizedev ≢ 0
    → sizedev ≤ max_capacity
    → s.memory ≢ freed
    → IsSpread s.ptask
    → (s' : Sim) × (init_zone_state s sizedev true jiffies hz ≡ some (success, s'))
      × IsValid s'
      × (s'.smr_numzones ≡ sizedev / 2 ^ 19)
      × ((k : ℕ)
          → k < sizedev / 2 ^ 19
          → zone_at s' k ≡ some (new_zone (2 ^ 19) (sizedev / 2 ^ 19) k))
init_zone_state-new_zone s sizedev jiffies hz ne h kept q =
    let (s', e, v, n, at) = init_zone_state_lem s sizedev jiffies hz ne h kept q in
    let (count, size) = default-zones s sizedev h in
    (
      s',
      e,
      v,
      n ∙ count,
      λ k l.
          at k (rw (n, count) l)
          ∙ ap some (initial_zone-index (init_zone_default s sizedev) _ _ k count size l),
    )

-- ===== src/Pstore/Flush.antt =====
-- What the background task writes, and what it leaves of its work.
use smr_simulator.Base.{ℕ, ◌≡◌, arith, true, [], ◌∷◌, some}
use smr_simulator.Types.{success}
use smr_simulator.State.{Sim}
use smr_simulator.State.Geometry.{IsValid}
use smr_simulator.Pstore.Task.{
  no_change, set_flags, with_crc, can_read, flush_config, flush_stats, flush_status,
  flush_persistence,
}

-- The object of a valid state is as long as its header says.
pub IsValid-can_read : {s : Sim} → IsValid s → can_read s ≡ true
IsValid-can_read v = ground (arith, v)

module _ (page_size : ℕ) (crc_of : Sim → ℕ) where
  -- In a valid state, whatever was noted, a flush with memory for its page writes page 0 and no
  -- other, clears all three bits, and leaves the queue of zones and the zone of the statistics as
  -- they were: `flag &= bit` clears the other bits before they are tested.
  pub flush_first_page :
      {s : Sim}
      → IsValid s
      → flush_persistence page_size crc_of s true
        ≡ some (
          success,
          record (with_crc page_size crc_of s) { ptask = set_flags no_change s.ptask },
          0 ∷ [],
        )
  unfolding flush_persistence flush_config flush_stats flush_status
  flush_first_page v = ground (arith, v)

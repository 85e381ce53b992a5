-- ===== src/Examples/Persistence.antt =====
-- The persistence task of the device of four zones.
use smr_simulator.Base.{List, ℕ, ◌++◌, refl, arith, ◌≡◌, true, some, [], ◌∷◌, ◌⊎◌, replicate}
use smr_simulator.Types.{success}
use smr_simulator.State.{Sim, PstoreTask}
use smr_simulator.State.Geometry.{IsValid}
use smr_simulator.State.Access.{set_task-IsValid}
use smr_simulator.Pstore.Queue.{note_write, pstore_qdepth, pstore_pg_gap}
use smr_simulator.Pstore.Task.{flush_persistence, set_flags, no_change, with_crc}
use smr_simulator.Pstore.Flush.{flush_first_page}
use smr_simulator.Pstore.Bytes.{Pages, le32, save_full, save_bytes}
use smr_simulator.Pstore.Spread.{IsQueue}
use smr_simulator.Pstore.Gap.{gap-note_write, note_write-IsSpread}
use smr_simulator.Examples.Device.{device, device-IsValid, task, task-IsSpread}

abbrev noted : Sim
noted = record device { ptask = note_write task 3 }

noted-IsValid : IsValid noted
noted-IsValid =
    set_task-IsValid (note_write task 3) device-IsValid (note_write-IsSpread task 3 task-IsSpread)

flush_example :
    flush_persistence 4096 (λ s. 7) noted true
    ≡ some (
      success,
      record (with_crc 4096 (λ s. 7) noted) { ptask = set_flags no_change noted.ptask },
      0 ∷ [],
    )
flush_example = flush_first_page 4096 (λ s. 7) noted-IsValid

-- Two zones are queued, at a distance of 97.
abbrev two_queued : PstoreTask
two_queued = record task { stu_zone_idx = 3 ∷ 100 ∷ replicate 126 0; stu_zone_idx_cnt = 2 }

two_queued-IsQueue : IsQueue two_queued
two_queued-IsQueue = record { room = refl; used = omega arith }

gap_example :
    ((note_write two_queued 300).stu_zone_idx_gap ≡ 0)
    ⊎ ((2 ≡ pstore_qdepth) × ((note_write two_queued 300).stu_zone_idx_gap ≡ pstore_pg_gap))
gap_example = gap-note_write two_queued 300 two_queued-IsQueue

-- An object of 40 bytes, on pages of 16: the magic word, its length, the version and the checksum
-- 7, and 24 bytes more.
abbrev object : List ℕ
object = 0xEF ∷ 0xBE ∷ 0xEF ∷ 0xBE ∷ 40 ∷ 0 ∷ 0 ∷ 0 ∷ 0 ∷ 0 ∷ 1 ∷ 0 ∷ 7 ∷ 0 ∷ 0 ∷ 0 ∷ replicate 24 5

abbrev blank : Pages
blank k = []

-- The part of the last page.
last_page : save_bytes 16 object (replicate 8 9) blank 2 ≡ replicate 8 5 ++ replicate 8 9
unfolding save_bytes le32 save_full
last_page = refl

-- ===== src/Pstore/Task.antt =====
-- dm-smrsim.c, smrsim_pstore_pg_idx, smrsim_flush_persistence, smrsim_save_persistence and the body
-- of the loop of smrsim_persistence_task. A page that is written is given by its index: it holds
-- the bytes of the object from `index * PAGE_SIZE` on, and goes to sector `pstore_lba + index * 8`.
-- The kernel's page size, the checksum of the object and the allocation of the page are arguments.
use smr_simulator.Base.{
  ℕ, zero, suc, ◌+◌, ◌-◌, ◌*◌, ◌/◌, ◌%◌, Bool, true, false, not, ◌||◌, if◌then◌else◌, ltb, leb,
  ◌&&◌, Option, some, none, ◌==◌, u32, List, [], ◌∷◌, ◌++◌, replicate, length, drop,
}
use smr_simulator.Types.{Code, success, enomem}
use smr_simulator.State.{Sim, PstoreTask, Flags, is_live}
use smr_simulator.Faults.{◌>>=◌}
use smr_simulator.Pstore.Queue.{pstore_pg_edg, pstore_qdepth, pstore_pg_gap, queued}

abbrev pub pstore_pg_off : ℕ
pstore_pg_off = 40

-- `from`, `from + 1`, and so on, `n` of them.
abbrev pub pages_from : ℕ → ℕ → List ℕ
pages_from from zero = []
pages_from from (suc n) = from ∷ pages_from (from + 1) n

-- `flag &= bit`
abbrev pub and_config : Flags → Flags
and_config f = record {
  config_change = f.config_change;
  stats_change = false;
  status_change = false;
}

abbrev pub and_stats : Flags → Flags
and_stats f = record { config_change = false; stats_change = f.stats_change; status_change = false }

abbrev pub and_status : Flags → Flags
and_status f = record {
  config_change = false;
  stats_change = false;
  status_change = f.status_change;
}

abbrev pub no_change : Flags
no_change = record { config_change = false; stats_change = false; status_change = false }

abbrev pub any_change : Flags → Bool
any_change f = f.config_change || f.stats_change || f.status_change

abbrev pub set_flags : Flags → PstoreTask → PstoreTask
set_flags f p = record p { flag = f }

-- The bytes of the object that was allocated.
abbrev pub object_size : Sim → ℕ
object_size s = 44 * length s.zone_status + 44

-- The checksum reads `header.length` bytes of the object but for the header: a length below its
-- 16 bytes goes round, and past the end of the object the read is a fault.
abbrev pub can_read : Sim → Bool
can_read s = is_live s.memory && leb 16 s.header.length && leb s.header.length (object_size s)

module _ (page_size : ℕ) (crc_of : Sim → ℕ) where
  -- The offset of the zone's entry, and the first and last page of the loops over it.
  unfoldable pub pstore_pg_cur : ℕ → ℕ
  pstore_pg_cur idx = u32 (pstore_pg_off + 20 * idx) / page_size

  unfoldable pub pstore_pg_nxt : ℕ → ℕ
  unfolding pstore_pg_cur
  pstore_pg_nxt idx =
      if u32 (pstore_pg_off + 20 * idx) % page_size == 0
      then pstore_pg_cur idx
      else u32 (pstore_pg_cur idx + 1)

  -- `for (idx = pg_cur; idx <= pg_nxt; idx++)`
  unfoldable pub zone_pages : ℕ → List ℕ
  zone_pages idx = pages_from (pstore_pg_cur idx) (pstore_pg_nxt idx + 1 - pstore_pg_cur idx)

  unfoldable pub queue_pages : List ℕ → List ℕ
  queue_pages [] = []
  queue_pages (idx ∷ rest) = zone_pages idx ++ queue_pages rest

  abbrev pub with_crc : Sim → Sim
  with_crc s = record s { header = record s.header { crc32 = crc_of s } }

  -- The first entries of the queue are zeroed as they are written.
  abbrev pub zero_queue : PstoreTask → List ℕ
  zero_queue p = replicate (length (queued p)) 0 ++ drop p.stu_zone_idx_cnt p.stu_zone_idx

  -- The test of SMR_CONFIG_CHANGE, `if (flag &= bit) flag &= ~bit`.
  unfoldable pub flush_config : PstoreTask → PstoreTask
  flush_config p =
      let p₁ = set_flags (and_config p.flag) p in
      if p₁.flag.config_change then set_flags (record p₁.flag { config_change = false }) p₁ else p₁

  -- The test of SMR_STATS_CHANGE, with the pages that it writes.
  unfoldable pub flush_stats : PstoreTask → PstoreTask × List ℕ
  flush_stats p =
      let p₁ = set_flags (and_stats p.flag) p in
      let p₂ = set_flags (record p₁.flag { stats_change = false }) p₁ in
      if p₁.flag.stats_change
      then (if ltb pstore_pg_edg p₂.sts_zone_idx
          then (record p₂ { sts_zone_idx = 0 }, zone_pages p₂.sts_zone_idx)
          else (p₂, []))
      else (p₁, [])

  -- The test of SMR_STATUS_CHANGE, with the pages that it writes.
  unfoldable pub flush_status : PstoreTask → PstoreTask × List ℕ
  flush_status p =
      let p₁ = set_flags (and_status p.flag) p in
      let p₂ = set_flags (record p₁.flag { status_change = false }) p₁ in
      if p₁.flag.status_change
      then (
        record p₂ { stu_zone_idx = zero_queue p₂; stu_zone_idx_cnt = 0; stu_zone_idx_gap = 0 },
        queue_pages (queued p₂),
      )
      else (p₁, [])

  -- The object is allocated in whole pages; a page that starts past its end is a fault.
  abbrev pub pages_in : Sim → List ℕ → Bool
  pages_in s [] = true
  pages_in s (idx ∷ rest) = ltb (idx * page_size) (object_size s) && pages_in s rest

  unfoldable pub flush_persistence : Sim → Bool → Option (Code × Sim × List ℕ)
  flush_persistence s allocated =
      if not allocated
      then some (enomem, s, [])
      else if not (can_read s)
      then none
      else (let s₁ = with_crc s in
          let (p₁, stats_pages) = flush_stats (flush_config s₁.ptask) in
          let (p₂, status_pages) = flush_status p₁ in
          let written = 0 ∷ stats_pages ++ status_pages in
          if pages_in s written then some (success, record s₁ { ptask = p₂ }, written) else none)

  -- All pages of the object, the last one perhaps in part.
  unfoldable pub save_pages : ℕ → List ℕ
  save_pages len =
      pages_from 0 (len / page_size)
      ++ (if len % page_size == 0 then [] else (len / page_size) ∷ [])

  unfoldable pub save_persistence : Sim → Bool → Option (Code × Sim × List ℕ)
  save_persistence s allocated =
      if not allocated
      then some (enomem, s, [])
      else if not (can_read s)
      then none
      else some (success, with_crc s, save_pages s.header.length)

  -- A round of the loop of `smrsim_persistence_task`: the state after it and the pages written. The
  -- codes of the calls are not looked at.
  unfoldable pub task_round : Sim → Bool → Option (Sim × List ℕ)
  task_round s allocated =
      if not (any_change s.ptask.flag)
      then some (s, [])
      else if s.ptask.flag.config_change
      then (if s.smr_numzones == 0
          then some (record s { ptask = set_flags no_change s.ptask }, [])
          else (do
            (code, saved, pages) ← save_persistence s allocated
            some (record saved { ptask = set_flags no_change saved.ptask }, pages)))
      else if leb pstore_pg_gap s.ptask.stu_zone_idx_gap
      then (do
        (code, saved, pages) ← save_persistence s allocated
        some (
          record saved {
            ptask = record saved.ptask {
              flag = no_change;
              stu_zone_idx_gap = 0;
              stu_zone_idx = replicate pstore_qdepth 0;
              stu_zone_idx_cnt = 0;
            };
          },
          pages,
        ))
      else (do (code, flushed, pages) ← flush_persistence s allocated; some (flushed, pages))

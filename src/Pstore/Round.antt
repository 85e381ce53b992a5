-- ===== src/Pstore/Round.antt =====
-- A round of the background task in a valid state.
use smr_simulator.Base.{
  [], ◌≡◌, ◌≢◌, ℕ, arith, refl, Bool, true, false, length-replicate, replicate, Option, some, none,
  List, ◌∷◌, ◌∙◌, ◌⊎◌, inl, inr, ◌<◌, ◌≤◌, Bool-cases,
}
use smr_simulator.Types.{StateHeader}
use smr_simulator.State.{Sim, PstoreTask, Flags}
use smr_simulator.State.Geometry.{IsValid}
use smr_simulator.Pstore.Queue.{pstore_qdepth, pstore_pg_gap}
use smr_simulator.Pstore.Spread.{IsSpread}
use smr_simulator.Pstore.Gap.{empty-IsSpread}
use smr_simulator.Pstore.Task.{
  no_change, set_flags, with_crc, flush_persistence, save_persistence, save_pages, task_round,
  any_change,
}
use smr_simulator.Pstore.Flush.{flush_first_page, IsValid-can_read}
use native.Mathlib.Decide.{dec_lt}

stored-IsValid :
    {s : Sim} (h : StateHeader) (p : PstoreTask)
    → IsValid s
    → h.length ≡ s.header.length
    → IsSpread p
    → IsValid (record s { header = h; ptask = p })
stored-IsValid h p v e q = record {
  is_allocated = v.is_allocated;
  block_shift = v.block_shift;
  zone_shift = v.zone_shift;
  fits = v.fits;
  small = v.small;
  status_room = v.status_room;
  stats_room = v.stats_room;
  counted = v.counted;
  defaults = v.defaults;
  queue = q;
  object = v.object;
  sized = e ∙ v.sized;
}

flags-IsSpread : {p : PstoreTask} (f : Flags) → IsSpread p → IsSpread (set_flags f p)
flags-IsSpread f q = record {
  queue = record { room = q.queue.room; used = q.queue.used };
  spread = q.spread;
}

-- The queue after a full save.
abbrev emptied : PstoreTask → PstoreTask
emptied p = record p {
  flag = no_change;
  stu_zone_idx_gap = 0;
  stu_zone_idx = replicate pstore_qdepth 0;
  stu_zone_idx_cnt = 0;
}

emptied-IsSpread : (p : PstoreTask) → IsSpread (emptied p)
emptied-IsSpread p = empty-IsSpread (emptied p) (length-replicate {A = ℕ} 128 0) refl

-- What a round leaves: the header but for its checksum, and the state of the task in order.
abbrev pub Stores : Sim → Option (Sim × List ℕ) → Type 0
Stores s none = ⊥
Stores s (some (s', written)) =
    (h : StateHeader) × (p : PstoreTask) × (s' ≡ record s { header = h; ptask = p })
    × (h.length ≡ s.header.length)
    × IsSpread p

stores :
    (s : Sim) (h : StateHeader) (p : PstoreTask) (written : List ℕ)
    → h.length ≡ s.header.length
    → IsSpread p
    → Stores s (some (record s { header = h; ptask = p }, written))
stores s h p written e q = (h, p, refl, e, q)

module _ (page_size : ℕ) (crc_of : Sim → ℕ) where
  -- With memory for its page.
  saved_round-Stores : {s : Sim} → IsValid s → Stores s (task_round page_size crc_of s true)
  unfolding task_round save_persistence
  saved_round-Stores {s} v =
      let h = (with_crc page_size crc_of s).header in
      let written = save_pages page_size crc_of s.header.length in
      ground (
        arith,
        IsValid-can_read v,
        flush_first_page page_size crc_of v,
        stores s s.header s.ptask [] refl v.queue,
        stores s s.header (set_flags no_change s.ptask) [] refl (flags-IsSpread no_change v.queue),
        stores s h (set_flags no_change s.ptask) written refl (flags-IsSpread no_change v.queue),
        stores s h (set_flags no_change s.ptask) (0 ∷ []) refl (flags-IsSpread no_change v.queue),
        stores s h (emptied s.ptask) written refl (emptied-IsSpread s.ptask),
      )

  -- Without memory nothing is written.
  unsaved_round-Stores : {s : Sim} → IsValid s → Stores s (task_round page_size crc_of s false)
  unfolding task_round save_persistence flush_persistence
  unsaved_round-Stores {s} v = ground (
    arith,
    stores s s.header s.ptask [] refl v.queue,
    stores s s.header (set_flags no_change s.ptask) [] refl (flags-IsSpread no_change v.queue),
    stores s s.header (emptied s.ptask) [] refl (emptied-IsSpread s.ptask),
  )

  round-Stores :
      {s : Sim} (allocated : Bool) → IsValid s → Stores s (task_round page_size crc_of s allocated)
  round-Stores true v = saved_round-Stores v
  round-Stores false v = unsaved_round-Stores v

  -- In a valid state a round does not fault, changes the checksum and the state of the task only, and
  -- keeps the state valid.
  pub task_round_total :
      {s : Sim} (allocated : Bool)
      → IsValid s
      → (h : StateHeader) × (p : PstoreTask) × (written : List ℕ) × (task_round page_size crc_of s
            allocated
          ≡ some (record s { header = h; ptask = p }, written))
        × IsValid (record s { header = h; ptask = p })
  task_round_total {s} allocated v =
      go (task_round page_size crc_of s allocated) (round-Stores allocated v)
    where
      go :
          (r : Option (Sim × List ℕ))
          → Stores s r
          → (h : StateHeader) × (p : PstoreTask) × (written : List ℕ) × (r
              ≡ some (record s { header = h; ptask = p }, written))
            × IsValid (record s { header = h; ptask = p })
      go none x = absurd x
      go (some (s', written)) (h, p, e, same, q) =
          (h, p, written, rw e refl, stored-IsValid h p v same q)

  -- With a bit set and without memory for its page, a round writes nothing, in any state. If the bit
  -- of the configuration is set, or so many zones were noted that a full save is due, it clears all
  -- bits all the same, and in the second case the queue: what was noted is forgotten. Otherwise it
  -- leaves the bits and the queue for the next round.
  pub unsaved_round_forgets :
      (s : Sim)
      → any_change s.ptask.flag ≡ true
      → (p : PstoreTask) × (task_round page_size crc_of s false ≡ some (record s { ptask = p }, []))
        × (((s.ptask.flag.config_change ≡ true) × (p ≡ set_flags no_change s.ptask))
            ⊎ ((s.ptask.flag.config_change ≡ false)
                × (pstore_pg_gap ≤ s.ptask.stu_zone_idx_gap)
                × (p.flag ≡ no_change)
                × (p.stu_zone_idx_cnt ≡ 0))
            ⊎ ((s.ptask.flag.config_change ≡ false)
                × (s.ptask.stu_zone_idx_gap < pstore_pg_gap)
                × (p ≡ s.ptask)))
  unfolding task_round save_persistence flush_persistence
  unsaved_round_forgets s h = elim (Bool-cases s.ptask.flag.config_change) [
    | inl e ↦ (set_flags no_change s.ptask, ground (arith, h), inl (e, refl))
    | inr n ↦ elim (dec_lt s.ptask.stu_zone_idx_gap pstore_pg_gap) [
      | yes l ↦ (s.ptask, ground (arith, h), inr (inr (n, l, refl)))
      | no g ↦ (emptied s.ptask, ground (arith, h), inr (inl (n, omega arith, refl, refl)))
    ]
  ]

  -- A change of the configuration is saved with the whole object, unless there is no zone.
  pub round_saves :
      {s : Sim}
      → IsValid s
      → s.ptask.flag.config_change ≡ true
      → (s.smr_numzones ≢ 0
          → task_round page_size crc_of s true
            ≡ some (
              record (with_crc page_size crc_of s) { ptask = set_flags no_change s.ptask },
              save_pages page_size crc_of s.header.length,
            ))
        × (s.smr_numzones ≡ 0
            → task_round page_size crc_of s true
              ≡ some (record s { ptask = set_flags no_change s.ptask }, []))
  unfolding task_round save_persistence
  round_saves v h = (λ n. ground (arith, IsValid-can_read v, h), λ n. ground (arith, h))

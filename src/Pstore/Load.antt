-- ===== src/Pstore/Load.antt =====
-- dm-smrsim.c, smrsim_save_persistence on the device's pages, smrsim_load_persistence with the
-- globals that it sets, and smrsim_persistence_thread. The results of allocations are arguments,
-- and so are the kernel's page size, crc32, jiffies and HZ.
use smr_simulator.Base.{
  ◌/◌, ◌%◌, ◌==◌, ◌+◌, ℕ, ◌-◌, Bool, not, if◌then◌else◌, ◌==◌, u32, shl, List, take, replicate,
  Option, some, none,
}
use smr_simulator.Types.{Code, Code-discrete, success, einval, eagain}
use smr_simulator.State.{Sim, Memory, live, null, is_live}
use smr_simulator.Faults.{◌>>=◌}
use smr_simulator.Init.{
  init_zone_default, init_zone_state, zone_size_shift_default, block_size_shift_default,
}
use smr_simulator.Pstore.Queue.{pstore_qdepth}
use smr_simulator.Pstore.Task.{no_change}
use smr_simulator.Pstore.Object.{body_bytes, object_bytes, read_object, set_globals}
use smr_simulator.Pstore.Page.{PageIo, pages_read, pages_written}
use smr_simulator.Pstore.Bytes.{Pages, save_bytes, load_persistence, magic_of}

-- What the kernel answers while a target is set up: memory for the page of the load, for the object
-- that is loaded, for the object of the defaults, for the page of the save, the contents of that
-- page behind the object, and the ends of the reads and writes of pages.
pub record Answers : Type 0 where
  pub load_page : Bool
  pub load_object : Bool
  pub init_object : Bool
  pub save_page : Bool
  pub stale : List ℕ
  pub reads : ℕ → PageIo
  pub writes : ℕ → PageIo
  pub torn : Pages
  pub jiffies : ℕ
  pub hz : ℕ

-- What `kthread_create` returns: NULL, an error pointer, or a thread.
pub data Thread : Type 0 where
  no_thread error_pointer thread : Thread

-- What `zone_state` points to where the load fails.
abbrev pub memory_after : Answers → Pages → Memory → Memory
memory_after a d memory =
    if not (magic_of (d 0) == 0xBEEFBEEF) then memory else if a.load_object then live else null

-- The defaults are set up where the load fails; the code of that is not looked at.
unfoldable pub load_defaults : Answers → ℕ → Sim → Option (Code × Sim)
load_defaults a sizedev s = do
  (code, s₁) ← init_zone_state s sizedev a.init_object a.jiffies a.hz
  some (einval, s₁)

-- `pstore_lba` is computed on 32 bits.
unfoldable pub load_start : ℕ → Sim → Sim
load_start sizedev s =
    let s₁ = init_zone_default s sizedev in
    record s₁ {
      ptask = record s₁.ptask {
        pstore_lba = u32 (
            shl (u32 (shl s₁.smr_numzones_default zone_size_shift_default))
              block_size_shift_default);
      };
    }

-- The queue is emptied.
abbrev pub task_start : Sim → Sim
task_start s = record s {
  ptask = record s.ptask {
    flag = no_change;
    stu_zone_idx_cnt = 0;
    stu_zone_idx_gap = 0;
    stu_zone_idx = replicate pstore_qdepth 0;
  };
}

-- The defaults are saved at once. The test of the thread is one for a null pointer: an error
-- pointer is woken up, which is a fault.
abbrev pub thread_made : Thread → Sim × Pages → Option (Code × Sim × Pages)
thread_made thread (s, d) = some (success, s, d)
thread_made no_thread (s, d) = some (eagain, s, d)
thread_made error_pointer (s, d) = none

module _ (page_size : ℕ) (crc32 : List ℕ → ℕ) where
  -- `header.crc32` is set before the pages are written.
  abbrev pub with_checksum : Sim → Sim
  with_checksum s = record s {
    header = record s.header { crc32 = crc32 (take (s.header.length - 16) (body_bytes s)) };
  }

  -- The pages that the object takes.
  abbrev pub object_pages : Sim → ℕ
  object_pages s = s.header.length / page_size + (if s.header.length % page_size == 0 then 0 else 1)

  unfoldable pub save_object : Answers → Sim → Pages → Option (Sim × Pages)
  unfolding pages_written
  save_object a s d =
      if not a.save_page
      then some (s, d)
      else if not (is_live s.memory)
      then none
      else (let saved = save_bytes page_size (object_bytes (with_checksum s)) a.stale d in
          some (with_checksum s, pages_written (object_pages s) a.writes a.torn d saved))

  unfoldable pub load_state : Answers → ℕ → Sim → Pages → Option (Code × Sim)
  unfolding load_defaults load_start pages_read
  load_state a sizedev s d =
      let s₁ = load_start sizedev s in
      let seen = pages_read page_size a.reads a.torn d in
      if not a.load_page
      then load_defaults a sizedev s₁
      else elim (load_persistence page_size crc32 a.load_object seen) [
        | none ↦ load_defaults a sizedev (record s₁ { memory = memory_after a seen s₁.memory })
        | some bytes ↦ (do s₂ ← set_globals (read_object bytes s₁); some (success, s₂))
      ]

  unfoldable pub persistence_thread :
      Answers → Thread → Bool → ℕ → Sim → Pages → Option (Code × Sim × Pages)
  unfolding load_state save_object
  persistence_thread a made ti sizedev s d = if not ti then some (einval, s, d) else (do
    (code, s₁) ← load_state a sizedev (task_start s) d
    saved ← elim (Code-discrete code success) [ yes _ ↦ some (s₁, d) | no _ ↦ save_object a s₁ d ]
    thread_made made saved)

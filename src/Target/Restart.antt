-- ===== src/Target/Restart.antt =====
-- smrsim_save_persistence, smrsim_dtr and smrsim_ctr one after the other.
use smr_simulator.Base.{
  ℕ, ◌+◌, ◌*◌, ◌^◌, ◌≡◌, ◌≤◌, ◌<◌, arith, refl, ◌∙◌, true, false, length-replicate, List, ◌∷◌, some,
  none, shr,
}
use smr_simulator.Types.{ZoneStatus, success}
use smr_simulator.State.{Sim, freed}
use smr_simulator.State.Geometry.{IsValid, size_of}
use smr_simulator.Pstore.Spread.{IsSpread}
use smr_simulator.Pstore.Gap.{empty-IsSpread}
use smr_simulator.Init.{magic_word, index_power_of_2, init_zone_default}
use smr_simulator.Init.Power.{index_power_of_2-pow}
use smr_simulator.Pstore.Object.{body_bytes, object_bytes, set_globals}
use smr_simulator.Pstore.Reading.{
  ObjectFits, with_object, read_object-bytes, magic-object, length-object, crc-object, drop-object,
  size-object,
}
use smr_simulator.Pstore.Bytes.{Pages, save_bytes, load_persistence}
use smr_simulator.Pstore.RoundTrip.{load-save}
use smr_simulator.Pstore.Page.{io_done, pages_read, pages_read-done, pages_written-done}
use smr_simulator.Pstore.Load.{
  Answers, thread, save_object, with_checksum, object_pages, load_state, load_start,
  persistence_thread, task_start,
}
use smr_simulator.Target.{Module, Table, ctr_refuses, ctr, dtr, fresh_log, start_of}

-- An object as it is saved: its header, and a zone 0 that tells the zone size.
pub record Saved (s : Sim) : Type 0 where
  pub object_fits : ObjectFits s
  pub has_magic : s.header.magic ≡ magic_word
  pub has_length : s.header.length ≡ 44 * s.num_zones + 44
  pub first : ZoneStatus
  pub others : List ZoneStatus
  pub has_first : s.zone_status ≡ first ∷ others
  pub first_length : first.z_length ≡ size_of s

-- What a restart keeps.
abbrev pub Kept : Sim → Sim → Type 0
Kept s s' =
    (s'.dev_config ≡ s.dev_config)
    × (s'.idle_stats ≡ s.idle_stats)
    × (s'.zone_stats ≡ s.zone_stats)
    × (s'.zone_status ≡ s.zone_status)
    × (s'.smr_numzones ≡ s.smr_numzones)
    × (s'.smr_zone_size_shift ≡ s.smr_zone_size_shift)
    × IsValid s'

module _ (page_size : ℕ) (crc32 : List ℕ → ℕ) (bounded : (xs : List ℕ) → crc32 xs < 2 ^ 32)
    (wide : 16 ≤ page_size) where
  checksum-ObjectFits : (s : Sim) → ObjectFits s → ObjectFits (with_checksum page_size crc32 s)
  checksum-ObjectFits s f = record {
    header_fits = record {
      magic_fits = f.header_fits.magic_fits;
      length_fits = f.header_fits.length_fits;
      version_fits = f.header_fits.version_fits;
      crc_fits = bounded _;
    };
    config_fits = f.config_fits;
    idle_fits = f.idle_fits;
    stats_fit = f.stats_fit;
    zones_fit = f.zones_fit;
    stats_counted = f.stats_counted;
    zones_counted = f.zones_counted;
    num_fits = f.num_fits;
  }

  same-body : (s : Sim) → body_bytes (with_checksum page_size crc32 s) ≡ body_bytes s
  unfolding body_bytes
  same-body s = refl

  load-Saved :
      (s : Sim) (stale : List ℕ) (d : Pages)
      → Saved s
      → load_persistence page_size crc32 true
          (save_bytes page_size (object_bytes (with_checksum page_size crc32 s)) stale d)
        ≡ some (object_bytes (with_checksum page_size crc32 s))
  load-Saved s stale d h =
      let w = with_checksum page_size crc32 s in
      let f = checksum-ObjectFits s h.object_fits in
      let len = length-object w f in
      load-save page_size (object_bytes w) stale d
        (omega (arith, len, h.has_length, size-object w f)) crc32 wide
        (omega (arith, size-object w f)) (magic-object w f ∙ h.has_magic)
        (rw (len, drop-object w, same-body s, crc-object w f) refl)

  -- The state after the load, from the state `t` of the module.
  abbrev loaded : ℕ → Sim → Sim → Sim
  loaded len t s = record (with_object (load_start len t) (with_checksum page_size crc32 s)) {
    smr_numzones = s.num_zones;
    smr_zone_size_shift = s.smr_zone_size_shift;
  }

  shift-first :
      (s : Sim) (h : Saved s)
      → s.smr_zone_size_shift ≤ 27
      → index_power_of_2 (shr h.first.z_length 3) ≡ s.smr_zone_size_shift
  shift-first s h small =
      let blocks : shr h.first.z_length 3 ≡ 2 ^ s.smr_zone_size_shift =
        omega (arith, h.first_length) in
      rw blocks (index_power_of_2-pow s.smr_zone_size_shift (omega arith))

  globals-Saved :
      (len : ℕ) (s t : Sim) (h : Saved s)
      → s.smr_zone_size_shift ≤ 27
      → set_globals (with_object (load_start len t) (with_checksum page_size crc32 s))
        ≡ some (loaded len t s)
  unfolding set_globals load_start init_zone_default
  globals-Saved len s t h small = rw (h.has_first, shift-first s h small) refl

  load_state-Saved :
      (a : Answers) (len : ℕ) (s t : Sim) (stale : List ℕ) (d : Pages)
      → Saved s
      → s.smr_zone_size_shift ≤ 27
      → a.load_page ≡ true
      → a.load_object ≡ true
      → ((idx : ℕ) → a.reads idx ≡ io_done)
      → load_state page_size crc32 a len t
          (save_bytes page_size (object_bytes (with_checksum page_size crc32 s)) stale d)
        ≡ some (success, loaded len t s)
  unfolding load_state
  load_state-Saved a len s t stale d h small page object reads =
      let w = with_checksum page_size crc32 s in
      let saved = save_bytes page_size (object_bytes w) stale d in
      let seen : load_persistence page_size crc32 true (pages_read page_size a.reads a.torn saved)
          ≡ some (object_bytes w) =
        rw (pages_read-done page_size a.reads a.torn saved reads) (load-Saved s stale d h) in
      ground (
        arith,
        page,
        object,
        seen,
        read_object-bytes w (load_start len t) (checksum-ObjectFits s h.object_fits),
        globals-Saved len s t h small,
      )

  loaded-IsValid : (s t : Sim) → IsValid s → IsSpread t.ptask → IsValid (loaded s.smr_capacity t s)
  unfolding load_start init_zone_default
  loaded-IsValid s t v q = record {
    is_allocated = refl;
    block_shift = refl;
    zone_shift = v.zone_shift;
    fits = v.fits;
    small = v.small;
    status_room = omega (arith, v.status_room, v.counted);
    stats_room = v.stats_room;
    counted = refl;
    defaults = omega arith;
    queue = record {
      queue = record { room = q.queue.room; used = q.queue.used };
      spread = q.spread;
    };
    object = v.object;
    sized = v.sized;
  }

  -- A valid state whose object can be saved (`Saved`) survives the end of its target and a new one
  -- on the same disk: the save, `dtr` and `ctr` succeed, whatever was on the pages and in the
  -- buffer before, and the new state is valid and has the configuration, the statistics, the zones,
  -- their number and their size of the old one. This holds where a page has room for the header,
  -- crc32 is a __u32, the thread runs before and is made again, the table line passes the checks
  -- and has the old capacity, there is memory for the pages and the object, and the pages are read
  -- and written without an error.
  pub restart_lem :
      (m : Module) (t : Table) (a : Answers)
      → IsValid m.sim
      → Saved m.sim
      → m.pstore_thread ≡ thread
      → ctr_refuses (record m { single = false }) t ≡ none
      → t.len ≡ m.sim.smr_capacity
      → a.load_page ≡ true
      → a.load_object ≡ true
      → a.save_page ≡ true
      → ((idx : ℕ) → a.reads idx ≡ io_done)
      → ((idx : ℕ) → a.writes idx ≡ io_done)
      → (s₁ : Sim) × (d₁ : Pages) × (m₁ : Module) × (m₂ : Module) × (save_object page_size crc32 a
            m.sim m.disk
          ≡ some (s₁, d₁))
        × (dtr (record m { sim = s₁; disk = d₁ }) ≡ some m₁)
        × (ctr page_size crc32 a thread t m₁ ≡ some (success, m₂))
        × Kept m.sim m₂.sim
  unfolding save_object dtr ctr persistence_thread ctr_refuses
  restart_lem m t a v h made passes len page object save reads writes =
      let s = m.sim in
      let w = with_checksum page_size crc32 s in
      let d₁ = save_bytes page_size (object_bytes w) a.stale m.disk in
      let m₁ = record m { single = false; sim = record w { memory = freed }; disk = d₁ } in
      let t₁ = task_start (fresh_log m₁.sim) in
      let m₂ = record m₁ {
        single = true;
        sim = loaded t.len t₁ s;
        pstore_thread = thread;
        start = start_of t.sector;
      } in
      (
        w,
        d₁,
        m₁,
        m₂,
        ground (
          arith,
          v,
          save,
          pages_written-done (object_pages page_size crc32 m.sim) a.writes a.torn m.disk d₁ writes,
        ),
        ground (arith, v, made),
        ground (
          arith,
          passes,
          load_state-Saved a t.len s t₁ a.stale m.disk h v.zone_shift page object reads,
        ),
        (
          refl,
          refl,
          refl,
          refl,
          v.counted,
          refl,
          rw len (loaded-IsValid s t₁ v (empty-IsSpread _ (length-replicate {A = ℕ} 128 0) refl)),
        ),
      )

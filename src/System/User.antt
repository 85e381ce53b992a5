-- ===== src/System/User.antt =====
-- The run as a user sees it: each event against the drive that the state shows.
use smr_simulator.Base.{
  ℕ, ◌+◌, ◌*◌, ◌≡◌, ◌<◌, ◌≤◌, ◌%◌, Bool, true, false, not, ◌&&◌, ◌||◌, ◌==◌, leb, if◌then◌else◌,
  List, [], ◌∷◌, some, set, get_elem?, length,
}
use smr_simulator.Types.Cond
use smr_simulator.Types.Kind
use smr_simulator.Types.{ZoneStatus, IdleStats, Bio, read, write}
use smr_simulator.Map.{Target, Verdict, remapped, refused, map_sector}
use smr_simulator.Ioctl.{Cmd, Outcome}
use smr_simulator.Drive.{Drive}
use smr_simulator.Drive.Obey.{obey}
use smr_simulator.Drive.View.{view, shown}
use smr_simulator.System.{Event, request, command, round, Seen, verdict, outcome, pages}

-- A write to the zone goes by the rules of a host-managed drive alone: the zone is sequential, the
-- write policy is the default one, and no research option touches the zone.
abbrev pub is_managed : Drive → ZoneStatus → Bool
is_managed d z =
    z.z_type == Kind.sequential
    && d.device.out_of_policy_write_flag == 0
    && d.reset_option == 0
    && d.adjust_option == 0
    && z.z_flag == 0

-- The zone can be written, and the request is a run of 4 KiB blocks from the write pointer to the
-- end of the zone at most.
abbrev pub allows : Drive → Bio → ℕ → ZoneStatus → Bool
allows d b i z =
    not (z.z_conds == Cond.offline)
    && not (z.z_conds == Cond.read_only)
    && (not (z.z_conds == Cond.full) || b.bi_sector == i * d.zone_size)
    && b.bi_size % 4096 == 0
    && b.bi_sector == i * d.zone_size + z.z_write_ptr_offset
    && leb (b.bi_sector + b.bio_sectors) (i * d.zone_size + d.zone_size)

-- The pointer moves past the write, and the zone is full or closed.
abbrev pub advanced : Drive → Bio → ZoneStatus → ZoneStatus
advanced d b z =
    let wp = z.z_write_ptr_offset + b.bio_sectors in
    record z {
      z_write_ptr_offset = wp;
      z_conds = if wp == d.zone_size then Cond.full else Cond.closed;
    }

-- What no request changes.
pub record Keeps (d d' : Drive) : Type 0 where
  pub capacity : d'.capacity ≡ d.capacity
  pub default_zones : d'.default_zones ≡ d.default_zones
  pub zone_size : d'.zone_size ≡ d.zone_size
  pub device : d'.device ≡ d.device
  pub reset_option : d'.reset_option ≡ d.reset_option
  pub adjust_option : d'.adjust_option ≡ d.adjust_option
  pub log_enabled : d'.log_enabled ≡ d.log_enabled
  pub number : length d'.zones ≡ length d.zones
  pub counters : length d'.counters ≡ length d.counters

-- The request starts in zone `i`, which is `z`.
pub record StartsIn (d : Drive) (b : Bio) (i : ℕ) (z : ZoneStatus) : Type 0 where
  pub zone : get_elem? d.zones i ≡ some z
  pub starts : i * d.zone_size ≤ b.bi_sector
  pub starts_in : b.bi_sector < i * d.zone_size + d.zone_size

-- What the drive does with an event, what it answers, and the drive after it. A command is obeyed
-- with some idle times; of a request to a zone that is not managed only the frame is said.
pub data Serves (target : Target) (d : Drive) : Event → Seen → Drive → Type 0 where
  obeys :
      {o : Outcome} (cmd : Cmd) (jiffies : ℕ) (u : IdleStats)
      → shown o ≡ obey (record d { idle = u }) cmd
      → Serves target d (command true true true cmd jiffies) (outcome o) (view o.state)
  rests :
      (allocated : Bool) (written : List ℕ) → Serves target d (round allocated) (pages written) d
  reads :
      {d' : Drive} {b : Bio} {v : Verdict} (jiffies : ℕ)
      → b.bio_dir ≡ read
      → d'.zones ≡ d.zones
      → Keeps d d'
      → Serves target d (request b jiffies) (verdict v) d'
  writes :
      {b : Bio} {i : ℕ} {z : ZoneStatus} (jiffies : ℕ) (u : IdleStats)
      → b.bio_dir ≡ write
      → StartsIn d b i z
      → is_managed d z ≡ true
      → allows d b i z ≡ true
      → Serves target d
          (request b jiffies)
          (verdict (
            remapped (if b.bio_sectors == 0 then b.bi_sector else map_sector target b.bi_sector) 0))
          (record d { idle = u; zones = set d.zones i (advanced d b z) })
  breaks :
      {d' : Drive} {b : Bio} {i : ℕ} {z : ZoneStatus} (jiffies : ℕ)
      → b.bio_dir ≡ write
      → StartsIn d b i z
      → is_managed d z ≡ true
      → allows d b i z ≡ false
      → d'.zones ≡ d.zones
      → Keeps d d'
      → Serves target d (request b jiffies) (verdict refused) d'
  trusts :
      {d' : Drive} {b : Bio} {i : ℕ} {z : ZoneStatus} {v : Verdict} (jiffies : ℕ)
      → b.bio_dir ≡ write
      → StartsIn d b i z
      → is_managed d z ≡ false
      → Keeps d d'
      → Serves target d (request b jiffies) (verdict v) d'

-- One event after the other.
pub data AllServed (target : Target) : Drive → List Event → List Seen → Drive → Type 0 where
  ends : {d : Drive} → AllServed target d [] [] d
  serves :
      {d d₁ d₂ : Drive} {e : Event} {es : List Event} {seen : Seen} {rest : List Seen}
      → Serves target d e seen d₁
      → AllServed target d₁ es rest d₂
      → AllServed target d (e ∷ es) (seen ∷ rest) d₂

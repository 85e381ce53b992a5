-- ===== src/Rules/Frame.antt =====
-- What no check of a request touches: the geometry, the configuration and the sizes of the tables.
use smr_simulator.Base.{
  ℕ, ◌≡◌, ◌<◌, refl, true, ◌∙◌, arith, length, length-set, set, drop, drop-set_before, some,
  get_elem?-some,
}
use smr_simulator.Types.{ZoneStatus, ZoneStats, Code}
use smr_simulator.State.{
  Sim, PstoreTask, live, zone_at, modify_zone, modify_stats, num_sectors_zone, zone_idx_lba,
  zone_idx_of,
}
use smr_simulator.Pstore.Queue.{note_write, note_refusal}
use smr_simulator.Pstore.Spread.{IsSpread}
use smr_simulator.Pstore.Gap.{note_write-IsSpread, note_refusal-IsSpread}
use smr_simulator.State.Geometry.{IsValid}
use smr_simulator.State.Access.{zone_at-live, stats_at-live, modify_zone-some, modify_stats-some}
use smr_simulator.Rules.Log.{log_error, log_code}

pub record Frame (s s' : Sim) : Type 0 where
  pub capacity : s'.smr_capacity ≡ s.smr_capacity
  pub numzones : s'.smr_numzones ≡ s.smr_numzones
  pub numzones_default : s'.smr_numzones_default ≡ s.smr_numzones_default
  pub zone_shift : s'.smr_zone_size_shift ≡ s.smr_zone_size_shift
  pub block_shift : s'.smr_block_size_shift ≡ s.smr_block_size_shift
  pub memory : s'.memory ≡ s.memory
  pub counted : s'.num_zones ≡ s.num_zones
  pub config : s'.dev_config ≡ s.dev_config
  pub reset_option : s'.wp_reset_flag ≡ s.wp_reset_flag
  pub adjust_option : s'.wp_adjust_flag ≡ s.wp_adjust_flag
  pub log_option : s'.dbg_log_enabled ≡ s.dbg_log_enabled
  pub queue : IsSpread s.ptask → IsSpread s'.ptask
  pub pending : s.ptask.flag.config_change ≡ true → s'.ptask.flag.config_change ≡ true
  pub status_length : length s'.zone_status ≡ length s.zone_status
  pub stats_length : length s'.zone_stats ≡ length s.zone_stats
  pub header_length : s'.header.length ≡ s.header.length
  pub stats_rest : drop s.smr_numzones s'.zone_stats ≡ drop s.smr_numzones s.zone_stats

pub Frame-refl : (s : Sim) → Frame s s
Frame-refl s = ground arith

pub Frame-trans : {s t u : Sim} → Frame s t → Frame t u → Frame s u
Frame-trans {s} {t} {u} f g = ground arith

pub Frame-IsValid : {s s' : Sim} → Frame s s' → IsValid s → IsValid s'
Frame-IsValid f v = record {
  is_allocated = f.memory ∙ v.is_allocated;
  block_shift = f.block_shift ∙ v.block_shift;
  zone_shift = omega arith;
  fits = rw (f.status_length, f.zone_shift, f.capacity) v.fits;
  small = omega arith;
  status_room = omega arith;
  stats_room = omega arith;
  counted = omega arith;
  defaults = omega arith;
  queue = f.queue v.queue;
  object = omega arith;
  sized = omega arith;
}

-- A change of the background task's queue that keeps it in order.
pub note-Frame :
    {s s' : Sim} (p : PstoreTask)
    → (IsSpread s.ptask → IsSpread p)
    → (s.ptask.flag.config_change ≡ true → p.flag.config_change ≡ true)
    → Frame s s'
    → Frame s (record s' { ptask = p })
note-Frame p q w f = record {
  capacity = f.capacity;
  numzones = f.numzones;
  numzones_default = f.numzones_default;
  zone_shift = f.zone_shift;
  block_shift = f.block_shift;
  memory = f.memory;
  counted = f.counted;
  config = f.config;
  reset_option = f.reset_option;
  adjust_option = f.adjust_option;
  log_option = f.log_option;
  queue = q;
  pending = w;
  status_length = f.status_length;
  stats_length = f.stats_length;
  header_length = f.header_length;
  stats_rest = f.stats_rest;
}

pub note_refusal-pending :
    (p : PstoreTask) (i : ℕ) → (note_refusal p i).flag.config_change ≡ p.flag.config_change
unfolding note_refusal
note_refusal-pending p i = refl

note_write-pending :
    (p : PstoreTask) (i : ℕ) → (note_write p i).flag.config_change ≡ p.flag.config_change
unfolding note_write
note_write-pending p i = ground arith

pub note_refusal-Frame :
    {s s' : Sim} (i : ℕ) → Frame s s' → Frame s (record s' { ptask = note_refusal s'.ptask i })
note_refusal-Frame {s} {s'} i f =
    note-Frame _ (λ h. note_refusal-IsSpread s'.ptask i (f.queue h))
      (λ h. note_refusal-pending s'.ptask i ∙ f.pending h) f

pub note_write-Frame :
    {s s' : Sim} (i : ℕ) → Frame s s' → Frame s (record s' { ptask = note_write s'.ptask i })
note_write-Frame {s} {s'} i f =
    note-Frame _ (λ h. note_write-IsSpread s'.ptask i (f.queue h))
      (λ h. note_write-pending s'.ptask i ∙ f.pending h) f

pub log_error-Frame : (s : Sim) (c : Code) → Frame s (log_error s c)
unfolding log_error log_code
log_error-Frame s c = ground arith

-- Zone `i` is in the table, and entry `i` of both arrays can be accessed.
pub record CanAccess (s : Sim) (i : ℕ) : Type 0 where
  pub is_allocated : s.memory ≡ live
  pub in_table : i < s.smr_numzones
  pub in_status : i < length s.zone_status
  pub in_stats : i < length s.zone_stats

pub Frame-CanAccess : {s s' : Sim} {i : ℕ} → Frame s s' → CanAccess s i → CanAccess s' i
Frame-CanAccess f c = ground arith

pub zone_at-CanAccess :
    {s : Sim} {i : ℕ} → CanAccess s i → (z : ZoneStatus) × (zone_at s i ≡ some z)
zone_at-CanAccess {s} {i} c =
    let (z, e) = get_elem?-some s.zone_status i c.in_status in
    (z, zone_at-live s i c.is_allocated ∙ e)

pub modify_zone-Frame :
    {s : Sim} {i : ℕ} (f : ZoneStatus → ZoneStatus)
    → CanAccess s i
    → (s' : Sim) × (modify_zone s i f ≡ some s') × Frame s s'
modify_zone-Frame {s} {i} f c =
    let (z, e) = zone_at-CanAccess c in
    (
      record s { zone_status = set s.zone_status i (f z) },
      modify_zone-some s i f e,
      ground (arith, length-set s.zone_status i (f z)),
    )

pub modify_stats-Frame :
    {s : Sim} {i : ℕ} (f : ZoneStats → ZoneStats)
    → CanAccess s i
    → (s' : Sim) × (modify_stats s i f ≡ some s') × Frame s s' × (s'.zone_status ≡ s.zone_status)
modify_stats-Frame {s} {i} f c =
    let (t, e) = get_elem?-some s.zone_stats i c.in_stats in
    (
      record s { zone_stats = set s.zone_stats i (f t) },
      modify_stats-some s i f (stats_at-live s i c.is_allocated ∙ e),
      ground (
        arith,
        length-set s.zone_stats i (f t),
        drop-set_before s.zone_stats i s.smr_numzones (f t) c.in_table,
      ),
      refl,
    )

-- The counters of a zone and the read error.
pub read_stats-Frame :
    (s : Sim) (i : ℕ) (u : ZoneStats) (r : ℕ)
    → i < s.smr_numzones
    → Frame s (record s { zone_stats = set s.zone_stats i u; dbg_rerr = r })
read_stats-Frame s i u r h =
    ground (arith, length-set s.zone_stats i u, drop-set_before s.zone_stats i s.smr_numzones u h)

-- The geometry of the zones stays.
pub Frame-num_sectors_zone : {s s' : Sim} → Frame s s' → num_sectors_zone s' ≡ num_sectors_zone s
unfolding num_sectors_zone
Frame-num_sectors_zone f = rw (f.block_shift, f.zone_shift)

pub Frame-zone_idx_lba : {s s' : Sim} (i : ℕ) → Frame s s' → zone_idx_lba s' i ≡ zone_idx_lba s i
unfolding zone_idx_lba
Frame-zone_idx_lba i f = rw (f.block_shift, f.zone_shift)

pub Frame-zone_idx_of : {s s' : Sim} (x : ℕ) → Frame s s' → zone_idx_of s' x ≡ zone_idx_of s x
unfolding zone_idx_of
Frame-zone_idx_of x f = rw (f.block_shift, f.zone_shift)

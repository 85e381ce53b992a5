-- ===== src/Util/ResetZone.antt =====
-- The command `z 5` down to the zone: smrsim_util.c, main and smrsim_zone_iot, through smrsim_ioctl
-- of dm-smrsim.c.
use smr_simulator.Base.{
  ℕ, ◌*◌, ◌≡◌, ◌≢◌, ◌<◌, ◌≤◌, refl, arith, Bool, true, [], ◌∷◌, ◌++◌, some, u64, set, if◌then◌else◌,
  ◌==◌,
}
use smr_simulator.Types.Cond
use smr_simulator.Types.Kind
use smr_simulator.Types.{ZoneStatus}
use smr_simulator.State.{Sim, zone_at}
use smr_simulator.State.Geometry.{IsValid, size_of, num_sectors_zone-size, zones_fit}
use smr_simulator.Pstore.Queue.{note_config}
use smr_simulator.Config.Stats.{get_num_zones, get_size_zone_default}
use smr_simulator.Config.Stats.Rewind.{rewound, blkdev_reset_zone_ptr_start}
use smr_simulator.Ioctl.{
  dispatch, ioctl_reset_config, ioctl_zones, ioctl_research, ioctl_table, ioctl_device,
  ioctl_reset_stats, ioctl_log, ioctl_get, word, nothing, done, get_numzones, get_sizzonedefault,
  zbc_reset_zone, given, writable,
}
use smr_simulator.Util.Atoi.{Text, atoi}
use smr_simulator.Util.Run.{Run, next, value}
use smr_simulator.Util.Zones.{zone_iot, reset_index}
use smr_simulator.Util.Main.{main, command}

module _ (is_power_of_2 : ℕ → Bool) (allocated kzalloc krealloc : Bool) where
  pub numzones_call :
      (s : Sim)
      → dispatch is_power_of_2 allocated kzalloc krealloc s (get_numzones writable)
        ≡ done (word s.smr_numzones) s
  unfolding dispatch ioctl_reset_config ioctl_zones ioctl_research ioctl_table ioctl_device
      ioctl_reset_stats ioctl_log ioctl_get get_num_zones
  numzones_call s = refl

  pub size_call :
      {s : Sim}
      → IsValid s
      → dispatch is_power_of_2 allocated kzalloc krealloc s (get_sizzonedefault writable)
        ≡ done (word (size_of s)) s
  unfolding dispatch ioctl_reset_config ioctl_zones ioctl_research ioctl_table ioctl_device
      ioctl_reset_stats ioctl_log ioctl_get get_size_zone_default
  size_call {s} v = rw (num_sectors_zone-size v) refl

  reset_call :
      {s : Sim} {z : ZoneStatus} (i : ℕ)
      → IsValid s
      → i < s.smr_numzones
      → zone_at s i ≡ some z
      → z.z_type ≢ Kind.conventional
      → dispatch is_power_of_2 allocated kzalloc krealloc s (zbc_reset_zone (given (i * size_of s)))
        ≡ done nothing (record (rewound s i z) { ptask = note_config s.ptask })
  unfolding dispatch ioctl_reset_config ioctl_zones
  reset_call {s} {z} i v h e k = ground (arith, (blkdev_reset_zone_ptr_start i v h e k).0)

  pub start-u64 :
      {s : Sim} (i : ℕ) → IsValid s → i < s.smr_numzones → u64 (i * size_of s) ≡ i * size_of s
  start-u64 {s} i v h = omega (arith, v.small, zones_fit v, start_le i s.smr_numzones (size_of s) h)
    where
      start_le : (i n p : ℕ) → i < n → i * p ≤ n * p
      start_le i n p h = grind arith

  -- With the switch of smrsim_ioctl as the driver (`dispatch`),
  -- `smrsim_util <device> z 5 <index>` on a device in a valid state, for a zone that is not
  -- conventional: the write pointer of that zone is 0 and a sequential zone is empty, nothing else of
  -- the zone and no other zone changes, the change is noted for the background task, the zone's index
  -- is printed, and the command ends normally.
  pub reset_index_lem :
      (rounds garbage : ℕ) (dev code seq text : Text) (r : Run) (i : ℕ) (z : ZoneStatus)
      → IsValid r.device
      → i < r.device.smr_numzones
      → zone_at r.device i ≡ some z
      → z.z_type ≢ Kind.conventional
      → atoi seq ≡ 5
      → atoi text ≡ i
      → main
          (dispatch is_power_of_2 allocated kzalloc krealloc)
          rounds
          garbage
          true
          (dev ∷ (122 ∷ code) ∷ seq ∷ text ∷ [])
          r
        ≡ next tt (record r {
          device = record r.device {
            zone_status = set r.device.zone_status i (record z {
              z_write_ptr_offset = 0;
              z_conds = if z.z_type == Kind.sequential then Cond.empty else z.z_conds;
            });
            ptask = note_config r.device.ptask;
          };
          printed = r.printed ++ (value i ∷ []);
        })
  unfolding main command zone_iot reset_index
  reset_index_lem rounds garbage dev code seq text r i z v h e k es et =
      ground
        (arith, es, et, numzones_call r.device, size_call v, start-u64 i v h, reset_call i v h e k)

-- ===== src/Map/Host.antt =====
-- smrsim_map for a write to a sequential zone under the default policy: which requests reach the
-- disk.
use native.Mathlib.Decide.{dec_lt}
use smr_simulator.Base.{
  length-set, drop, drop-set_before, ℕ, ◌+◌, ◌*◌, ◌%◌, ◌≡◌, ◌≢◌, Bool-cases, inl, inr, ◌≤◌, ◌<◌,
  arith, some, Bool, true, false, if◌then◌else◌, ◌==◌, leb, not, ◌&&◌, ◌||◌, set, u32, refl, ◌∙◌,
}
use smr_simulator.Types.Cond
use smr_simulator.Types.Kind
use smr_simulator.Types.{
  ZoneStatus, ZoneStats, Code, success, Bio, write, err_write_ro, err_write_full, err_zone_offline,
  err_out_of_policy,
}
use smr_simulator.State.{Sim}
use smr_simulator.State.Geometry.{size_of}
use smr_simulator.Pstore.Queue.{note_write, note_refusal}
use smr_simulator.Pstore.Gap.{note_refusal-IsSpread}
use smr_simulator.Rules.Log.{log_error, log_code}
use smr_simulator.Rules.Frame.{Frame, note-Frame, log_error-Frame, note_refusal-pending}
use smr_simulator.Rules.Aims.{Aims, Aims-Sizes}
use smr_simulator.Rules.Write.{
  count_unaligned, count_not_on_swp, count_write_span, set_wp_conds, conds_at, end_lba,
}
use smr_simulator.Rules.HostWrite.{host_code, host_state, write_rule_check-host}
use smr_simulator.Map.{
  Target, remapped, refused, map_sector, mapped, nomap, map_write, by_direction, map_at,
}

-- The rules of a host-managed drive: the zone can be written, and the request is a run of 4 KiB
-- blocks from the write pointer to the zone's end at most.
unfoldable pub accepts : Sim → Bio → ℕ → ZoneStatus → Bool
accepts s b i z =
    not (z.z_conds == Cond.offline)
    && not (z.z_conds == Cond.read_only)
    && (not (z.z_conds == Cond.full) || b.bi_sector == i * size_of s)
    && b.bi_size % 4096 == 0
    && b.bi_sector == i * size_of s + z.z_write_ptr_offset
    && leb (b.bi_sector + b.bio_sectors) (i * size_of s + size_of s)

-- The zone after an accepted write: the pointer moves past it, and the zone is full or closed.
abbrev pub written : Sim → Bio → ZoneStatus → ZoneStatus
written s b z =
    let wp = z.z_write_ptr_offset + b.bio_sectors in
    record z {
      z_write_ptr_offset = u32 wp;
      z_conds = if wp == size_of s then Cond.full else Cond.closed;
    }

module _ {s : Sim} {b : Bio} {i : ℕ} {z : ZoneStatus} {t : ZoneStats} (a : Aims s b i z t)
    (dir : b.bio_dir ≡ write) (kind : z.z_type ≡ Kind.sequential)
    (policy : s.dev_config.out_of_policy_write_flag ≡ 0) (r : s.wp_reset_flag ≡ 0)
    (d : s.wp_adjust_flag ≡ 0) (f : z.z_flag ≡ 0) where
  -- For a request to a zone of the table (`Aims`), under the default write policy and
  -- with the research options off: a write to a sequential zone that keeps the rules of a
  -- host-managed drive is sent to the disk without delay; the zone's pointer moves past it and the
  -- zone is full or closed. The change is noted for the persistence task, and nothing else of the
  -- state changes.
  pub map_at-accepts :
      (target : Target)
      → accepts s b i z ≡ true
      → map_at s target b i
        ≡ some (
          remapped (if b.bio_sectors == 0 then b.bi_sector else map_sector target b.bi_sector) 0,
          record s {
            zone_status = set s.zone_status i (written s b z);
            ptask = note_write s.ptask i;
          },
        )
  unfolding map_at by_direction map_write mapped accepts host_code host_state end_lba
  map_at-accepts target h = ground (arith, write_rule_check-host a kind r d f, Aims-Sizes a, a.zone)

  long_refuses :
      (target : Target)
      → i * size_of s + 2 * size_of s < b.bi_sector + b.bio_sectors
      → map_at s target b i ≡ some (nomap (log_error s err_out_of_policy) i)
  unfolding map_at end_lba
  long_refuses target h = ground (arith, Aims-Sizes a)

  offline_refuses :
      (target : Target)
      → b.bi_sector + b.bio_sectors ≤ i * size_of s + 2 * size_of s
      → z.z_conds ≡ Cond.offline
      → map_at s target b i ≡ some (nomap (log_error s err_zone_offline) i)
  unfolding end_lba map_at
  offline_refuses target l h = ground (arith, Aims-Sizes a, a.zone)

  read_only_refuses :
      (target : Target)
      → b.bi_sector + b.bio_sectors ≤ i * size_of s + 2 * size_of s
      → z.z_conds ≡ Cond.read_only
      → map_at s target b i ≡ some (nomap (log_error s err_write_ro) i)
  unfolding end_lba map_at by_direction map_write
  read_only_refuses target l h = ground (arith, Aims-Sizes a, a.zone)

  full_refuses :
      (target : Target)
      → b.bi_sector + b.bio_sectors ≤ i * size_of s + 2 * size_of s
      → z.z_conds ≡ Cond.full
      → b.bi_sector ≢ i * size_of s
      → map_at s target b i ≡ some (nomap (log_error s err_write_full) i)
  unfolding end_lba map_at by_direction map_write
  full_refuses target l h n = ground (arith, Aims-Sizes a, a.zone)

  check_refuses :
      (target : Target)
      → b.bi_sector + b.bio_sectors ≤ i * size_of s + 2 * size_of s
      → z.z_conds ≢ Cond.offline
      → z.z_conds ≢ Cond.read_only
      → ¬ ((z.z_conds ≡ Cond.full) × (b.bi_sector ≢ i * size_of s))
      → host_code s b i z ≢ success
      → map_at s target b i ≡ some (nomap (host_state s b i z t (host_code s b i z)) i)
  unfolding end_lba map_at by_direction map_write
  check_refuses target l h₁ h₂ h₃ n =
      ground (arith, write_rule_check-host a kind r d f, Aims-Sizes a, a.zone)

  Refuses : Target → Type 0
  Refuses target =
      (s' : Sim) × (map_at s target b i ≡ some (refused, s'))
      × (s'.zone_status ≡ s.zone_status)
      × (s'.ptask ≡ note_refusal s.ptask i)
      × Frame s s'

  Refuses-log_error :
      (target : Target) (c : Code)
      → map_at s target b i ≡ some (nomap (log_error s c) i)
      → Refuses target
  unfolding Refuses nomap log_error log_code
  Refuses-log_error target c e = (
    record (log_error s c) { ptask = note_refusal s.ptask i },
    ground arith,
    ground arith,
    refl,
    note-Frame _ (note_refusal-IsSpread s.ptask i) (λ h. note_refusal-pending s.ptask i ∙ h)
        (log_error-Frame s c),
  )

  host_state-Frame : (c : Code) → Frame s (host_state s b i z t c)
  unfolding log_error log_code host_state
  host_state-Frame c = ground (
    arith,
    length-set s.zone_stats i (count_unaligned t),
    length-set s.zone_stats i (count_not_on_swp t),
    length-set s.zone_stats i (count_write_span t),
    rest (count_unaligned t),
    rest (count_not_on_swp t),
    rest (count_write_span t),
    length-set s.zone_status i (set_wp_conds wp (conds_at wp (size_of s)) z),
  )
    where
      wp : ℕ
      wp = z.z_write_ptr_offset + b.bio_sectors

      rest :
          (u : ZoneStats)
          → drop s.smr_numzones (set s.zone_stats i u) ≡ drop s.smr_numzones s.zone_stats
      rest u = drop-set_before s.zone_stats i s.smr_numzones u a.in_table

  Refuses-host_state :
      (target : Target)
      → host_code s b i z ≢ success
      → map_at s target b i ≡ some (nomap (host_state s b i z t (host_code s b i z)) i)
      → Refuses target
  unfolding Refuses nomap log_error log_code host_state host_code
  Refuses-host_state target n e = (
    record (host_state s b i z t (host_code s b i z)) { ptask = note_refusal s.ptask i },
    ground arith,
    ground arith,
    refl,
    note-Frame _ (note_refusal-IsSpread s.ptask i) (λ h. note_refusal-pending s.ptask i ∙ h)
        (host_state-Frame (host_code s b i z)),
  )

  -- For a request to a zone of the table (`Aims`), under the default write policy and
  -- with the research options off: a write to a sequential zone that breaks a rule of a
  -- host-managed drive is refused, for whichever rule it is. No zone changes, nor does the
  -- configuration, and the zone is noted for the persistence task as the one whose counters did.
  pub map_at-breaks :
      (target : Target)
      → accepts s b i z ≡ false
      → (s' : Sim) × (map_at s target b i ≡ some (refused, s'))
        × (s'.zone_status ≡ s.zone_status)
        × (s'.ptask ≡ note_refusal s.ptask i)
        × Frame s s'
  unfolding accepts host_code Refuses
  map_at-breaks target h =
      elim (dec_lt (i * size_of s + 2 * size_of s) (b.bi_sector + b.bio_sectors)) [
        | yes l ↦ Refuses-log_error target err_out_of_policy (long_refuses target l)
        | no l ↦ by_zone (omega arith)
      ]
    where
      by_zone : b.bi_sector + b.bio_sectors ≤ i * size_of s + 2 * size_of s → Refuses target
      by_zone l = elim (Bool-cases (z.z_conds == Cond.offline)) [
        | inl e ↦
            Refuses-log_error target err_zone_offline (offline_refuses target l (ground arith))
        | inr n₁ ↦ elim (Bool-cases (z.z_conds == Cond.read_only)) [
          | inl e ↦
              Refuses-log_error target err_write_ro (read_only_refuses target l (ground arith))
          | inr n₂ ↦
              elim (Bool-cases (z.z_conds == Cond.full && not (b.bi_sector == i * size_of s))) [
                | inl e ↦
                    Refuses-log_error target err_write_full
                      (full_refuses target l (ground arith) (ground arith))
                | inr n₃ ↦ Refuses-host_state target (ground arith) (
                    check_refuses target l (ground arith) (ground arith) (ground arith)
                      (ground arith))
              ]
        ]
      ]

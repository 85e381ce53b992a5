-- ===== src/Rules/HostConventional.antt =====
-- Writes within a conventional zone: the write pointer of such a zone records how far it was
-- written.
use smr_simulator.Base.{
  ℕ, ◌+◌, ◌-◌, ◌*◌, ◌≡◌, ◌≤◌, arith, some, if◌then◌else◌, ◌==◌, ltb, set, set_self, ap, sym, ◌∙◌,
}
use smr_simulator.Types.Kind
use smr_simulator.Types.{ZoneStatus, ZoneStats, success, Bio}
use smr_simulator.State.{Sim, modify_zone}
use smr_simulator.State.Geometry.{size_of}
use smr_simulator.State.Access.{modify_zone-some, zone_at-live}
use smr_simulator.Exit.{ret, next}
use smr_simulator.Rules.Aims.{Aims, Aims-Sizes}
use smr_simulator.Rules.Write.{
  check_align, check_pointer, trace_conventional, check_border, advance, write_rule_check, set_wp,
  end_lba,
}

-- Where the pointer is afterwards, as an offset: at the end of the write if that is farther, and
-- else where it was; but if the write ends exactly at the pointer, it moves by the write's length.
unfoldable pub high_water : Sim → Bio → ℕ → ZoneStatus → ℕ
high_water s b i z =
    let end = b.bi_sector + b.bio_sectors in
    let mark = i * size_of s + z.z_write_ptr_offset in
    if end == i * size_of s + size_of s
    then size_of s
    else if ltb mark end
    then b.bi_sector + b.bio_sectors - i * size_of s
    else if ltb end mark
    then z.z_write_ptr_offset
    else z.z_write_ptr_offset + b.bio_sectors

module _ {s : Sim} {b : Bio} {i : ℕ} {z : ZoneStatus} {t : ZoneStats} (a : Aims s b i z t)
    (kind : z.z_type ≡ Kind.conventional)
    (inside : b.bi_sector + b.bio_sectors ≤ i * size_of s + size_of s) where
  align_next : check_align s b i 0 ≡ next (0, s)
  unfolding check_align
  align_next = ground (arith, a.zone)

  pointer_next : check_pointer s b i 0 0 ≡ next (0, s)
  unfolding check_pointer
  pointer_next = ground (arith, a.zone)

  moved : ℕ → Sim
  moved wp = record s { zone_status = set s.zone_status i (set_wp wp z) }

  moves : (wp : ℕ) → modify_zone s i (set_wp wp) ≡ some (moved wp)
  unfolding moved
  moves wp = modify_zone-some s i (set_wp wp) a.zone

  stays : record s { zone_status = set s.zone_status i (set_wp z.z_write_ptr_offset z) } ≡ s
  stays =
      ap (λ zs. record s { zone_status = zs })
        (set_self s.zone_status i z (sym (zone_at-live s i a.valid.is_allocated) ∙ a.zone))

  trace_cases : trace_conventional s b i ≡ (
      if b.bi_sector + b.bio_sectors == i * size_of s + size_of s
      then ret success (moved (size_of s))
      else if ltb (i * size_of s + z.z_write_ptr_offset) (b.bi_sector + b.bio_sectors)
      then ret success (moved (b.bi_sector + b.bio_sectors - i * size_of s))
      else if ltb (b.bi_sector + b.bio_sectors) (i * size_of s + z.z_write_ptr_offset)
      then ret success s
      else next s)
  unfolding trace_conventional end_lba
  trace_cases = ground (
    arith,
    a.zone,
    Aims-Sizes a,
    moves (size_of s),
    moves (b.bi_sector + b.bio_sectors - i * size_of s),
  )

  border_next : check_border s b i 0 0 ≡ next (0, s)
  unfolding check_border end_lba
  border_next = ground (arith, Aims-Sizes a)

  advance_next : advance s b i 0 ≡ next (moved (z.z_write_ptr_offset + b.bio_sectors))
  unfolding advance end_lba
  advance_next =
      ground (arith, a.zone, a.pointer, Aims-Sizes a, moves (z.z_write_ptr_offset + b.bio_sectors))

  -- For a request to a zone of the table (`Aims`): under the default policy every write
  -- within a conventional zone is accepted, wherever it starts and whatever its size, and changes
  -- the zone's pointer at most: to the end of the write if that is farther or the zone's end. A
  -- write that ends below the pointer leaves it, but one that ends exactly at it moves it by the
  -- write's length.
  pub write_rule_check-conventional :
      write_rule_check s b i 0
      ≡ some
          (success, record s { zone_status = set s.zone_status i (set_wp (high_water s b i z) z) })
  unfolding write_rule_check moved high_water
  write_rule_check-conventional =
      ground (arith, align_next, pointer_next, trace_cases, border_next, advance_next, stays)

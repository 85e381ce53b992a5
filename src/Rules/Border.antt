-- ===== src/Rules/Border.antt =====
-- A write that is let pass and ends exactly at a zone's border.
use native.Mathlib.Nat.{mul-div_cancel, mul-mod_left}
use smr_simulator.Base.{
  ℕ, ◌+◌, ◌-◌, ◌*◌, ◌/◌, ◌≡◌, ◌≤◌, arith, some, set, ◌∙◌, ap, u64, ◌==◌, if◌then◌else◌,
}
use smr_simulator.Types.Cond
use smr_simulator.Types.Kind
use smr_simulator.Types.{ZoneStatus, ZoneStats, Bio}
use smr_simulator.State.{Sim, zone_at, zone_idx_of}
use smr_simulator.State.Geometry.{size_of, zone_idx_of-div, zones_fit, size-bounds}
use smr_simulator.State.Access.{modify_zone-some}
use smr_simulator.Exit.{next}
use smr_simulator.Rules.Aims.{Aims, Aims-Sizes}
use smr_simulator.Rules.Write.{close_last, end_lba, set_wp_conds, set_wp, conds_at}

add_mul : (i k p : ℕ) → i * p + k * p ≡ (i + k) * p
add_mul i k p = grind arith

-- Where a request to a zone of the table (`Aims`) goes from zone `i` exactly to the
-- start of the sequential zone `i + 1 + k`, `k` at least 1, of which it writes nothing, that zone
-- is taken as the one in which it ends, and the last step of a write that is let pass closes it
-- with its write pointer at the start, wherever it was.
pub close_last-border :
    {s : Sim} {b : Bio} {i : ℕ} {z : ZoneStatus} {t : ZoneStats} (k : ℕ) {y : ZoneStatus}
    → Aims s b i z t
    → 1 ≤ k
    → b.bi_sector + b.bio_sectors ≡ (i + (1 + k)) * size_of s
    → zone_at s (i + (1 + k)) ≡ some y
    → y.z_type ≡ Kind.sequential
    → (zone_idx_of s (end_lba b) ≡ i + (1 + k))
      × (close_last s b i (i + (1 + k))
          ≡ next (record s {
            zone_status = set s.zone_status (i + (1 + k)) (set_wp_conds 0 Cond.closed y);
          }))
unfolding close_last end_lba
close_last-border {s} {b} {i} k {y} a more e ey kind = (
  rw end_eq (
      zone_idx_of-div (b.bi_sector + b.bio_sectors) a.valid
        (omega (arith, zones_fit a.valid, a.ends))
      ∙ ap (λ x. x / size_of s) e
      ∙ mul-div_cancel (i + (1 + k)) {n = size_of s} (omega (arith, size-bounds a.valid))),
  ground (
    arith,
    Aims-Sizes a,
    left,
    mul-mod_left k (size_of s),
    modify_zone-some s (i + (1 + k))
        (λ y.
          if y.z_type == Kind.sequential
          then set_wp_conds 0 (conds_at 0 (size_of s)) y
          else set_wp 0 y)
        ey,
  ),
)
  where
    end_eq : u64 (b.bi_sector + b.bio_sectors) ≡ b.bi_sector + b.bio_sectors
    end_eq = omega (arith, Aims-Sizes a)

    left : b.bi_sector + b.bio_sectors - i * size_of s - size_of s ≡ k * size_of s
    left = omega (arith, add_mul i (1 + k) (size_of s), add_mul 1 k (size_of s))

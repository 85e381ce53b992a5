-- ===== src/Drive/Modify.antt =====
-- smrsim_modify_zone_config: the change of a zone.
use smr_simulator.Base.{
  ℕ, zero, suc, ◌+◌, ◌≡◌, ◌<◌, ◌≤◌, ◌^◌, sym, ap, arith, not, some, ◌∙◌, get_elem?,
}
use native.Mathlib.Decide.{dec_lt}
use smr_simulator.Types.{ZoneStatus}
use smr_simulator.State.{Sim, num_sectors_zone}
use smr_simulator.State.Geometry.{IsValid, num_sectors_zone-size, numzones-lt}
use smr_simulator.State.Access.{zone_at-valid, zone_at-live, modify_zone-some}
use smr_simulator.Config.Zones.{
  modify_zone_config, modify_checked, modify_rejects, modified, zone_seq_count, seq_count_from,
  zone_cond_check,
}
use smr_simulator.Query.Spec.{slice, slice-suc}
use smr_simulator.Drive.Obey.{modify_at, can_modify, count_sequential}
use smr_simulator.Drive.View.{view, IsTidy}
use smr_simulator.Drive.Ends.{Calls}
use smr_simulator.Drive.Table.{view-zone, view-no_zone, view-set, zone-IsTidy}

seq_count_from-count :
    {s : Sim} (n index count : ℕ)
    → IsValid s
    → index + n ≤ s.smr_numzones
    → count + n < 2 ^ 32
    → seq_count_from s n index count ≡ some (count + count_sequential (slice s index n))
unfolding seq_count_from count_sequential
seq_count_from-count zero index count v h l = ap some (omega arith)
seq_count_from-count {s} (suc n) index count v h l =
    let (z, e) = zone_at-valid index v (omega arith) in
    let entry : get_elem? s.zone_status index ≡ some z =
      sym (zone_at-live s index v.is_allocated) ∙ e in
    ground (
      arith,
      e,
      slice-suc s index n z entry,
      seq_count_from-count n (index + 1) count v (omega arith) (omega arith),
      seq_count_from-count n (index + 1) (count + 1) v (omega arith) (omega arith),
    )

zone_seq_count-count :
    {s : Sim} → IsValid s → zone_seq_count s ≡ some (count_sequential (view s).zones)
unfolding zone_seq_count view
zone_seq_count-count {s} v =
    seq_count_from-count s.smr_numzones 0 0 v (omega arith) (omega (arith, numzones-lt v))
    ∙ ap some (omega arith)

module _ {s : Sim} (v : IsValid s) where
  can_modify-rejects :
      (old z : ZoneStatus)
      → can_modify (view s) old z
        ≡ not (modify_rejects (num_sectors_zone s) (count_sequential (view s).zones) old z)
  unfolding can_modify modify_rejects zone_cond_check view
  can_modify-rejects old z = ground (arith, num_sectors_zone-size v)

module _ {s : Sim} (t : IsTidy s) where
  pub modify-Calls :
      (z : ZoneStatus)
      → Calls
          (modify_at (view s) z (get_elem? (view s).zones z.z_start))
          (modify_zone_config s (some z))
  unfolding modify_at modify_zone_config modify_checked
  modify-Calls z =
      let c = zone_seq_count-count t.valid in
      elim (dec_lt z.z_start s.smr_numzones) [
        | no out ↦ ground (arith, t, c, view-no_zone s z.z_start (omega arith))
        | yes h ↦
            let (old, e) = zone_at-valid z.z_start t.valid h in
            ground (
              arith,
              t,
              c,
              e,
              view-zone z.z_start t.valid h e,
              can_modify-rejects t.valid old z,
              modify_zone-some s z.z_start (modified z) e,
              view-set t z.z_start (modified z old),
              zone-IsTidy t z.z_start (modified z old),
            )
      ]

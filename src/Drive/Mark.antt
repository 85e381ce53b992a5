-- ===== src/Drive/Mark.antt =====
-- smrsim_border_across: the marks of the zones.
use smr_simulator.Base.{
  ℕ, zero, suc, ◌+◌, ◌/◌, ◌%◌, ◌≡◌, ◌<◌, ◌≤◌, ◌^◌, refl, sym, ap, arith, ◌==◌, List, some, take,
  drop, set, length, ◌∙◌, get_elem?, inl, inr, Bool-cases, u32, shr, length-set, get_elem?-set_self,
  get_elem?-set_ne, get_elem?-lt,
}
use smr_simulator.Types.Cross
use smr_simulator.Types.{ZoneStatus}
use smr_simulator.State.{Sim}
use smr_simulator.State.Geometry.{IsValid}
use smr_simulator.State.Access.{zone_at-valid, zone_at-live, modify_zone-some, set_zone-IsValid}
use smr_simulator.Config.Research.{update_zones, border_across, set_flag, set_flag_seq}
use smr_simulator.Query.Spec.{drop-cons}
use smr_simulator.Drive.Lists.{drop-set}
use smr_simulator.Drive.Obey.{each, mark_at, marked}
use smr_simulator.Drive.View.{view, IsTidy}
use smr_simulator.Drive.Ends.{Calls}
use smr_simulator.Drive.Table.{view-zone, view-set, zone-IsTidy}

-- The zones `index`, ..., `index + n - 1` are changed, and no other.
record Updates (f : ZoneStatus → ZoneStatus) (n index : ℕ) (xs ys : List ZoneStatus) : Type 0 where
  same_length : length ys ≡ length xs
  below : (j : ℕ) → j < index → get_elem? ys j ≡ get_elem? xs j
  changed : take n (drop index ys) ≡ each f (take n (drop index xs))

Updates-suc :
    {f : ZoneStatus → ZoneStatus} {n index : ℕ} {xs ys : List ZoneStatus} (z : ZoneStatus)
    → get_elem? xs index ≡ some z
    → Updates f n (index + 1) (set xs index (f z)) ys
    → Updates f (suc n) index xs ys
Updates-suc {f} {n} {index} {xs} {ys} z e u =
    let next : index + 1 ≡ suc index = omega arith in
    let own : get_elem? ys index ≡ some (f z) =
      u.below index (omega arith) ∙ get_elem?-set_self xs index (f z) (get_elem?-lt xs index e) in
    let rest : take n (drop (suc index) ys) ≡ each f (take n (drop (suc index) xs)) =
      rw (next, drop-set xs index (f z)) at u.changed in
    record {
      same_length = u.same_length ∙ length-set xs index (f z);
      below = λ j l.
          u.below j (omega arith) ∙ get_elem?-set_ne xs index j (f z) (λ q. absurd (omega arith));
      changed = rw (drop-cons ys index (f z) own, drop-cons xs index z e, rest) refl;
    }

update_zones-Updates :
    (f : ZoneStatus → ZoneStatus) (n index : ℕ) (s : Sim)
    → IsValid s
    → index + n ≤ s.smr_numzones
    → (ys : List ZoneStatus) × (update_zones f n s index ≡ some (record s { zone_status = ys }))
      × Updates f n index s.zone_status ys
      × IsValid (record s { zone_status = ys })
unfolding update_zones
update_zones-Updates f zero index s v h =
    (s.zone_status, refl, record { same_length = refl; below = λ j l. refl; changed = refl }, v)
update_zones-Updates f (suc n) index s v h =
    let (z, e) = zone_at-valid index v (omega arith) in
    let entry : get_elem? s.zone_status index ≡ some z =
      sym (zone_at-live s index v.is_allocated) ∙ e in
    let s₁ : Sim = record s { zone_status = set s.zone_status index (f z) } in
    let (ys, e', u, v') =
      update_zones-Updates f n (index + 1) s₁ (set_zone-IsValid index (f z) v) (omega arith) in
    (ys, ground (arith, modify_zone-some s index f e, e'), Updates-suc z entry u, v')

module _ {s : Sim} (t : IsTidy s) where
  -- All zones are changed.
  update_all :
      (f : ZoneStatus → ZoneStatus)
      → (s' : Sim) × (update_zones f s.smr_numzones s 0 ≡ some s')
        × (view s' ≡ record (view s) { zones = each f (view s).zones })
        × IsTidy s'
  unfolding view
  update_all f =
      let (ys, e, u, v) = update_zones-Updates f s.smr_numzones 0 s t.valid (omega arith) in
      (
        record s { zone_status = ys },
        e,
        ap (λ zs. record (view s) { zones = zs }) u.changed,
        record { valid = v; rest = t.rest },
      )

  pub border-Calls :
      (n : ℕ)
      → n < 2 ^ 40
      → (n % 256 ≡ Cross.cur → u32 (shr n 8) < s.smr_numzones)
      → Calls (marked (view s) (n % 256) (n / 256)) (border_across s n)
  unfolding border_across marked mark_at
  border-Calls n small h =
      let (s₁, e₁, w₁, t₁) = update_all (set_flag (n % 256)) in
      let (s₂, e₂, w₂, t₂) = update_all (set_flag_seq (n % 256)) in
      let index : u32 (shr n 8) ≡ n / 256 = omega arith in
      elim (Bool-cases (n % 256 == Cross.cur)) [
        | inr other ↦ ground (arith, t, t₁, t₂, e₁, e₂, w₁, w₂)
        | inl cur ↦
            let inside : n / 256 < s.smr_numzones = rw index at (h (ground (arith, cur))) in
            let (z, e) = zone_at-valid (n / 256) t.valid inside in
            ground (
              arith,
              index,
              view-zone (n / 256) t.valid inside e,
              modify_zone-some s (n / 256) (set_flag (n % 256)) e,
              view-set t (n / 256) (set_flag (n % 256) z),
              zone-IsTidy t (n / 256) (set_flag (n % 256) z),
            )
      ]

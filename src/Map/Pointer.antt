-- ===== src/Map/Pointer.antt =====
-- What one operation of the host does to the write pointers.
use smr_simulator.Base.{
  ℕ, ◌≡◌, ◌≢◌, ◌≤◌, arith, Option, some, set, refl, sym, ap, ◌∙◌, ◌⊎◌, inl, inr, get_elem?,
  get_elem?-set_self, get_elem?-set_ne, get_elem?-lt, Bool-cases, ◌==◌, List,
}
use smr_simulator.Types.{ZoneStatus}
use smr_simulator.State.{Sim, zone_at, live}
use smr_simulator.State.Access.{zone_at-live}
use smr_simulator.Map.{Target}
use smr_simulator.Map.Managed.{Step, Managed, Effect, nothing, changes, Step-Effect}

-- The pointer stays or moves forward, or the zone is back at its start; its type stays.
abbrev pub Moves : ZoneStatus → ZoneStatus → Type 0
Moves y y' =
    (y'.z_type ≡ y.z_type)
    × ((y.z_write_ptr_offset ≤ y'.z_write_ptr_offset) ⊎ (y'.z_write_ptr_offset ≡ 0))

some_inj : {a b : ZoneStatus} → ◌≡◌ {A = Option ZoneStatus} (some a) (some b) → a ≡ b
some_inj e = cc

Moves-refl : (y y' : ZoneStatus) → y ≡ y' → Moves y y'
Moves-refl y y' e = rw (← e) (refl, inl (omega arith))

Moves-set :
    (zs : List ZoneStatus) (i k : ℕ) (z z' y y' : ZoneStatus)
    → get_elem? zs i ≡ some z
    → Moves z z'
    → get_elem? zs k ≡ some y
    → get_elem? (set zs i z') k ≡ some y'
    → Moves y y'
Moves-set zs i k z z' y y' ez m ey ey' = elim (Bool-cases (i == k)) [
  | inl q ↦
      let same : i ≡ k = ground arith in
      let old : z ≡ y = some_inj (sym ez ∙ ap (λ n. get_elem? zs n) same ∙ ey) in
      let new : z' ≡ y' = some_inj (
        sym (get_elem?-set_self zs i z' (get_elem?-lt zs i ez))
        ∙ ap (λ n. get_elem? (set zs i z') n) same
        ∙ ey') in
      rw (← old, ← new) m
  | inr q ↦
      let other : i ≢ k = ground arith in
      Moves-refl y y' (some_inj (sym ey ∙ sym (get_elem?-set_ne zs i k z' other) ∙ ey'))
]

-- In a managed state one operation of the host, a write to a sequential zone, a read or a reset,
-- keeps the type of every zone, and leaves its pointer, or moves it forward or back to the start of
-- the zone: never back by a part.
pub Step-pointer :
    {target : Target} {s s' : Sim} (k : ℕ) {y y' : ZoneStatus}
    → Managed s
    → Step target s s'
    → zone_at s k ≡ some y
    → zone_at s' k ≡ some y'
    → Moves y y'
Step-pointer {target} {s} {s'} k {y} {y'} m st e e' =
    let (effect, f) = Step-Effect m st in moved effect (f.memory ∙ m.valid.is_allocated)
  where
    moved : Effect s s' → s'.memory ≡ live → Moves y y'
    moved (nothing same) l = Moves-refl y y' (
        some_inj (
          sym e
          ∙ zone_at-live s k m.valid.is_allocated
          ∙ ap (λ zs. get_elem? zs k) (sym same)
          ∙ sym (zone_at-live s' k l)
          ∙ e'))
    moved (changes i z z' ez q keep kind mv) l =
        Moves-set s.zone_status i k z z' y y' (sym (zone_at-live s i m.valid.is_allocated) ∙ ez) mv
          (sym (zone_at-live s k m.valid.is_allocated) ∙ e)
          (ap (λ zs. get_elem? zs k) (sym q) ∙ sym (zone_at-live s' k l) ∙ e')

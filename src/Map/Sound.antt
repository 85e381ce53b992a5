-- ===== src/Map/Sound.antt =====
-- What holds of a sequential zone as long as requests and resets change it.
use smr_simulator.Base.{
  ℕ, ◌≡◌, ◌≢◌, ◌≤◌, ◌<◌, arith, some, set, true, sym, ◌∙◌, ap, get_elem?, get_elem?-set_self,
  get_elem?-set_ne, length, Bool-cases, inl, inr, ◌==◌, List,
}
use smr_simulator.Types.Cond
use smr_simulator.Types.Kind
use smr_simulator.Types.{ZoneStatus, ZoneStats, Bio}
use smr_simulator.State.{Sim}
use smr_simulator.State.Geometry.{IsValid, size_of, size-bounds}
use smr_simulator.Rules.Aims.{Aims, Aims-Sizes}
use smr_simulator.Config.Stats.{rewind}
use smr_simulator.Map.Host.{accepts, written}

-- The pointer of a sequential zone is in the zone, which is full exactly if it is at the end, and
-- is at the start if the zone is empty.
pub record Sound (size : ℕ) (z : ZoneStatus) : Type 0 where
  pub inside : z.z_write_ptr_offset ≤ size
  pub full : z.z_conds ≡ Cond.full → z.z_write_ptr_offset ≡ size
  pub at_end : z.z_write_ptr_offset ≡ size → z.z_conds ≡ Cond.full
  pub empty : z.z_conds ≡ Cond.empty → z.z_write_ptr_offset ≡ 0
  pub single : z.z_flag ≡ 0

abbrev pub AllSound : ℕ → List ZoneStatus → Type 0
AllSound size zs =
    (i : ℕ) (z : ZoneStatus) → get_elem? zs i ≡ some z → z.z_type ≡ Kind.sequential → Sound size z

pub AllSound-set :
    (size : ℕ) (zs : List ZoneStatus) (i : ℕ) (z : ZoneStatus)
    → i < length zs
    → AllSound size zs
    → Sound size z
    → AllSound size (set zs i z)
AllSound-set size zs i z l h n j y e k = elim (Bool-cases (i == j)) [
  | inl q ↦
      let same : i ≡ j = ground arith in
      let read : get_elem? (set zs i z) i ≡ some y = ap (λ n. get_elem? (set zs i z) n) same ∙ e in
      let new : z ≡ y = some_inj (sym (get_elem?-set_self zs i z l) ∙ read) in rw (← new) n
  | inr q ↦ let other : i ≢ j = ground arith in h j y (sym (get_elem?-set_ne zs i j z other) ∙ e) k
]
  where
    some_inj : {a b : ZoneStatus} → some a ≡ some b → a ≡ b
    some_inj e = cc

pub written-Sound :
    {s : Sim} {b : Bio} {i : ℕ} {z : ZoneStatus} {t : ZoneStats}
    → Aims s b i z t
    → accepts s b i z ≡ true
    → Sound (size_of s) z
    → Sound (size_of s) (written s b z)
unfolding accepts
written-Sound {s} {b} {i} {z} a h n = record {
  inside = ground (arith, Aims-Sizes a);
  full = ground (arith, Aims-Sizes a);
  at_end = ground (arith, Aims-Sizes a);
  empty = ground (arith, Aims-Sizes a);
  single = n.single;
}

pub rewound-Sound :
    {s : Sim} (z : ZoneStatus)
    → IsValid s
    → z.z_type ≡ Kind.sequential
    → Sound (size_of s) z
    → Sound (size_of s) (rewind z)
rewound-Sound {s} z v k n = record {
  inside = omega arith;
  full = ground arith;
  at_end = ground (arith, size-bounds v);
  empty = ground arith;
  single = n.single;
}

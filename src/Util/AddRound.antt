-- ===== src/Util/AddRound.antt =====
-- smrsim_util.c, the loop of `l 8`, against smrsim_add_zone_config: `z_start` is a sector there and
-- an index here.
use native.Mathlib.Nat.{mul_assoc, pow-succ'}
use native.Mathlib.Decide.{dec_lt}
use smr_simulator.Base.{
  [], ◌∷◌, ◌++◌, ℕ, zero, suc, ◌+◌, ◌-◌, ◌*◌, ◌/◌, ◌^◌, ◌≡◌, ◌≢◌, ◌<◌, refl, arith, inl, inr, Bool,
  true, false, Option-cases, u32, length, Bool-cases, ◌==◌, ◌||◌,
}
use smr_simulator.Types.{ZoneStatus}
use smr_simulator.State.{Sim}
use smr_simulator.State.Geometry.{IsValid, size_of, numzones-lt}
use smr_simulator.Config.Zones.{add_rejects}
use smr_simulator.Config.Zones.Table.{added, add_zone_config_lem}
use smr_simulator.Ioctl.{
  dispatch, ioctl_reset_config, ioctl_zones, ioctl_research, ioctl_table, add_zoneconfig, given,
  ioerr, done, nothing, writable, get_sizzonedefault,
}
use smr_simulator.Pstore.Queue.{note_config}
use smr_simulator.Util.Run.{
  Run, Result, fault, left, next, Tool, Driver, print, asks_type, ◌>>=◌, ◌>>◌, ioctl_call, word_or,
  scanf, chain,
}
use smr_simulator.Util.Good.{Good, Any, scanf-Good, chain-Good, List-cases}
use smr_simulator.Util.Reads.{Same, numzones-Good, query_seq_zones-Good}
use smr_simulator.Util.ResetZone.{size_call}
use smr_simulator.Util.Add.{Vars, new_zone, add_answered, add_round, counted}

eight_times : (n a t : ℕ) → n ≡ 8 * a → n * t ≡ 8 * (a * t)
eight_times n a t h = rw h (mul_assoc 8 a t)

eight_pow : (j x : ℕ) → 8 ^ suc j * x ≡ 8 * (8 ^ j * x)
eight_pow j x = rw (pow-succ' 8 j) (mul_assoc 8 (8 ^ j) x)

-- A number that a multiple of 8 carries to itself below a power of two is a multiple of that power.
multiple_of : (j n t c : ℕ) → 8 * (n * t) ≡ n + 8 ^ j * (4 * c) → (q : ℕ) × (n ≡ 8 ^ j * (4 * q))
multiple_of zero n t c h = (2 * (n * t) - c, omega arith)
multiple_of (suc j) n t c h =
    let a = n * t - 8 ^ j * (4 * c) in
    let shape : n ≡ 8 * a = omega (arith, eight_pow j (4 * c)) in
    let (q, e) =
      multiple_of j a t c (omega (arith, eight_times n a t shape, eight_pow j (4 * c))) in
    (q, omega (arith, eight_pow j (4 * q)))

starts_wrong : (n k : ℕ) → 0 < n → n < 2 ^ 32 → u32 (n * (8 * 2 ^ k)) ≢ n
starts_wrong n k h small e =
    let (q, d) =
      multiple_of 10 n (2 ^ k) (n * (8 * 2 ^ k) / 2 ^ 32) (omega (arith, shape n (2 ^ k))) in
    omega (arith, d)
  where
    shape : (n t : ℕ) → n * (8 * t) ≡ 8 * (n * t)
    shape n t = grind arith

-- In a valid state that has a zone, the zone that the tool asks for is refused.
pub new_zone-refused :
    {s : Sim} (option : ℕ)
    → IsValid s
    → 0 < s.smr_numzones
    → add_rejects s (new_zone s.smr_numzones (size_of s) option) ≡ true
unfolding new_zone add_rejects
new_zone-refused {s} option v h =
    ground
      (arith, starts_wrong s.smr_numzones s.smr_zone_size_shift h (omega (arith, numzones-lt v)))

-- What a round leaves: a state that is the old one where the loop ends, and a table that was empty
-- and has a zone where it goes on.
abbrev pub Rounds : {A : Type 0} → Sim → Result A → Type 0
Rounds s fault = ⊥
Rounds s (left r) = r.device ≡ s
Rounds s (next a r) = (s.smr_numzones ≡ 0) × (r.device.smr_numzones ≡ 1) × IsValid r.device

then_round :
    {A B : Type 0} (s : Sim) (Q : A → Type 0) (f : A → Tool B) (x : Result A)
    → Good (Same s) Q x
    → ((a : A) (r : Run) → r.device ≡ s → Q a → Rounds s (f a r))
    → Rounds s (chain x f)
then_round s Q f fault h k = h
then_round s Q f (left r) h k = h
then_round s Q f (next a r) h k = k a r (h.0) (h.1)

module _ (is_power_of_2 : ℕ → Bool) (allocated kzalloc krealloc : Bool) {s : Sim}
    (v : IsValid s) where
  abbrev call : Driver
  call = dispatch is_power_of_2 allocated kzalloc krealloc

  add_call-refused :
      (z : ZoneStatus) → add_rejects s z ≡ true → call s (add_zoneconfig (given z)) ≡ ioerr s
  unfolding dispatch ioctl_reset_config ioctl_zones ioctl_research ioctl_table
  add_call-refused z h = ground (arith, (add_zone_config_lem v z).0 h)

  add_call-added :
      (z : ZoneStatus)
      → add_rejects s z ≡ false
      → s.smr_numzones < length s.zone_status
      → (s₁ : Sim) × (call s (add_zoneconfig (given z)) ≡ done nothing s₁)
        × (s₁.smr_numzones ≡ s.smr_numzones + 1)
        × IsValid s₁
  unfolding dispatch ioctl_reset_config ioctl_zones ioctl_research ioctl_table note_config
  add_call-added z h room =
      let (e, w) = (add_zone_config_lem v z).1 h room in
      (
        record (added s z) { ptask = note_config s.ptask },
        ground (arith, e),
        refl,
        ground (arith, w),
      )

  passes-empty :
      (option : ℕ)
      → add_rejects s (new_zone s.smr_numzones (size_of s) option) ≡ false
      → s.smr_numzones ≡ 0
  passes-empty option h = elim (dec_lt 0 s.smr_numzones) [
    | yes p ↦ ground (arith, new_zone-refused option v p)
    | no p ↦ omega arith
  ]

  answered-Rounds :
      (w : Vars) (r : Run)
      → r.device ≡ s
      → w.size32 ≡ size_of s
      → 0 < length s.zone_status
      → Rounds s (add_answered call s.smr_numzones w r)
  unfolding add_answered
  answered-Rounds w r e size room =
      elim (Bool-cases (add_rejects s (new_zone s.smr_numzones w.size32 w.option))) [
        | inl h ↦ ground (arith, e, add_call-refused _ h)
        | inr h ↦
            let empty : s.smr_numzones ≡ 0 = passes-empty w.option (rw (← size) h) in
            let (s₁, e₁, n₁, v₁) = add_call-added _ h (omega (arith, empty, room)) in
            elim (List-cases r.input) [
              | inl i ↦ ground (arith, i, e, e₁, n₁, v₁, empty)
              | inr (x, xs, i) ↦ ground (arith, i, e, e₁, n₁, v₁, empty)
            ]
      ]

  counted-Good :
      (num : ℕ) (w : Vars) (r : Run)
      → r.device ≡ s
      → Good (Same s) (λ u. u.size32 ≡ w.size32) (counted call num w r)
  unfolding counted
  counted-Good num w r e = elim (Bool-cases (w.flag || num == 0)) [
    | inl h ↦ ground (arith, h, e)
    | inr h ↦ rw h (
        chain-Good (Same s) (Same s) Any (λ u. u.size32 ≡ w.size32) (λ d x. x) _
          (λ a r₁ e₁ _. (e₁, refl)) _
          (query_seq_zones-Good is_power_of_2 allocated kzalloc krealloc v num r e))
  ]

  pub add_round-Rounds :
      (w : Vars) (r : Run) → r.device ≡ s → 0 < length s.zone_status → Rounds s (add_round call w r)
  unfolding add_round
  add_round-Rounds w r e room =
      then_round s _ _ _ (numzones-Good is_power_of_2 allocated kzalloc krealloc v r e)
        λ n r₁ e₁ en. then_round s _ _ _ (sized w _ e₁) λ o r₂ e₂ eo. elim (Option-cases o) [
          | inl h ↦ rw h (asked n w _ e₂ en (rw h at eo))
          | inr (a, h) ↦ rw h (asked n _ r₂ e₂ en (rw h at eo))
        ]
    where
      asked :
          (n : ℕ) (w : Vars) (r : Run)
          → r.device ≡ s
          → n ≡ s.smr_numzones
          → w.size32 ≡ size_of s
          → Rounds s (
              (counted call n w >>= λ u.
              print asks_type
              >> (scanf u.option >>= λ option. add_answered call n (record u { option = option })))
                r)
      asked n w r e en ew = then_round s _ _ _ (counted-Good n w r e) λ u r₁ e₁ eu.
          let r' = record r₁ { printed = r₁.printed ++ (asks_type ∷ []) } in
          then_round s Any (λ x. add_answered call n (record u { option = x })) (scanf u.option r')
            (scanf-Good (Same s) u.option r' e₁)
            λ option r₂ e₂ _.
              rw en (answered-Rounds (record u { option = option }) r₂ e₂ (rw eu ew) room)

      sized :
          (w : Vars) (r : Run)
          → r.device ≡ s
          → Good
              (Same s)
              (λ o. word_or w.size32 o ≡ size_of s)
              (ioctl_call call (get_sizzonedefault writable) r)
      sized w r e = ground (arith, e, size_call is_power_of_2 allocated kzalloc krealloc v)

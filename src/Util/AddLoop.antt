-- ===== src/Util/AddLoop.antt =====
-- smrsim_util.c, the command `l 8` on a device in a valid state.
use smr_simulator.Base.{
  ℕ, suc, ◌+◌, ◌≡◌, ◌≤◌, ◌<◌, refl, sym, subst, ap, arith, inl, inr, Bool, true, false, Option,
  some, none, length, Bool-cases, ◌==◌,
}
use smr_simulator.State.{Sim}
use smr_simulator.State.Geometry.{IsValid}
use smr_simulator.Ioctl.{dispatch}
use smr_simulator.Util.Atoi.{Text}
use smr_simulator.Util.Run.{Run, Result, fault, left, next, ended, Driver, Tool}
use smr_simulator.Util.ResetZone.{numzones_call}
use smr_simulator.Util.Add.{Vars, add_round, add_loop, first_vars}
use smr_simulator.Util.AddRound.{Rounds, add_round-Rounds}
use smr_simulator.Util.Config.{config_iot}

-- The end of the loop, from the state `s`.
abbrev Ends : Sim → Option Run → Type 0
Ends s none = ⊥
Ends s (some r) =
    IsValid r.device
    × (0 < s.smr_numzones → r.device ≡ s)
    × (r.device.smr_numzones ≤ s.smr_numzones + 1)

picked :
    (b : Bool) (m k : Tool (Unit {0})) (r : Run)
    → b ≡ true
    → (elim b as (λ x. Tool (Unit {0})) [ true ↦ m | false ↦ k ]) r ≡ m r
picked b m k r h = rw h refl

passed :
    (b : Bool) (m k : Tool (Unit {0})) (r : Run)
    → b ≡ false
    → (elim b as (λ x. Tool (Unit {0})) [ true ↦ m | false ↦ k ]) r ≡ k r
passed b m k r h = rw h refl

module _ (is_power_of_2 : ℕ → Bool) (allocated kzalloc krealloc : Bool) where
  abbrev call : Driver
  call = dispatch is_power_of_2 allocated kzalloc krealloc

  -- A table that has a zone ends the loop in its first round.
  full_loop :
      (n : ℕ) (w : Vars) (r : Run) (x : Result Vars)
      → 0 < r.device.smr_numzones
      → x ≡ add_round call w r
      → Rounds r.device x
      → (r' : Run) × (ended (add_loop call (suc n) w r) ≡ some r') × (r'.device ≡ r.device)
  unfolding add_loop
  full_loop n w r fault some_zone e h = absurd h
  full_loop n w r (left r₁) some_zone e h = (r₁, rw (← e) refl, h)
  full_loop n w r (next a r₁) some_zone e h = absurd (ground (arith, h))

  left_loop :
      (n : ℕ) (w : Vars) (r r₁ : Run)
      → left r₁ ≡ add_round call w r
      → add_loop call (suc n) w r ≡ left r₁
  unfolding add_loop
  left_loop n w r r₁ e = rw (← e) refl

  again_loop :
      (n : ℕ) (w a : Vars) (r r₁ : Run)
      → next a r₁ ≡ add_round call w r
      → (a.option == 1) ≡ true
      → add_loop call (suc n) w r ≡ add_loop call n a r₁
  unfolding add_loop
  again_loop n w a r r₁ e again = rw (← e) (picked _ _ _ r₁ again)

  stop_loop :
      (n : ℕ) (w a : Vars) (r r₁ : Run)
      → next a r₁ ≡ add_round call w r
      → (a.option == 1) ≡ false
      → add_loop call (suc n) w r ≡ next tt r₁
  unfolding add_loop
  stop_loop n w a r r₁ e stop = rw (← e) (passed _ _ _ r₁ stop)

  loop-Ends :
      (n : ℕ) (w : Vars) (r : Run) (x : Result Vars)
      → IsValid r.device
      → x ≡ add_round call w r
      → Rounds r.device x
      → Ends r.device (ended (add_loop call (suc (suc n)) w r))
  loop-Ends n w r fault v e h = absurd h
  loop-Ends n w r (left r₁) v e h =
      rw (left_loop (suc n) w r r₁ e)
        (subst IsValid (sym h) v, λ some_zone. h, omega (arith, ap (λ d. d.smr_numzones) h))
  loop-Ends n w r (next a r₁) v e (empty, one, v₁) = elim (Bool-cases (a.option == 1)) [
    | inl again ↦
        let (r₂, e₂, same₂) = full_loop n a r₁ _ (omega (arith, one)) refl (
          add_round-Rounds is_power_of_2 allocated kzalloc krealloc v₁ a r₁ refl
            (omega (arith, one, v₁.status_room))) in
        rw (again_loop (suc n) w a r r₁ e again, e₂, same₂)
          (v₁, λ some_zone. absurd (omega (arith, some_zone, empty)), omega (arith, one))
    | inr stop ↦
        rw (stop_loop (suc n) w a r r₁ e stop)
          (v₁, λ some_zone. absurd (omega (arith, some_zone, empty)), omega (arith, one))
  ]

  config_iot-add :
      (rounds garbage : ℕ) (arg : Option Text) (r : Run)
      → config_iot call rounds garbage 8 arg r ≡ add_loop call rounds first_vars r
  unfolding config_iot
  config_iot-add rounds garbage arg r =
      ground (arith, numzones_call is_power_of_2 allocated kzalloc krealloc r.device)

  -- On a device in a valid state whose table has room for a zone, with two rounds or more for the
  -- loop and the switch of smrsim_ioctl as the driver (`dispatch`), `l 8` ends whatever is typed
  -- and whether or not there is memory; the state stays valid and has at most one zone more, and if
  -- there was a zone before, nothing has changed.
  pub add_loop_lem :
      (n garbage : ℕ) (arg : Option Text) (r : Run)
      → IsValid r.device
      → 0 < length r.device.zone_status
      → (r' : Run) × (ended (config_iot call (suc (suc n)) garbage 8 arg r) ≡ some r')
        × IsValid r'.device
        × (0 < r.device.smr_numzones → r'.device ≡ r.device)
        × (r'.device.smr_numzones ≤ r.device.smr_numzones + 1)
  add_loop_lem n garbage arg r v room = Ends-run _ (
      rw (config_iot-add (suc (suc n)) garbage arg r) (
        loop-Ends n first_vars r _ v refl
          (add_round-Rounds is_power_of_2 allocated kzalloc krealloc v first_vars r refl room)))
    where
      Ends-run :
          (o : Option Run)
          → Ends r.device o
          → (r' : Run) × (o ≡ some r')
            × IsValid r'.device
            × (0 < r.device.smr_numzones → r'.device ≡ r.device)
            × (r'.device.smr_numzones ≤ r.device.smr_numzones + 1)
      Ends-run none h = absurd h
      Ends-run (some r') h = (r', refl, h.0, h.1, h.2)

-- ===== src/Util/Valid/Research.antt =====
-- smrsim_util.c, smrsim_zone_rt on a device in a valid state.
use smr_simulator.Base.{
  ℕ, ◌^◌, ◌≡◌, ◌<◌, arith, inl, inr, Bool, true, [], ◌==◌, Bool-cases, Option, some, u32, shr,
}
use smr_simulator.State.{Sim}
use smr_simulator.State.Geometry.{IsValid}
use smr_simulator.Ioctl.{dispatch, given, Cmd, bdwp_reset, fdwp_adjst, border_cross}
use smr_simulator.Ioctl.Calls.{Safe, given_inj}
use smr_simulator.Util.Atoi.{Text, atol}
use smr_simulator.Util.Run.{succeeded, invalid_command, Run, Driver, Msg, ioctl_say}
use smr_simulator.Util.Research.{zone_rt, set_rt_flag, border_of_zone, border_option}
use smr_simulator.Util.Good.{Good, Any, argument-Good}
use smr_simulator.Util.Reads.{Same}
use smr_simulator.Util.Valid.{then-IsValid, say-Good, print-Good}

module _ (is_power_of_2 : ℕ → Bool) (powers : (k : ℕ) → k < 64 → is_power_of_2 (2 ^ k) ≡ true)
    (kzalloc krealloc : Bool) {s : Sim} (v : IsValid s) where
  abbrev call : Driver
  call = dispatch is_power_of_2 true kzalloc krealloc

  said :
      (cmd : Cmd) (m : Msg) (r : Run)
      → r.device ≡ s
      → Safe s cmd
      → Good IsValid Any (ioctl_say call cmd m r)
  said = say-Good is_power_of_2 powers kzalloc krealloc v

  pub zone_rt-Good :
      (seq : ℕ) (arg : Option Text) (r : Run)
      → r.device ≡ s
      → (seq ≡ 4
          → (t : Text) → arg ≡ some t
          → u32 (shr (border_option (atol t)) 8) < s.smr_numzones)
      → Good IsValid Any (zone_rt call seq arg r)
  unfolding zone_rt set_rt_flag border_of_zone
  zone_rt-Good seq arg r e h = elim (Bool-cases (seq == 4)) [
    | inl is ↦ ground (arith, is, one_zone (h (ground (arith, is))))
    | inr isnt ↦ ground (
      arith,
      isnt,
      flag-Good (λ n. bdwp_reset (given n)) (λ n. tt),
      flag-Good (λ n. fdwp_adjst (given n)) (λ n. tt),
      said (border_cross (given 0x02)) succeeded r e
          (λ n en cur. absurd (ground (arith, given_inj en, cur))),
      said (border_cross (given 0)) succeeded r e
          (λ n en cur. absurd (ground (arith, given_inj en, cur))),
      print-Good is_power_of_2 powers kzalloc krealloc v invalid_command r e,
    )
  ]
    where
      flag-Good :
          (cmd : ℕ → Cmd)
          → ((n : ℕ) → Safe s (cmd n))
          → Good IsValid Any (set_rt_flag call cmd arg r)
      flag-Good cmd k =
          then-IsValid is_power_of_2 powers kzalloc krealloc v _ _ _
            (argument-Good (Same s) arg [] r e) λ t r₁ e₁ _. said _ _ r₁ e₁ (k _)

      one_zone :
          ((t : Text) → arg ≡ some t → u32 (shr (border_option (atol t)) 8) < s.smr_numzones)
          → Good IsValid Any (border_of_zone call arg r)
      one_zone k =
          then-IsValid is_power_of_2 powers kzalloc krealloc v _ _ _
            (argument-Good (Same s) arg [] r e)
            λ t r₁ e₁ et. said _ _ r₁ e₁ (λ n en _. rw (← given_inj en) (k t et))

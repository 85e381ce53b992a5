-- ===== src/Util/Valid/Config.antt =====
-- smrsim_util.c, smrsim_config_iot on a device in a valid state.
use smr_simulator.Base.{
  ℕ, suc, ◌^◌, ◌≡◌, ◌<◌, ◌&&◌, not, refl, subst, sym, arith, inl, inr, Bool, true, false, [], ◌∷◌,
  ◌++◌, leb, ◌==◌, Bool-cases, Option-cases, Option, some, none, length,
}
use smr_simulator.State.{Sim}
use smr_simulator.State.Geometry.{IsValid}
use smr_simulator.Ioctl.{
  dispatch, get_numzones, get_sizzonedefault, given, writable, Reply, Cmd, get_devconfig,
  reset_defaultconfig, reset_zoneconfig, reset_devconfig, clear_zoneconfig, set_devrconfig,
  set_devwconfig, set_devrconfig_delay, set_devwconfig_delay, modify_zoneconfig,
}
use smr_simulator.Ioctl.Calls.{Safe}
use smr_simulator.Util.Atoi.{Text, atoi}
use smr_simulator.Util.Run.{
  succeeded, invalid_command, Run, Result, fault, left, next, ended, Driver, Msg, ioctl_say,
  destroys_zones, scanf, print, failed, asks_condition, asks_type, ◌>>=◌, ◌>>◌,
}
use smr_simulator.Util.Config.{
  config_seq, config_iot, set_config, set_policy, set_delay, show_config, shown_config,
  report_devconf, modify_index, modify_answered, asked_condition, not_open, changed_zone,
  zero_config,
}
use smr_simulator.Util.AddLoop.{add_loop_lem}
use smr_simulator.Util.Good.{Good, Any, argument-Good, ioctl-Good, scanf-Good, chain-Good}
use smr_simulator.Util.ResetZone.{numzones_call, size_call}
use smr_simulator.Util.Reads.{Same, then-Same, numzones-Good, query_seq_zones-Good}
use smr_simulator.Util.Valid.{then-IsValid, call-Leaves, say-Good, print-Good}

module _ (is_power_of_2 : ℕ → Bool) (powers : (k : ℕ) → k < 64 → is_power_of_2 (2 ^ k) ≡ true)
    (kzalloc krealloc : Bool) {s : Sim} (v : IsValid s) where
  abbrev call : Driver
  call = dispatch is_power_of_2 true kzalloc krealloc

  said :
      (cmd : Cmd) (m : Msg) (r : Run)
      → r.device ≡ s
      → Safe s cmd
      → Good IsValid Any (ioctl_say call cmd m r)
  said = say-Good is_power_of_2 powers kzalloc krealloc v

  set_policy-Good :
      (cmd : ℕ → Cmd) (arg : Option Text) (r : Run)
      → r.device ≡ s
      → ((n : ℕ) → Safe s (cmd n))
      → Good IsValid Any (set_policy call cmd arg r)
  unfolding set_policy
  set_policy-Good cmd arg r e h =
      then-IsValid is_power_of_2 powers kzalloc krealloc v _ _ _ (argument-Good (Same s) arg [] r e)
        λ t r₁ e₁ _. ground (arith, e₁, v, said (cmd (atoi t)) succeeded r₁ e₁ (h (atoi t)))

  set_delay-Good :
      (cmd : ℕ → Cmd) (arg : Option Text) (r : Run)
      → r.device ≡ s
      → ((n : ℕ) → Safe s (cmd n))
      → Good IsValid Any (set_delay call cmd arg r)
  unfolding set_delay
  set_delay-Good cmd arg r e h =
      then-IsValid is_power_of_2 powers kzalloc krealloc v _ _ _ (argument-Good (Same s) arg [] r e)
        λ t r₁ e₁ _. said _ _ r₁ e₁ (h _)

  set_config-Good :
      (seq : ℕ) (arg : Option Text) (r : Run)
      → r.device ≡ s
      → Good IsValid Any (set_config call seq arg r)
  unfolding set_config
  set_config-Good seq arg r e = ground (
    arith,
    set_policy-Good
        (λ n. set_devrconfig (given (record zero_config { out_of_policy_read_flag = n }))) arg r e
        (λ n. tt),
    set_policy-Good
        (λ n. set_devwconfig (given (record zero_config { out_of_policy_write_flag = n }))) arg r e
        (λ n. tt),
    set_delay-Good
        (λ n. set_devrconfig_delay (given (record zero_config { r_time_to_rmw_zone = n }))) arg r e
        (λ n. tt),
    set_delay-Good
        (λ n. set_devwconfig_delay (given (record zero_config { w_time_to_rmw_zone = n }))) arg r e
        (λ n. tt),
    print-Good is_power_of_2 powers kzalloc krealloc v invalid_command r e,
  )

  show_config-Good : (r : Run) → r.device ≡ s → Good IsValid Any (show_config call r)
  unfolding show_config report_devconf
  show_config-Good r e =
      chain-Good IsValid IsValid Any Any (λ d w. w) _ (λ o r₁ w _. shown o r₁ w) _
        (ioctl-Good IsValid call _ r
          (rw e (call-Leaves is_power_of_2 powers kzalloc krealloc v (get_devconfig writable) tt)))
    where
      shown : (o : Option Reply) (r : Run) → IsValid r.device → Good IsValid Any (shown_config o r)
      shown none r w = (w, tt)
      shown (some a) r w = (w, tt)

  asked_condition-Good :
      (option garbage : ℕ) (r : Run)
      → r.device ≡ s
      → Good (Same s) Any (asked_condition option garbage r)
  asked_condition-Good option garbage r e = elim (Bool-cases (option == 1)) [
    | inl h ↦ ground (arith, h, e)
    | inr h ↦ rw h (
        then-Same is_power_of_2 true kzalloc krealloc v Any not_open
          (scanf garbage (record r { printed = r.printed ++ (asks_condition ∷ []) }))
          (scanf-Good (Same s) garbage (record r { printed = r.printed ++ (asks_condition ∷ []) })
            e)
          λ cond r₁ e₁ _. ground (arith, e₁))
  ]

  modify_answered-Good :
      (garbage num32 s_cnt size32 option : ℕ) (r : Run)
      → r.device ≡ s
      → Good IsValid Any (modify_answered call garbage num32 s_cnt size32 option r)
  unfolding modify_answered
  modify_answered-Good garbage num32 s_cnt size32 option r e =
      elim (Bool-cases (not (option == 1) && not (option == 2))) [
        | inl h ↦ ground (arith, h, e, v)
        | inr h ↦ rw h (
            then-IsValid is_power_of_2 powers kzalloc krealloc v Any _ _
              (asked_condition-Good option garbage r e)
              λ cond r₁ e₁ _. ground (
                arith,
                e₁,
                v,
                said (modify_zoneconfig (given (changed_zone num32 size32 option cond))) succeeded
                    r₁ e₁ tt,
              ))
      ]

  type_asked-Good :
      (garbage num32 s_cnt size32 : ℕ) (r : Run)
      → r.device ≡ s
      → Good IsValid Any (
          (do
            print asks_type
            option ← scanf 0
            modify_answered call garbage num32 s_cnt size32 option)
            r)
  type_asked-Good garbage num32 s_cnt size32 r e =
      let r₁ = record r { printed = r.printed ++ (asks_type ∷ []) } in
      then-IsValid is_power_of_2 powers kzalloc krealloc v Any
        (modify_answered call garbage num32 s_cnt size32) (scanf 0 r₁) (scanf-Good (Same s) 0 r₁ e)
        λ option r₂ e₂ _. modify_answered-Good garbage num32 s_cnt size32 option r₂ e₂

  modify_index-Good :
      (garbage : ℕ) (arg : Option Text) (r : Run)
      → r.device ≡ s
      → Good IsValid Any (modify_index call garbage arg r)
  unfolding modify_index
  modify_index-Good garbage arg r e =
      then-IsValid is_power_of_2 powers kzalloc krealloc v _ _ _ (argument-Good (Same s) arg [] r e)
        λ t r₁ e₁ _.
          then-IsValid is_power_of_2 powers kzalloc krealloc v _ _ _
            (numzones-Good is_power_of_2 true kzalloc krealloc v r₁ e₁)
            λ n r₂ e₂ _. elim (Bool-cases (leb n (atoi t))) [
              | inl h ↦ ground (arith, h, e₂, v)
              | inr h ↦ rw h (
                  then-IsValid is_power_of_2 powers kzalloc krealloc v Any _ _
                    (query_seq_zones-Good is_power_of_2 true kzalloc krealloc v n r₂ e₂)
                    λ cnt r₃ e₃ _.
                      then-IsValid is_power_of_2 powers kzalloc krealloc v Any _ _
                        (ioctl-Good (Same s) call (get_sizzonedefault writable) r₃
                          (rw e₃ (rw (size_call is_power_of_2 true kzalloc krealloc v) refl)))
                        λ o r₄ e₄ _. elim (Option-cases o) [
                          | inl n ↦ rw n (
                              type_asked-Good garbage (atoi t) cnt 0
                                (record r₄ { printed = r₄.printed ++ (failed ∷ []) }) e₄)
                          | inr (a, n) ↦ rw n (type_asked-Good garbage (atoi t) cnt _ r₄ e₄)
                        ])
            ]

  ended-Good :
      (x : Result (Unit {0})) (r : Run) → ended x ≡ some r → IsValid r.device → Good IsValid Any x
  ended-Good fault r h w = ground (arith, h)
  ended-Good (left r₁) r h w = ground (arith, h, w)
  ended-Good (next a r₁) r h w = ground (arith, h, w)

  add-Good :
      (n garbage : ℕ) (arg : Option Text) (r : Run)
      → r.device ≡ s
      → 0 < length s.zone_status
      → Good IsValid Any (config_iot call (suc (suc n)) garbage 8 arg r)
  add-Good n garbage arg r e room =
      let (r', ends, w, _, _) =
        add_loop_lem is_power_of_2 true kzalloc krealloc n garbage arg r (subst IsValid (sym e) v)
          (rw e room) in
      ended-Good _ r' ends w

  config_seq-Good :
      (rounds garbage seq : ℕ) (arg : Option Text) (r : Run)
      → r.device ≡ s
      → (seq == 8) ≡ false
      → Good IsValid Any (config_seq call rounds garbage seq arg r)
  unfolding config_seq
  config_seq-Good rounds garbage seq arg r e isnt =
      let r₁ = record r { printed = r.printed ++ (destroys_zones ∷ []) } in
      ground (
        arith,
        isnt,
        said reset_defaultconfig succeeded r e tt,
        said reset_zoneconfig succeeded r e tt,
        said reset_devconfig succeeded r e tt,
        said clear_zoneconfig succeeded r₁ e tt,
        show_config-Good r e,
        modify_index-Good garbage arg r e,
        set_config-Good seq arg r e,
      )

  pub config_iot-Good :
      (n garbage seq : ℕ) (arg : Option Text) (r : Run)
      → r.device ≡ s
      → 0 < length s.zone_status
      → Good IsValid Any (config_iot call (suc (suc n)) garbage seq arg r)
  unfolding config_iot
  config_iot-Good n garbage seq arg r e room = elim (Bool-cases (seq == 8)) [
    | inl is ↦
        let eight : 8 ≡ seq = ground (arith, is) in
        subst (λ k. Good IsValid Any (config_iot call (suc (suc n)) garbage k arg r)) eight
          (add-Good n garbage arg r e room)
    | inr isnt ↦
        then-IsValid is_power_of_2 powers kzalloc krealloc v Any _ _
          (ioctl-Good (Same s) call (get_numzones writable) r
            (rw e (rw (numzones_call is_power_of_2 true kzalloc krealloc s) refl)))
          λ o r₁ e₁ _. elim (Option-cases o) [
            | inl eo ↦ ground (arith, eo, e₁, v)
            | inr (a, eo) ↦ rw eo (config_seq-Good (suc (suc n)) garbage seq arg r₁ e₁ isnt)
          ]
  ]

-- ===== src/Util/Valid.antt =====
-- smrsim_util.c: the commands on a device in a valid state, down to the switch of
-- smrsim_ioctl, command by command.
pub mod Stats
pub mod Config
pub mod Research
use smr_simulator.Base.{
  ℕ, zero, suc, ◌+◌, ◌*◌, ◌%◌, ◌^◌, ◌≡◌, ◌≤◌, ◌<◌, ◌||◌, if◌then◌else◌, refl, subst, sym, arith,
  inl, inr, Bool, true, false, List, [], ◌∷◌, leb, ltb, ◌==◌, Bool-cases, Option-cases, Option,
  some, none, length, get_elem?, get_elem?-some, u64,
}
use smr_simulator.State.{Sim}
use smr_simulator.State.Geometry.{IsValid, size_of}
use smr_simulator.Ioctl.{
  dispatch, ioctl_stats, word, nothing, config, stats, zones, get_numzones, get_sizzonedefault,
  given, writable, Cmd, Reply, get_stats_cmd, reset_stats_cmd, reset_zonestats, set_sizzonedefault,
  zbc_reset_zone, get_last_rerror, get_last_werror, set_logenable, set_logdisable,
}
use smr_simulator.Ioctl.Calls.{Safe, dispatch_total}
use smr_simulator.Util.Atoi.{Text, atoi, atol}
use smr_simulator.Util.Run.{
  succeeded, invalid_command, print, ended, Run, Result, fault, left, next, Tool, Driver, Msg,
  ioctl_call, ioctl_say, argument, number_or_break, chain, word_or,
}
use smr_simulator.Util.Log.{show_number, err_iot}
use smr_simulator.Util.Zones.{set_size, reset_lba, reset_index, query_all, query_index, zone_iot}
use smr_simulator.Util.Good.{
  Good, Any, Leaves, chain-Good, ioctl-Good, ioctl_say-Good, argument-Good, malloc-Good, if-Good,
}
use smr_simulator.Util.ResetZone.{numzones_call}
use smr_simulator.Util.Reads.{
  Same, then-Same, numzones-Good, size-Good, query_all-Good, query_index-Good,
}

pub weaken :
    {A : Type 0} {s : Sim} (Q : A → Type 0) (x : Result A)
    → IsValid s
    → Good (Same s) Q x
    → Good IsValid Q x
weaken Q fault v h = h
weaken Q (left r) v h = subst IsValid (sym h) v
weaken Q (next a r) v h = (subst IsValid (sym (h.0)) v, h.1)

module _ (is_power_of_2 : ℕ → Bool) (powers : (k : ℕ) → k < 64 → is_power_of_2 (2 ^ k) ≡ true)
    (kzalloc krealloc : Bool) {s : Sim} (v : IsValid s) where
  abbrev call : Driver
  call = dispatch is_power_of_2 true kzalloc krealloc

  -- The next part of a command that has left the device as it is.
  pub then-IsValid :
      {A B : Type 0} (Q : A → Type 0) (f : A → Tool B) (x : Result A)
      → Good (Same s) Q x
      → ((a : A) (r : Run) → r.device ≡ s → Q a → Good IsValid Any (f a r))
      → Good IsValid Any (chain x f)
  then-IsValid Q f x h k =
      chain-Good (Same s) IsValid Q Any (λ d e. subst IsValid (sym e) v) f k x h

  call-Leaves : (cmd : Cmd) → Safe s cmd → Leaves IsValid (call s cmd)
  call-Leaves cmd h =
      let (o, e, w) = dispatch_total is_power_of_2 powers kzalloc krealloc s cmd v h in rw e w

  pub say-Good :
      (cmd : Cmd) (m : Msg) (r : Run)
      → r.device ≡ s
      → Safe s cmd
      → Good IsValid Any (ioctl_say call cmd m r)
  say-Good cmd m r e h = ioctl_say-Good IsValid call cmd m r (rw e (call-Leaves cmd h))

  pub show-Good :
      (cmd : Cmd) (r : Run) → r.device ≡ s → Safe s cmd → Good IsValid Any (show_number call cmd r)
  show-Good cmd r e h =
      chain-Good IsValid IsValid Any Any (λ d w. w) _
        (λ o r₁ w _. elim (Option-cases o) [
          | inl n ↦ ground (arith, n, w)
          | inr (a, n) ↦ ground (arith, n, w)
        ])
        _ (ioctl-Good IsValid call cmd r (rw e (call-Leaves cmd h)))

  pub print-Good : (m : Msg) (r : Run) → r.device ≡ s → Good IsValid Any (print m r)
  print-Good m r e = (subst IsValid (sym e) v, tt)

  pub err_iot-Good : (seq : ℕ) (r : Run) → r.device ≡ s → Good IsValid Any (err_iot call seq r)
  unfolding err_iot
  err_iot-Good seq r e = elim (Bool-cases (seq == 1)) [
    | inl h ↦ rw h (show-Good (get_last_rerror writable) r e tt)
    | inr h ↦ ground (
      arith,
      e,
      h,
      show-Good (get_last_werror writable) r e tt,
      say-Good set_logenable succeeded r e tt,
      say-Good set_logdisable succeeded r e tt,
      print-Good invalid_command r e,
    )
  ]

  set_size-Good :
      (arg : Option Text) (r : Run)
      → r.device ≡ s
      → ((t : Text) → arg ≡ some t → Safe s (set_sizzonedefault (given (atoi t))))
      → Good IsValid Any (set_size call arg r)
  unfolding set_size
  set_size-Good arg r e h =
      then-IsValid _ _ _ (argument-Good (Same s) arg [] r e)
        λ t r₁ e₁ et. say-Good _ _ r₁ e₁ (h t et)

  reset_lba-Good :
      (arg : Option Text) (r : Run) → r.device ≡ s → Good IsValid Any (reset_lba call arg r)
  unfolding reset_lba
  reset_lba-Good arg r e =
      then-IsValid _ _ _ (argument-Good (Same s) arg [] r e) λ t r₁ e₁ _. say-Good _ _ r₁ e₁ tt

  reset_index-Good :
      (arg : Option Text) (r : Run) → r.device ≡ s → Good IsValid Any (reset_index call arg r)
  unfolding reset_index
  reset_index-Good arg r e = then-IsValid _ _ _ (argument-Good (Same s) arg [] r e) λ t r₁ e₁ _.
      then-IsValid _ _ _
        (ioctl-Good (Same s) call _ r₁
          (rw e₁ (rw (numzones_call is_power_of_2 true kzalloc krealloc s) refl)))
        λ o r₂ e₂ _. elim (Option-cases o) [
          | inl n ↦ ground (arith, n, e₂, v)
          | inr (a, n) ↦ elim (Bool-cases (leb (word_or 0 o) (atoi t))) [
            | inl h ↦ ground (arith, n, h, e₂, v)
            | inr h ↦
                rw (n, rw n at h)
                  (then-IsValid _ _ _ (size-Good is_power_of_2 true kzalloc krealloc v r₂ e₂)
                    λ p r₃ e₃ _. say-Good _ _ r₃ e₃ tt)
          ]
        ]

  pub zone_iot-Good :
      (seq : ℕ) (arg : Option Text) (r : Run)
      → r.device ≡ s
      → (seq ≡ 3 → (t : Text) → arg ≡ some t → Safe s (set_sizzonedefault (given (atoi t))))
      → Good IsValid Any (zone_iot call seq arg r)
  unfolding zone_iot
  zone_iot-Good seq arg r e h = elim (Bool-cases (seq == 3)) [
    | inl is ↦ ground (arith, is, set_size-Good arg r e (h (ground (arith, is))))
    | inr isnt ↦ ground (
      arith,
      isnt,
      show-Good (get_numzones writable) r e tt,
      show-Good (get_sizzonedefault writable) r e tt,
      reset_lba-Good arg r e,
      reset_index-Good arg r e,
      weaken Any _ v (query_all-Good is_power_of_2 true kzalloc krealloc v seq arg r e),
      weaken Any _ v (query_index-Good is_power_of_2 true kzalloc krealloc v arg r e),
      print-Good invalid_command r e,
    )
  ]

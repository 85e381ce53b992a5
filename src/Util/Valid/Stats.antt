-- ===== src/Util/Valid/Stats.antt =====
-- smrsim_util.c, smrsim_stats_iot on a device in a valid state, with the entries of the statistics
-- that it prints.
use smr_simulator.Base.{
  ℕ, zero, suc, ◌+◌, ◌^◌, ◌≡◌, ◌⊎◌, ◌≤◌, ◌<◌, ◌<◌, refl, arith, inl, inr, Bool, true, List, [], ◌∷◌,
  leb, ltb, Bool-cases, Option, some, none, length, take, get_elem?-some,
}
use smr_simulator.State.{Sim}
use smr_simulator.State.Geometry.{IsValid}
use smr_simulator.Config.Stats.{Stats, get_stats}
use smr_simulator.Ioctl.{
  dispatch, ioctl_stats, stats, writable, get_stats_cmd, reset_stats_cmd, done, ioerr,
}
use smr_simulator.Util.Atoi.{Text, atoi}
use smr_simulator.Util.Run.{succeeded, invalid_command, Run, Tool, Driver, ioctl_call}
use smr_simulator.Util.Stats.{
  report_stats, report_from, report_zone_stats, get_report, first_stats, stats_of_index,
  reset_stats_lba, reset_stats_index, stats_iot,
}
use smr_simulator.Util.Good.{Good, Any, argument-Good, malloc-Good}
use smr_simulator.Util.Reads.{Same, numzones-Good, size-Good}
use smr_simulator.Util.Valid.{weaken, then-IsValid, say-Good, print-Good}

length-take : {A : Type 0} (n : ℕ) (xs : List A) → n ≤ length xs → length (take n xs) ≡ n
length-take zero xs h = refl
length-take (suc n) [] h = absurd (omega (arith, h))
length-take (suc n) (x ∷ xs) h = omega (arith, length-take n xs (omega arith))

report_from-Good :
    (s : Sim) (st : Stats) (n i : ℕ) (r : Run)
    → i + n ≤ length st.stats_zones
    → r.device ≡ s
    → Good (Same s) Any (report_from st n i r)
unfolding report_from
report_from-Good s st zero i r h e = (e, tt)
report_from-Good s st (suc n) i r h e =
    let (z, ez) = get_elem?-some st.stats_zones i (omega arith) in
    rw ez (report_from-Good s st n (i + 1) _ (omega arith) e)

report_stats-Good :
    (s : Sim) (st : Stats) (n : ℕ) (r : Run)
    → n ≤ length st.stats_zones
    → r.device ≡ s
    → Good (Same s) Any (report_stats st n r)
unfolding report_stats
report_stats-Good s st n r h e = report_from-Good s st n 0 _ (omega arith) e

report_zone-Good :
    (s : Sim) (st : Stats) (i : ℕ) (r : Run)
    → i < length st.stats_zones
    → r.device ≡ s
    → Good (Same s) Any (report_zone_stats st i r)
unfolding report_zone_stats
report_zone-Good s st i r h e = let (z, ez) = get_elem?-some st.stats_zones i h in rw ez (e, tt)

get_stats-length :
    {s : Sim}
    → IsValid s
    → (st : Stats) × (get_stats s ≡ some st) × (length st.stats_zones ≡ s.smr_numzones)
unfolding get_stats
get_stats-length {s} v = (
  record {
    dev_stats = s.idle_stats;
    stats_num_zones = s.num_zones;
    stats_zones = take s.smr_numzones s.zone_stats;
  },
  ground (arith, v),
  length-take s.smr_numzones s.zone_stats (omega (arith, v.stats_room, v.status_room)),
)

module _ (is_power_of_2 : ℕ → Bool) (powers : (k : ℕ) → k < 64 → is_power_of_2 (2 ^ k) ≡ true)
    (kzalloc krealloc : Bool) {s : Sim} (v : IsValid s) where
  abbrev call : Driver
  call = dispatch is_power_of_2 true kzalloc krealloc

  stats_call :
      (st : Stats)
      → get_stats s ≡ some st
      → (call s (get_stats_cmd writable) ≡ done (stats st) s)
        ⊎ (call s (get_stats_cmd writable) ≡ ioerr s)
  unfolding dispatch ioctl_stats
  stats_call st h = elim (Bool-cases kzalloc) [
    | inl k ↦ inl (ground (arith, k, h))
    | inr k ↦ inr (ground (arith, k))
  ]

  get_report-Good :
      (report : Stats → Tool (Unit {0})) (r : Run)
      → r.device ≡ s
      → ((st : Stats) (r : Run)
          → length st.stats_zones ≡ s.smr_numzones
          → r.device ≡ s
          → Good (Same s) Any (report st r))
      → Good IsValid Any (get_report call report r)
  get_report-Good report r e h =
      let (st, es, len) = get_stats-length v in
      then-IsValid is_power_of_2 powers kzalloc krealloc v (λ o. (o ≡ none) ⊎ (o ≡ some (stats st)))
        _ _ (asked st es)
        λ o r₁ e₁ eo. elim eo [
          | inl n ↦ ground (arith, n, e₁, v)
          | inr f ↦ rw f (weaken Any _ v (h st _ len e₁))
        ]
    where
      asked :
          (st : Stats)
          → get_stats s ≡ some st
          → Good
              (Same s)
              (λ o. (o ≡ none) ⊎ (o ≡ some (stats st)))
              (ioctl_call call (get_stats_cmd writable) r)
      asked st es = elim (stats_call st es) [
        | inl k ↦ ground (arith, e, k)
        | inr k ↦ ground (arith, e, k)
      ]

  first_stats-Good :
      (arg : Option Text) (r : Run)
      → r.device ≡ s
      → Good IsValid Any (first_stats call s.smr_numzones arg r)
  unfolding first_stats
  first_stats-Good arg r e =
      then-IsValid is_power_of_2 powers kzalloc krealloc v _ _ _ (argument-Good (Same s) arg [] r e)
        λ t r₁ e₁ _. elim (Bool-cases (ltb s.smr_numzones (atoi t))) [
          | inl h ↦ ground (arith, h, e₁, v)
          | inr h ↦ rw h (
              get_report-Good (λ st. report_stats st (atoi t)) r₁ e₁
                λ st r₂ len e₂. report_stats-Good s st (atoi t) r₂ (ground (arith, len, h)) e₂)
        ]

  stats_of_index-Good :
      (arg : Option Text) (r : Run)
      → r.device ≡ s
      → Good IsValid Any (stats_of_index call s.smr_numzones arg r)
  unfolding stats_of_index
  stats_of_index-Good arg r e =
      then-IsValid is_power_of_2 powers kzalloc krealloc v _ _ _ (argument-Good (Same s) arg [] r e)
        λ t r₁ e₁ _. elim (Bool-cases (leb s.smr_numzones (atoi t))) [
          | inl h ↦ ground (arith, h, e₁, v)
          | inr h ↦ rw h (
              get_report-Good (λ st. report_zone_stats st (atoi t)) r₁ e₁
                λ st r₂ len e₂. report_zone-Good s st (atoi t) r₂ (ground (arith, len, h)) e₂)
        ]

  reset_stats_lba-Good :
      (arg : Option Text) (r : Run) → r.device ≡ s → Good IsValid Any (reset_stats_lba call arg r)
  unfolding reset_stats_lba
  reset_stats_lba-Good arg r e =
      then-IsValid is_power_of_2 powers kzalloc krealloc v _ _ _ (argument-Good (Same s) arg [] r e)
        λ t r₁ e₁ _. say-Good is_power_of_2 powers kzalloc krealloc v _ _ r₁ e₁ tt

  reset_stats_index-Good :
      (n : ℕ) (arg : Option Text) (r : Run)
      → r.device ≡ s
      → Good IsValid Any (reset_stats_index call n arg r)
  unfolding reset_stats_index
  reset_stats_index-Good n arg r e =
      then-IsValid is_power_of_2 powers kzalloc krealloc v _ _ _ (argument-Good (Same s) arg [] r e)
        λ t r₁ e₁ _. elim (Bool-cases (leb n (atoi t))) [
          | inl h ↦ ground (arith, h, e₁, v)
          | inr h ↦ rw h (
              then-IsValid is_power_of_2 powers kzalloc krealloc v _ _ _
                (size-Good is_power_of_2 true kzalloc krealloc v r₁ e₁)
                λ p r₂ e₂ _. say-Good is_power_of_2 powers kzalloc krealloc v _ _ r₂ e₂ tt)
        ]

  pub stats_iot-Good :
      (seq : ℕ) (arg : Option Text) (r : Run)
      → r.device ≡ s
      → Good IsValid Any (stats_iot call seq arg r)
  unfolding stats_iot
  stats_iot-Good seq arg r e =
      then-IsValid is_power_of_2 powers kzalloc krealloc v _ _ _
        (numzones-Good is_power_of_2 true kzalloc krealloc v r e)
        λ n r₁ e₁ en.
          then-IsValid is_power_of_2 powers kzalloc krealloc v _ _ _ (malloc-Good (Same s) r₁ e₁)
            λ _ r₂ e₂ _. ground (
              arith,
              en,
              get_report-Good (λ st. report_stats st n) r₂ e₂
                  (λ st r₃ len e₃. report_stats-Good s st n r₃ (omega (arith, len, en)) e₃),
              first_stats-Good arg r₂ e₂,
              stats_of_index-Good arg r₂ e₂,
              say-Good is_power_of_2 powers kzalloc krealloc v reset_stats_cmd succeeded r₂ e₂ tt,
              reset_stats_lba-Good arg r₂ e₂,
              reset_stats_index-Good n arg r₂ e₂,
              print-Good is_power_of_2 powers kzalloc krealloc v invalid_command r₂ e₂,
            )

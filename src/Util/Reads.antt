-- ===== src/Util/Reads.antt =====
-- smrsim_util.c: the parts of a command that ask the device for something, in a valid state.
use smr_simulator.Base.{
  ℕ, ◌*◌, ◌≡◌, ◌≤◌, ◌<◌, ◌||◌, arith, inl, inr, Bool, List, [], ◌∷◌, ltb, ◌==◌, leb, Bool-cases,
  Option-cases, Option, some, none, u64,
}
use smr_simulator.Types.{ZoneStatus}
use smr_simulator.State.{Sim}
use smr_simulator.State.Geometry.{IsValid, size_of, zones_fit}
use smr_simulator.Query.{
  Criteria, Answer, match_all, match_full, match_nfull, match_free, match_rnly, match_offl,
}
use smr_simulator.Query.Spec.{query_zones-returns}
use smr_simulator.Ioctl.{
  dispatch, ioctl_query, word, nothing, config, stats, zones, get_numzones, get_sizzonedefault,
  zbc_query, given, writable, Reply, ZbcQuery,
}
use smr_simulator.Util.Atoi.{Text, atoi}
use smr_simulator.Util.Run.{Run, Result, Tool, Driver, number_or_break, ◌>>◌, chain}
use smr_simulator.Util.Zones.{
  report_zones, report_zbc_query, query_matching, query_index, query_all, query_range, report_reply,
}
use smr_simulator.Util.Count.{query_seq_zones, num_seq_zones}
use smr_simulator.Util.Good.{
  Good, Any, chain-Good, Leaves, ioctl-Good, number-Good, argument-Good, malloc-Good,
}
use smr_simulator.Util.ResetZone.{numzones_call, size_call, start-u64}

abbrev pub Same : Sim → Sim → Type 0
Same s d = d ≡ s

report_zones-Good :
    (s : Sim) (zs : List ZoneStatus) (r : Run)
    → r.device ≡ s
    → Good (Same s) Any (report_zones zs r)
unfolding report_zones
report_zones-Good s [] r e = (e, tt)
report_zones-Good s (z ∷ zs) r e = report_zones-Good s zs _ e

report_query-Good :
    (s : Sim) (lba : ℕ) (c : Criteria) (a : Answer) (r : Run)
    → r.device ≡ s
    → Good (Same s) Any (report_zbc_query (some (lba, c, a)) r)
unfolding report_zbc_query
report_query-Good s lba c a r e = elim (Bool-cases (a.count == 0)) [
  | inl h ↦ ground (arith, e)
  | inr h ↦ rw h (report_zones-Good s a.copied _ e)
]

module _ (is_power_of_2 : ℕ → Bool) (allocated kzalloc krealloc : Bool) where
  pub query-Leaves :
      (s : Sim) (q : ZbcQuery)
      → IsValid s
      → q.lba ≤ s.smr_capacity
      → Leaves
          (Same s)
          (dispatch is_power_of_2 allocated kzalloc krealloc s (zbc_query (given q) writable))
  unfolding dispatch ioctl_query
  query-Leaves s q v h = elim (Bool-cases (q.num_zones == 0 || ltb s.smr_numzones q.num_zones)) [
    | inl e ↦ ground (arith)
    | inr e ↦
        let (a, r) = query_zones-returns s q.lba q.num_zones q.criteria v (ground arith) h in
        ground (arith, r)
  ]

  pub query_matching-Good :
      (s : Sim) (lba num : ℕ) (c : Criteria) (r : Run)
      → IsValid s
      → lba ≤ s.smr_capacity
      → r.device ≡ s
      → Good
          (Same s)
          Any
          (query_matching (dispatch is_power_of_2 allocated kzalloc krealloc) lba num c r)
  unfolding query_matching
  query_matching-Good s lba num c r v h e =
      chain-Good (Same s) (Same s) Any Any (λ d x. x) _ (λ o r₁ p _. report o r₁ p) _
        (ioctl-Good (Same s) (dispatch is_power_of_2 allocated kzalloc krealloc) _ _
          (rw e (query-Leaves s _ v h)))
    where
      report :
          (o : Option Reply) (r : Run) → r.device ≡ s → Good (Same s) Any (report_reply lba c o r)
      report (some (zones a)) r p = report_query-Good s lba c a r p
      report (some (word n)) r p = (p, tt)
      report (some nothing) r p = (p, tt)
      report (some (config n)) r p = (p, tt)
      report (some (stats n)) r p = (p, tt)
      report none r p = (p, tt)

module _ (is_power_of_2 : ℕ → Bool) (allocated kzalloc krealloc : Bool) {s : Sim}
    (v : IsValid s) where
  abbrev call : Driver
  call = dispatch is_power_of_2 allocated kzalloc krealloc

  -- The next part of a command that has left the device as it is.
  pub then-Same :
      {A B : Type 0} (Q : A → Type 0) (f : A → Tool B) (x : Result A)
      → Good (Same s) Q x
      → ((a : A) (r : Run) → r.device ≡ s → Q a → Good (Same s) Any (f a r))
      → Good (Same s) Any (chain x f)
  then-Same Q f x h k = chain-Good (Same s) (Same s) Q Any (λ d e. e) f k x h

  pub numzones-Good :
      (r : Run)
      → r.device ≡ s
      → Good (Same s) (λ n. n ≡ s.smr_numzones) (number_or_break call (get_numzones writable) r)
  numzones-Good r e =
      number-Good (Same s) call _ r _
        (rw e (numzones_call is_power_of_2 allocated kzalloc krealloc s)) e

  pub size-Good :
      (r : Run)
      → r.device ≡ s
      → Good (Same s) (λ n. n ≡ size_of s) (number_or_break call (get_sizzonedefault writable) r)
  size-Good r e =
      number-Good (Same s) call _ r _ (rw e (size_call is_power_of_2 allocated kzalloc krealloc v))
        e

  start_inside : (i : ℕ) → i < s.smr_numzones → u64 (i * size_of s) ≤ s.smr_capacity
  start_inside i h = omega (
    arith,
    start-u64 is_power_of_2 allocated kzalloc krealloc i v h,
    zones_fit v,
    start_le i s.smr_numzones (size_of s) h,
  )
    where
      start_le : (i n p : ℕ) → i < n → i * p ≤ n * p
      start_le i n p h = grind arith

  pub query_index-Good :
      (arg : Option Text) (r : Run) → r.device ≡ s → Good (Same s) Any (query_index call arg r)
  unfolding query_index
  query_index-Good arg r e = then-Same _ _ _ (numzones-Good r e) λ n r₁ e₁ en.
      then-Same _ _ _ (size-Good r₁ e₁) λ p r₂ e₂ ep.
        then-Same _ _ _ (argument-Good (Same s) arg [] r₂ e₂) λ t r₃ e₃ _.
          elim (Bool-cases (leb n (atoi t))) [
            | inl h ↦ ground (arith, e₃)
            | inr h ↦ rw h (
                then-Same _ _ _ (malloc-Good (Same s) r₃ e₃) λ _ r₄ e₄ _.
                  query_matching-Good is_power_of_2 allocated kzalloc krealloc s _ _ _ r₄ v
                    (rw ep (start_inside (atoi t) (ground arith))) e₄)
          ]

  range-inside :
      (seq : ℕ) (t : Text) (q : ℕ × ℕ)
      → query_range seq s.smr_numzones (size_of s) t ≡ some q
      → q.0 ≤ s.smr_capacity
  unfolding query_range
  range-inside seq t q h = ground (arith, zones_fit v, v.small)

  six-Good :
      (lba num : ℕ) (arg : Option Text) (r : Run)
      → lba ≤ s.smr_capacity
      → r.device ≡ s
      → Good (Same s) Any (
          (do
            query_matching call lba num match_all
            query_matching call lba num match_full
            query_matching call lba num match_nfull
            query_matching call lba num match_free
            query_matching call lba num match_rnly
            query_matching call lba num match_offl
            query_index call arg)
            r)
  six-Good lba num arg r h e = then-Same _ _ _ (matching match_all r e) λ _ r₁ e₁ _.
      then-Same _ _ _ (matching match_full r₁ e₁) λ _ r₂ e₂ _.
        then-Same _ _ _ (matching match_nfull r₂ e₂) λ _ r₃ e₃ _.
          then-Same _ _ _ (matching match_free r₃ e₃) λ _ r₄ e₄ _.
            then-Same _ _ _ (matching match_rnly r₄ e₄) λ _ r₅ e₅ _.
              then-Same _ _ _ (matching match_offl r₅ e₅) λ _ r₆ e₆ _. query_index-Good arg r₆ e₆
    where
      matching :
          (c : Criteria) (r : Run)
          → r.device ≡ s
          → Good (Same s) Any (query_matching call lba num c r)
      matching c r e =
          query_matching-Good is_power_of_2 allocated kzalloc krealloc s lba num c r v h e

  pub query_all-Good :
      (seq : ℕ) (arg : Option Text) (r : Run)
      → r.device ≡ s
      → Good (Same s) Any (query_all call seq arg r)
  unfolding query_all
  query_all-Good seq arg r e = then-Same _ _ _ (numzones-Good r e) λ n r₁ e₁ en.
      then-Same _ _ _ (size-Good r₁ e₁) λ p r₂ e₂ ep.
        then-Same _ _ _ (argument-Good (Same s) arg [] r₂ e₂) λ t r₃ e₃ _.
          elim (Option-cases (query_range seq n p t)) [
            | inl h ↦ ground (arith, h, e₃)
            | inr (q, h) ↦ rw h (
                then-Same _ _ _ (malloc-Good (Same s) r₃ e₃) λ _ r₄ e₄ _.
                  six-Good q.0 q.1 arg r₄ (range-inside seq t q (rw (← en, ← ep) h)) e₄)
          ]

  pub query_seq_zones-Good :
      (num : ℕ) (r : Run) → r.device ≡ s → Good (Same s) Any (query_seq_zones call num r)
  unfolding query_seq_zones num_seq_zones
  query_seq_zones-Good num r e = then-Same _ _ _ (malloc-Good (Same s) r e) λ _ r₁ e₁ _.
      then-Same _ _ _
        (ioctl-Good (Same s) call _ r₁
          (rw e₁ (query-Leaves is_power_of_2 allocated kzalloc krealloc s _ v (omega arith))))
        λ o r₂ e₂ _. elim (Option-cases o) [
          | inl h ↦ ground (arith, h, e₂)
          | inr (w, h) ↦ ground (arith, h, e₂)
        ]

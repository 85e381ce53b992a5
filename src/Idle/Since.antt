-- ===== src/Idle/Since.antt =====
-- What the idle statistics measure.
use smr_simulator.Base.{
  ℕ, ◌<◌, ◌-◌, ◌/◌, ◌^◌, ◌∙◌, ◌≡◌, ◌≤◌, arith, some, Bool-cases, inl, inr, ltb, ◌==◌, not, ◌&&◌,
  refl,
}
use smr_simulator.State.{Sim, live}
use smr_simulator.Idle.{idle_seconds, dev_idle_update}

-- One update, with the seconds that it computes.
one_update :
    (s : Sim) (jiffies hz : ℕ)
    → s.memory ≡ live
    → (s' : Sim) × (dev_idle_update s jiffies hz ≡ some s')
      × (s'.dev_idle_checkpoint ≡ s.dev_idle_checkpoint)
      × (s'.memory ≡ s.memory)
      × (idle_seconds s.dev_idle_checkpoint jiffies hz ≤ s'.idle_stats.dev_idle_time_max)
      × (s.idle_stats.dev_idle_time_max ≤ s'.idle_stats.dev_idle_time_max)
unfolding dev_idle_update
one_update s jiffies hz m =
    let dt = idle_seconds s.dev_idle_checkpoint jiffies hz in
    elim (Bool-cases (ltb s.idle_stats.dev_idle_time_max dt)) [
      | inl e ↦ (
        record s { idle_stats = record s.idle_stats { dev_idle_time_max = dt } },
        ground arith,
        refl,
        refl,
        omega arith,
        ground arith,
      )
      | inr n ↦ elim (Bool-cases (not (dt == 0) && ltb dt s.idle_stats.dev_idle_time_min)) [
        | inl e ↦ (
          record s { idle_stats = record s.idle_stats { dev_idle_time_min = dt } },
          ground arith,
          refl,
          refl,
          ground arith,
          omega arith,
        )
        | inr n' ↦ (s, ground arith, refl, refl, ground arith, omega arith)
      ]
    ]

-- From the checkpoint on, and as long as the seconds fit a __u32, these are the seconds since it.
idle_seconds-since :
    (checkpoint jiffies hz : ℕ)
    → checkpoint < jiffies
    → (jiffies - checkpoint) / hz < 2 ^ 32
    → idle_seconds checkpoint jiffies hz ≡ (jiffies - checkpoint) / hz
unfolding idle_seconds
idle_seconds-since checkpoint jiffies hz h l = ground arith

-- With the object allocated, let one update come after another, both after the checkpoint and with
-- the seconds since it in a __u32. The checkpoint stays, and the longest idle time is then at least
-- the time from the checkpoint to the second update, although the device was not idle in between:
-- the updates of requests do not move the checkpoint. It never decreases.
pub dev_idle_update_since :
    (s : Sim) (first second hz : ℕ)
    → s.memory ≡ live
    → s.dev_idle_checkpoint < first
    → first < second
    → (second - s.dev_idle_checkpoint) / hz < 2 ^ 32
    → (s₁ s₂ : Sim) × (dev_idle_update s first hz ≡ some s₁)
      × (dev_idle_update s₁ second hz ≡ some s₂)
      × (s₂.dev_idle_checkpoint ≡ s.dev_idle_checkpoint)
      × ((second - s.dev_idle_checkpoint) / hz ≤ s₂.idle_stats.dev_idle_time_max)
      × (s.idle_stats.dev_idle_time_max ≤ s₁.idle_stats.dev_idle_time_max)
      × (s₁.idle_stats.dev_idle_time_max ≤ s₂.idle_stats.dev_idle_time_max)
dev_idle_update_since s first second hz m h₁ h₂ l =
    let (s₁, e₁, c₁, m₁, _, g₁) = one_update s first hz m in
    let (s₂, e₂, c₂, _, a₂, g₂) = one_update s₁ second hz (m₁ ∙ m) in
    (
      s₁,
      s₂,
      e₁,
      e₂,
      c₂ ∙ c₁,
      rw (c₁, idle_seconds-since s.dev_idle_checkpoint second hz (omega arith) l) at a₂,
      g₁,
      g₂,
    )

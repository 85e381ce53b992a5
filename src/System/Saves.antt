-- ===== src/System/Saves.antt =====
-- A command that changes the configuration, and the save of it by the background task.
use smr_simulator.Base.{
  ℕ, ◌≡◌, ◌≢◌, ◌<◌, ◌^◌, arith, ◌∙◌, sym, refl, Bool, true, List, [], ◌∷◌, Option, none, some,
  Option-cases, inl, inr, ◌⊎◌, ◌+◌, ◌*◌, length, get_elem?,
}
use smr_simulator.Types.{Code, success}
use smr_simulator.State.{Sim, PstoreTask}
use smr_simulator.State.Geometry.{IsValid}
use smr_simulator.Map.Entry.{map-Frame, dev_idle_update_lem, idled}
use smr_simulator.Pstore.Queue.{note_config}
use smr_simulator.Pstore.Task.{save_pages, with_crc, set_flags, no_change}
use native.Mathlib.Decide.{dec_lt}
use smr_simulator.Pstore.Whole.{save_pages-whole}
use smr_simulator.Pstore.Round.{round_saves}
use smr_simulator.Ioctl.{Cmd, Outcome, dispatch, ioctl}
use smr_simulator.Ioctl.Notes.{is_setter, task_after, dispatch-task_after}
use smr_simulator.System.{Kernel, Event, request, command, round, Seen, outcome, pages, step, run}
use smr_simulator.System.Safe.{Admits, AllAdmitted, step_total, run_total}

-- The bit SMR_CONFIG_CHANGE.
abbrev pub Pending : Sim → Type 0
Pending s = s.ptask.flag.config_change ≡ true

-- No round of the background task is among the events.
abbrev pub NoRound : List Event → Type 0
NoRound [] = Unit
NoRound (request b jiffies ∷ es) = NoRound es
NoRound (command allocated kzalloc krealloc cmd jiffies ∷ es) = NoRound es
NoRound (round allocated ∷ es) = ⊥

seen_inj :
    {a b : Seen} {s s' : Sim}
    → ◌≡◌ {A = Option (Seen × Sim)} (some (a, s)) (some (b, s'))
    → (a ≡ b) × (s ≡ s')
seen_inj e = (cc, cc)

run_inj :
    {a b : List Seen} {s s' : Sim}
    → ◌≡◌ {A = Option (List Seen × Sim)} (some (a, s)) (some (b, s'))
    → (a ≡ b) × (s ≡ s')
run_inj e = (cc, cc)

NoRound-split : (e : Event) (es : List Event) → NoRound (e ∷ es) → NoRound (e ∷ []) × NoRound es
NoRound-split (request b jiffies) es n = (tt, n)
NoRound-split (command allocated kzalloc krealloc cmd jiffies) es n = (tt, n)
NoRound-split (round allocated) es n = absurd n

-- The next round writes the whole object.
abbrev pub SavesAll : Kernel → Sim → Type 0
SavesAll k s =
    (written : List ℕ) × (step k s (round true)
      ≡ some (
        pages written,
        record (with_crc k.page_size k.crc_of s) { ptask = set_flags no_change s.ptask },
      ))
    × ((i : ℕ) → i * k.page_size < 44 * length s.zone_status + 44 → get_elem? written i ≡ some i)

module _ (k : Kernel) where
  -- What a command that returned did to the state of the task.
  command-task_after :
      {s s' : Sim} {seen : Seen} (allocated kzalloc krealloc : Bool) (cmd : Cmd) (jiffies : ℕ)
      → IsValid s
      → step k s (command allocated kzalloc krealloc cmd jiffies) ≡ some (seen, s')
      → (o : Outcome) × (outcome o ≡ seen) × (s'.ptask ≡ task_after (is_setter cmd) o.code s.ptask)
  unfolding step ioctl
  command-task_after {s} {s'} allocated kzalloc krealloc cmd jiffies v q =
      let (u, e) = dev_idle_update_lem s jiffies k.hz v.is_allocated in
      let d = dispatch k.is_power_of_2 allocated kzalloc krealloc (idled s u) cmd in
      elim (Option-cases d) [
        | inl none_eq ↦ absurd (faulted (rw (e, none_eq) at q))
        | inr (o, some_eq) ↦
            let (same, state) = seen_inj (rw (e, some_eq) at q) in
            (
              o,
              same,
              rw (← state) (
                  dispatch-task_after (idled s u) k.is_power_of_2 allocated kzalloc krealloc cmd
                    some_eq),
            )
      ]
    where
      faulted : {seen : Seen} → ◌≢◌ {A = Option (Seen × Sim)} none (some (seen, s'))
      faulted e = cc

  set_pending :
      (c : Code) (p : PstoreTask) → c ≡ success → (task_after true c p).flag.config_change ≡ true
  unfolding note_config
  set_pending c p h = rw h refl

  outcome_inj : {a b : Outcome} → outcome a ≡ outcome b → a.code ≡ b.code
  outcome_inj e = cc

  setter-Pending :
      (b : Bool) (c : Code) (p : PstoreTask)
      → p.flag.config_change ≡ true
      → (task_after b c p).flag.config_change ≡ true
  unfolding note_config
  setter-Pending b c p h = ground (arith, h)

  step-Pending :
      {s s' : Sim} {seen : Seen} (e : Event)
      → IsValid s
      → Admits s e
      → NoRound (e ∷ [])
      → step k s e ≡ some (seen, s')
      → Pending s
      → Pending s'
  unfolding step
  step-Pending (request b jiffies) v en n q h =
      let (w, s₁, e, _, f) = map-Frame v en k.target jiffies k.hz in
      rw (← (seen_inj (rw e at q)).1) (f.pending h)
  step-Pending {s} (command allocated kzalloc krealloc cmd jiffies) v a n q h =
      let (o, _, e) = command-task_after allocated kzalloc krealloc cmd jiffies v q in
      rw e (setter-Pending (is_setter cmd) o.code s.ptask h)
  step-Pending (round allocated) v a n q h = absurd n

  run-Pending :
      (es : List Event) {s : Sim} {seen : List Seen} {s' : Sim}
      → ((n : ℕ) → n < 64 → k.is_power_of_2 (2 ^ n) ≡ true)
      → IsValid s
      → AllAdmitted k s es
      → NoRound es
      → Pending s
      → run k s es ≡ some (seen, s')
      → Pending s'
  unfolding run
  run-Pending [] powers v a n h q = rw (← (run_inj q).1) h
  run-Pending (e ∷ es) {s} {seen} {s'} powers v (a, rest) n h q =
      let (seen₁, s₁, q₁, v₁) = step_total k powers e v a in
      let (more, s₂, q₂, v₂) = run_total k powers es v₁ (rest seen₁ s₁ q₁) in
      let (m, r) = NoRound-split e es n in
      rw (← (run_inj (rw (q₁, q₂) at q)).1)
        (run-Pending es powers v₁ (rest seen₁ s₁ q₁) r (step-Pending e v a m q₁ h) q₂)

  saved :
      (s : Sim)
      → 0 < k.page_size
      → IsValid s
      → Pending s
      → ((s.smr_numzones ≢ 0) × SavesAll k s)
        ⊎ ((s.smr_numzones ≡ 0)
            × (step k s (round true)
                ≡ some (pages [], record s { ptask = set_flags no_change s.ptask })))
  unfolding step
  saved s page v h =
      let (saves, drops) = round_saves k.page_size k.crc_of v h in
      elim (dec_lt 0 s.smr_numzones) [
        | yes p ↦ inl (
          (λ e. absurd (omega arith)),
          (
            save_pages k.page_size k.crc_of s.header.length,
            rw (saves (λ e. absurd (omega arith))) refl,
            λ i l.
                save_pages-whole k.page_size k.crc_of s.header.length i page
                  (omega (arith, l, v.sized)),
          ),
        )
        | no z ↦ inr (omega arith, rw (drops (omega arith)) refl)
      ]

  -- Where `is_power_of_2` holds of the powers of two below 2 ^ 64: let an admitted setter return
  -- success in a valid state, and let admitted requests and commands, in any order, follow it. They
  -- are handled, and the next round of the background task, with memory for its page, is too. If there
  -- is a zone by then, it writes every page of the object, in order (page `k` is the `k`th written,
  -- for every page that starts within the 44 bytes of each zone that there is room for and 44 more),
  -- sets the checksum and clears the bits; if there is none, it clears the bits and writes nothing.
  pub setter-saves :
      ((n : ℕ) → n < 64 → k.is_power_of_2 (2 ^ n) ≡ true)
      → 0 < k.page_size
      → {s s₁ : Sim} {o : Outcome} (allocated kzalloc krealloc : Bool) (cmd : Cmd) (jiffies : ℕ)
      → IsValid s
      → Admits s (command allocated kzalloc krealloc cmd jiffies)
      → step k s (command allocated kzalloc krealloc cmd jiffies) ≡ some (outcome o, s₁)
      → is_setter cmd ≡ true
      → o.code ≡ success
      → (es : List Event) → AllAdmitted k s₁ es
      → NoRound es
      → (seen : List Seen) × (s₂ : Sim) × (run k s₁ es ≡ some (seen, s₂))
        × (((s₂.smr_numzones ≢ 0) × SavesAll k s₂)
            ⊎ ((s₂.smr_numzones ≡ 0)
                × (step k s₂ (round true)
                    ≡ some (pages [], record s₂ { ptask = set_flags no_change s₂.ptask }))))
  unfolding step
  setter-saves powers page {s} {s₁} {o} allocated kzalloc krealloc cmd jiffies v a q setter ok es b
        n =
      let v₁ : IsValid s₁ =
        let (_, t, q', w) =
          step_total k powers (command allocated kzalloc krealloc cmd jiffies) v a in
        rw ((seen_inj (sym q ∙ q')).1) w in
      let (seen, s₂, r, v₂) = run_total k powers es v₁ b in
      (seen, s₂, r, saved s₂ page v₂ (run-Pending es powers v₁ b n pending r))
    where
      pending : Pending s₁
      pending =
          let (o', same, e) = command-task_after allocated kzalloc krealloc cmd jiffies v q in
          rw (e, setter) (set_pending o'.code s.ptask (outcome_inj same ∙ ok))

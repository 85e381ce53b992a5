-- ===== src/System/Safe.antt =====
-- What the events of a run have to keep for the run not to fault.
use smr_simulator.Base.{ℕ, ◌≡◌, ◌<◌, ◌^◌, arith, refl, true, List, [], ◌∷◌, some}
use smr_simulator.Types.{IdleStats}
use smr_simulator.State.{Sim}
use smr_simulator.State.Geometry.{IsValid}
use smr_simulator.Map.Entry.{Enters, map_total, idled, dev_idle_update_lem, idled-IsValid}
use smr_simulator.Ioctl.{
  Cmd, ioctl, add_zoneconfig, border_cross, zbc_query, set_sizzonedefault, get_stats_cmd,
}
use smr_simulator.Ioctl.Calls.{Safe, dispatch_total}
use smr_simulator.Pstore.Round.{task_round_total}
use smr_simulator.System.{
  Kernel, Event, request, command, round, Seen, verdict, outcome, pages, step, run,
}

-- A request starts in a zone of the table, with the zone's pointer within it, and ends in that zone or
-- before the end of the last one, or starts behind the table; a command is safe in its state and has memory for a table.
abbrev pub Admits : Sim → Event → Type 0
Admits s (request b jiffies) = Enters s b
Admits s (command allocated kzalloc krealloc cmd jiffies) = (allocated ≡ true) × Safe s cmd
Admits s (round allocated) = Unit

-- Each event is admitted in the state in which it happens.
abbrev pub AllAdmitted : Kernel → Sim → List Event → Type 0
AllAdmitted k s [] = Unit
AllAdmitted k s (e ∷ es) =
    Admits s e × ((seen : Seen) (s' : Sim) → step k s e ≡ some (seen, s') → AllAdmitted k s' es)

pub Safe-idled : (s : Sim) (u : IdleStats) (cmd : Cmd) → Safe s cmd → Safe (idled s u) cmd
Safe-idled s u (add_zoneconfig arg) h = h
Safe-idled s u (border_cross arg) h = h
Safe-idled s u (zbc_query arg out) h = h
Safe-idled s u (set_sizzonedefault arg) h = h
Safe-idled s u (get_stats_cmd out) h = h
Safe-idled s u _ h = h

module _ (k : Kernel) (powers : (n : ℕ) → n < 64 → k.is_power_of_2 (2 ^ n) ≡ true) where
  -- In a valid state an admitted event is handled, and the state stays valid.
  pub step_total :
      {s : Sim} (e : Event)
      → IsValid s
      → Admits s e
      → (seen : Seen) × (s' : Sim) × (step k s e ≡ some (seen, s')) × IsValid s'
  unfolding step ioctl
  step_total {s} (request b jiffies) v en =
      let (w, s', e, _, v') = map_total v en k.target jiffies k.hz in
      (verdict w, s', ground (arith, e), v')
  step_total {s} (command allocated kzalloc krealloc cmd jiffies) v (memory, safe) =
      let (u, e) = dev_idle_update_lem s jiffies k.hz v.is_allocated in
      let (o, d, v') =
        dispatch_total k.is_power_of_2 powers kzalloc krealloc (idled s u) cmd (idled-IsValid u v)
          (Safe-idled s u cmd safe) in
      (outcome o, o.state, rw (memory, e, d) refl, v')
  step_total {s} (round allocated) v h =
      let (h, p, written, e, v') = task_round_total k.page_size k.crc_of allocated v in
      (pages written, record s { header = h; ptask = p }, rw e refl, v')

  -- Where `is_power_of_2` holds of the powers of two below 2 ^ 64: requests, commands and rounds of
  -- the background task, in any order and each admitted in the state in which it happens
  -- (`AllAdmitted`), are all handled from a valid state. None of them accesses memory that it may
  -- not, and the state at the end is valid: its object is allocated and as long as its header says,
  -- its tables have an entry for each zone, the zones fit the device, and the queue of the task has at
  -- most 128 entries, no two on the same page.
  pub run_total :
      (es : List Event) {s : Sim}
      → IsValid s
      → AllAdmitted k s es
      → (seen : List Seen) × (s' : Sim) × (run k s es ≡ some (seen, s')) × IsValid s'
  unfolding run
  run_total [] {s} v h = ([], s, refl, v)
  run_total (e ∷ es) {s} v (h, rest) =
      let (seen, s₁, q, v₁) = step_total e v h in
      let (more, s₂, q₂, v₂) = run_total es v₁ (rest seen s₁ q) in
      (seen ∷ more, s₂, rw (q, q₂) refl, v₂)

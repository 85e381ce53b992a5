-- ===== src/System/Refines.antt =====
-- Every run of the module is a run of the drive that its states show.
use smr_simulator.Base.{
  ℕ, ◌≡◌, ◌<◌, ◌^◌, ap, ◌∙◌, arith, refl, true, List, [], ◌∷◌, some, Option, none,
}
use smr_simulator.Types.{IdleStats, Bio}
use smr_simulator.Types.{StateHeader}
use smr_simulator.State.Geometry.{IsValid}
use smr_simulator.State.{PstoreTask, Sim}
use smr_simulator.Map.{Target, Verdict}
use smr_simulator.Map.Entry.{map-at, dev_idle_update_lem, idled}
use smr_simulator.Drive.Obey.{obey}
use smr_simulator.Drive.View.{view, IsTidy}
use smr_simulator.System.{Kernel, Event, request, command, round, Seen, step, run}
use smr_simulator.Pstore.Round.{task_round_total}
use smr_simulator.Map.{map}
use smr_simulator.Ioctl.{Cmd, ioctl, zbc_reset_zone, reset_zonestats, border_cross}
use smr_simulator.Ioctl.Calls.{Safe}
use smr_simulator.Drive.Refines.{OnDevice, dispatch-obey}
use smr_simulator.System.Safe.{Safe-idled}
use smr_simulator.System.User.{Serves, obeys, rests, AllServed, ends, serves}
use smr_simulator.Rules.Aims.{Aims}
use smr_simulator.Map.Total.{EndsBefore}
use smr_simulator.Types.{ZoneStatus, ZoneStats}
use smr_simulator.System.Served.{Answers, direction-Answers, idled-IsTidy}

-- What an event needs: a request is one to a zone of the table that ends in it or before the end of
-- the last one; a command is safe, has the memory it asks for, and stays on the
-- device.
abbrev pub Asks : Sim → Event → Type 0
Asks s (request b jiffies) =
    (i : ℕ) × (z : ZoneStatus) × (t : ZoneStats) × Aims s b i z t × EndsBefore s b i
Asks s (command allocated kzalloc krealloc cmd jiffies) =
    (allocated ≡ true) × (kzalloc ≡ true) × (krealloc ≡ true) × Safe s cmd × OnDevice s cmd
Asks s (round allocated) = Unit

-- Each event in the state in which it happens.
abbrev pub AllAsked : Kernel → Sim → List Event → Type 0
AllAsked k s [] = Unit
AllAsked k s (e ∷ es) =
    Asks s e × ((seen : Seen) (s' : Sim) → step k s e ≡ some (seen, s') → AllAsked k s' es)

OnDevice-idled : (s : Sim) (u : IdleStats) (cmd : Cmd) → OnDevice s cmd → OnDevice (idled s u) cmd
OnDevice-idled s u (zbc_reset_zone arg) h = h
OnDevice-idled s u (reset_zonestats arg) h = h
OnDevice-idled s u (border_cross arg) h = h
OnDevice-idled s u _ h = tt

-- What a step gives: an answer that serves the event, and a tidy state.
abbrev Served : Target → Sim → Event → Option (Seen × Sim) → Type 0
Served target s e none = ⊥
Served target s e (some (seen, s')) = Serves target (view s) e seen (view s') × IsTidy s'

view-idled : (s : Sim) (u : IdleStats) → view (idled s u) ≡ record (view s) { idle = u }
unfolding view
view-idled s u = refl

-- A round is not seen.
stored-IsTidy :
    {s : Sim} (h : StateHeader) (p : PstoreTask)
    → IsTidy s
    → IsValid (record s { header = h; ptask = p })
    → IsTidy (record s { header = h; ptask = p })
stored-IsTidy h p t v = record { valid = v; rest = t.rest }

view_stored :
    (s : Sim) (h : StateHeader) (p : PstoreTask)
    → view (record s { header = h; ptask = p }) ≡ view s
unfolding view
view_stored s h p = refl

module _ (k : Kernel) (powers : (n : ℕ) → n < 64 → k.is_power_of_2 (2 ^ n) ≡ true) where
  request-Served :
      (s : Sim) (b : Bio) (jiffies : ℕ) (r : Option (Verdict × Sim))
      → Answers k.target s b jiffies r
      → map s k.target b jiffies k.hz ≡ r
      → Served k.target s (request b jiffies) (step k s (request b jiffies))
  unfolding step
  request-Served s b jiffies none h e = absurd h
  request-Served s b jiffies (some (v, s')) h e = rw e h

  step-Served : {s : Sim} (e : Event) → IsTidy s → Asks s e → Served k.target s e (step k s e)
  step-Served {s} (request b jiffies) v (i, z, t, a, en) =
      let (u, q, a') = map-at a k.target jiffies k.hz in
      request-Served s b jiffies _ (direction-Answers u a' v k.target jiffies b.bio_dir refl en) q
  step-Served {s} (command allocated kzalloc krealloc cmd jiffies) v (m₁, m₂, m₃, safe, on) =
      unfold step ioctl in
      let (u, e) = dev_idle_update_lem s jiffies k.hz v.valid.is_allocated in
      let (o, d, same, v') =
        dispatch-obey k.is_power_of_2 powers (idled s u) cmd (idled-IsTidy u v)
          (Safe-idled s u cmd safe) (OnDevice-idled s u cmd on) in
      rw (m₁, m₂, m₃, e, d) (obeys cmd jiffies u (same ∙ ap (λ d. obey d cmd) (view-idled s u)), v')
  step-Served {s} (round allocated) v h =
      unfold step in
      let (head, p, written, e, w) = task_round_total k.page_size k.crc_of allocated v.valid in
      rw (e, view_stored s head p) (rests allocated written, stored-IsTidy head p v w)

  Served-step :
      (s : Sim) (e : Event) (r : Option (Seen × Sim))
      → Served k.target s e r
      → (seen : Seen) × (s' : Sim) × (r ≡ some (seen, s'))
        × Serves k.target (view s) e seen (view s')
        × IsTidy s'
  Served-step s e none h = absurd h
  Served-step s e (some (seen, s')) h = (seen, s', refl, h.0, h.1)

  -- The run of an event after which the others run.
  run-next :
      (s : Sim) (e : Event) (es : List Event) {s₁ s₂ : Sim} {seen : Seen} {more : List Seen}
      → step k s e ≡ some (seen, s₁)
      → run k s₁ es ≡ some (more, s₂)
      → run k s (e ∷ es) ≡ some (seen ∷ more, s₂)
  unfolding run
  run-next s e es q q₂ = ground (arith, q, q₂)

  -- Where `is_power_of_2` holds of the powers of two below 2 ^ 64: from a valid state in which the
  -- counters behind the last zone are zero (`IsTidy`), requests, commands and rounds of the
  -- background task, in any order and each as it may come in its state (`AllAsked`; a command with
  -- memory), are all handled, and what they answer is a run of the drive that the states show
  -- (`AllServed`). A command gives the code, the reply and the drive of `obey`, with some idle times;
  -- a round is not seen; a read changes no zone. A write to a sequential zone, under the default
  -- write policy and with no research option, is sent on without delay where the rules of a
  -- host-managed drive allow it (`allows`), and changes its zone alone: the pointer moves past the
  -- write, and the zone is full or closed. Where they do not, it is refused and no zone changes. Of
  -- any other write it is said that the number of zones and of counters, the zone size and the
  -- configuration stay.
  pub run-AllServed :
      (es : List Event) {s : Sim}
      → IsTidy s
      → AllAsked k s es
      → (seen : List Seen) × (s' : Sim) × (run k s es ≡ some (seen, s'))
        × AllServed k.target (view s) es seen (view s')
        × IsTidy s'
  unfolding run
  run-AllServed [] {s} v h = ([], s, refl, ends, v)
  run-AllServed (e ∷ es) {s} v (h, rest) =
      let (seen, s₁, q, a, v₁) = Served-step s e _ (step-Served e v h) in
      let (more, s₂, q₂, b, v₂) = run-AllServed es v₁ (rest seen s₁ q) in
      (seen ∷ more, s₂, run-next s e es q q₂, serves a b, v₂)
